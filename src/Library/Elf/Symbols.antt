-- ===== src/Library/Elf/Symbols.antt =====
-- utils/python/library/elf_parser.py: symbol tables.
pub mod Listed
use test_vts.Base.{
  ℕ, zero, suc, ◌+◌, ◌*◌, Bool, true, false, not, Option, none, some, List, [], ◌∷◌, ◌==◌, elem,
  nat_eq, if◌then◌else◌,
}
use test_vts.Base.Text.{Str}
use test_vts.Library.Result.{Result, ok, raise, ◌>>=◌, elf_error}
use test_vts.Library.Consts.{dynsym_name, dynstr_name, shn_undef, stb_global, stb_weak, stt_notype}
use test_vts.Library.Structs.{Shdr, Sym, Rel}
use test_vts.Library.Structs.Layouts.{sym_fields, sym_of, get_binding, get_type}
use test_vts.Library.Structs.Layouts
use test_vts.Library.Elf.{ElfParser, seek_read_struct}
use test_vts.Library.Elf.Sections.{get_string, get_section_by_name, entries}

-- `GetSymbol`
unfoldable pub get_symbol : ElfParser → Shdr → ℕ → Result Sym
get_symbol p symtab idx = do
  fields ← seek_read_struct p.file (symtab.sh_offset + idx * symtab.sh_entsize) (sym_fields p.class)
  ok (sym_of p.class fields)

-- `GetRelocationSymbol`
unfoldable pub get_relocation_symbol : ElfParser → Shdr → Rel → Result Sym
get_relocation_symbol p symtab rel = get_symbol p symtab (Layouts.get_symbol p.class rel)

-- The tests of the loop of `ListGlobalSymbols` that `continue`.
unfoldable pub is_listed : List ℕ → Sym → Bool
is_listed include_bindings sym =
    if get_type sym == stt_notype
    then false
    else if not (elem (get_binding sym) include_bindings)
    then false
    else if sym.st_shndx == shn_undef
    then false
    else true

-- The loop of `ListGlobalSymbols` over the symbols from `idx` on, `n` of them, which `GetSymbols`
-- reads one at a time.
unfoldable pub listed_from : ElfParser → Shdr → Shdr → List ℕ → ℕ → ℕ → Result (List Str)
listed_from p symtab strtab include_bindings zero idx = ok []
listed_from p symtab strtab include_bindings (suc n) idx = do
  sym ← get_symbol p symtab idx
  let more = listed_from p symtab strtab include_bindings n (suc idx)
  if is_listed include_bindings sym
      then (do name ← get_string p strtab sym.st_name; rest ← more; ok (name ∷ rest))
      else more

unfoldable pub bindings : Bool → List ℕ
bindings include_weak = if include_weak then stb_global ∷ stb_weak ∷ [] else stb_global ∷ []

-- `if not symtab or not strtab or symtab.sh_size == 0`
unfoldable pub tables : Option Shdr → Option Shdr → Result (Shdr × Shdr)
tables none strtab = raise elf_error
tables (some symtab) none = raise elf_error
tables (some symtab) (some strtab) =
    if symtab.sh_size == 0 then raise elf_error else ok (symtab, strtab)

-- `ListGlobalSymbols`
unfoldable pub list_global_symbols : Bool → Str → Str → ElfParser → Result (List Str)
list_global_symbols include_weak symtab_name' strtab_name' p = do
  symtab? ← get_section_by_name p symtab_name'
  strtab? ← get_section_by_name p strtab_name'
  (symtab, strtab) ← tables symtab? strtab?
  num ← entries symtab
  listed_from p symtab strtab (bindings include_weak) num 0

-- `ListGlobalDynamicSymbols`
unfoldable pub list_global_dynamic_symbols : Bool → ElfParser → Result (List Str)
list_global_dynamic_symbols include_weak = list_global_symbols include_weak dynsym_name dynstr_name
