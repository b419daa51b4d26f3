-- ===== src/Library/Elf/Symbols/Listed.antt =====
-- utils/python/library/elf_parser.py: `ListGlobalSymbols` against the symbols that stand in a symbol
-- table.
use test_vts.Base.{
  ℕ, suc, ◌+◌, ◌*◌, ◌<◌, ◌≡◌, refl, ◌∙◌, Bool, true, false, Bool-cases, inl, inr, some, List, [],
  ◌∷◌, arith, ◌==◌, ◌||◌, ◌&&◌, not, length, if◌then◌else◌,
}
use test_vts.Base.Text.{Str}
use test_vts.Library.Result.{ok}
use test_vts.Library.Structs.{Shdr, Sym}
use test_vts.Library.Structs.Fields.{Values, sizeof}
use test_vts.Library.Structs.Layouts.{
  Class, class32, class64, sym_fields, sym_of, get_binding, get_type,
}
use test_vts.Library.Structs.Pack.{pack, FitIn}
use test_vts.Library.Elf.{ElfParser, seek}
use test_vts.Library.Elf.Image.{seek_read_struct-pack}
use test_vts.Library.Elf.Sections.{get_string, get_section_by_name, entries}
use test_vts.Library.Elf.Symbols.{
  get_symbol, is_listed, bindings, listed_from, tables, list_global_symbols,
}

-- A symbol of a table, and its name.
pub record Named (c : Class) : Type 0 where
  pub fields : Values (sym_fields c)
  pub name : Str

-- The symbols stand in the table from the index `idx` on; the names of those that are listed are read
-- from the string table.
abbrev pub SymbolsAt : (p : ElfParser) → Shdr → Shdr → Bool → ℕ → List (Named p.class) → Type 0
SymbolsAt p symtab strtab weak idx [] = Unit
SymbolsAt p symtab strtab weak idx (s ∷ ss) =
    ((rest : List ℕ) × (seek p.file (symtab.sh_offset + idx * symtab.sh_entsize)
        ≡ pack (sym_fields p.class) s.fields rest))
    × FitIn (sym_fields p.class) s.fields
    × (is_listed (bindings weak) (sym_of p.class s.fields) ≡ true
        → get_string p strtab (sym_of p.class s.fields).st_name ≡ ok s.name)
    × SymbolsAt p symtab strtab weak (suc idx) ss

-- The names of the global symbols, and of the weak ones if they are wanted, that have a type and are
-- defined.
abbrev pub is_global : Bool → Sym → Bool
is_global weak sym =
    (get_binding sym == 1 || (weak && get_binding sym == 2))
    && not (get_type sym == 0)
    && not (sym.st_shndx == 0)

abbrev pub global_names : (c : Class) → Bool → List (Named c) → List Str
global_names c weak [] = []
global_names c weak (s ∷ ss) =
    let rest = global_names c weak ss in
    if is_global weak (sym_of c s.fields) then s.name ∷ rest else rest

is_listed-is_global : (weak : Bool) (sym : Sym) → is_listed (bindings weak) sym ≡ is_global weak sym
unfolding is_listed bindings
is_listed-is_global true sym = ground arith
is_listed-is_global false sym = ground arith

sym_size : (c : Class) → 0 < sizeof (sym_fields c)
sym_size class32 = omega arith
sym_size class64 = omega arith

listed_from-SymbolsAt :
    (p : ElfParser) (symtab strtab : Shdr) (weak : Bool) (idx : ℕ) (ss : List (Named p.class))
    → SymbolsAt p symtab strtab weak idx ss
    → listed_from p symtab strtab (bindings weak) (length ss) idx
      ≡ ok (global_names p.class weak ss)
unfolding listed_from get_symbol
listed_from-SymbolsAt p symtab strtab weak idx [] h = refl
listed_from-SymbolsAt p symtab strtab weak idx (s ∷ ss) ((rest, at), fit, named, more) =
    let sym = sym_of p.class s.fields in
    let read =
      seek_read_struct-pack p.file _ (sym_fields p.class) s.fields rest (sym_size p.class) fit at in
    let ih = listed_from-SymbolsAt p symtab strtab weak (suc idx) ss more in
    let same = is_listed-is_global weak sym in
    elim (Bool-cases (is_global weak sym)) [
      | inl global ↦ rw (read, same, global, named (same ∙ global), ih) refl
      | inr other ↦ rw (read, same, other, ih) refl
    ]

-- ListGlobalSymbols returns exactly the names of the symbols of the table that are global, or weak if
-- weak symbols are included, that have a type and are defined, in their order, both for 32-bit and for
-- 64-bit files. The symbol table and the string table are sections of the given names.
pub list_global_symbols-SymbolsAt :
    (p : ElfParser) (weak : Bool) (symtab_name strtab_name : Str) (symtab strtab : Shdr)
    (ss : List (Named p.class))
    → get_section_by_name p symtab_name ≡ ok (some symtab)
    → get_section_by_name p strtab_name ≡ ok (some strtab)
    → (symtab.sh_size == 0) ≡ false
    → entries symtab ≡ ok (length ss)
    → SymbolsAt p symtab strtab weak 0 ss
    → list_global_symbols weak symtab_name strtab_name p ≡ ok (global_names p.class weak ss)
unfolding list_global_symbols tables
list_global_symbols-SymbolsAt p weak n m symtab strtab ss hn hm hs he h =
    rw (hn, hm, hs, he) (listed_from-SymbolsAt p symtab strtab weak 0 ss h)
