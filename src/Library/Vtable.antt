-- ===== src/Library/Vtable.antt =====
-- utils/python/library/vtable/vtable_dumper.py: `VtableDumper`, which is an `ElfParser`. A vtable
-- object is a position in the list of vtables. `list.sort` is an insertion sort, which is stable too.
pub mod Dump
pub mod Order
pub mod Inside
pub mod Locate
use test_vts.Base.{
  ℕ, zero, suc, ◌+◌, ◌-◌, Bool, true, false, not, ◌&&◌, ◌||◌, Option, none, some, List, [], ◌∷◌,
  ◌++◌, ◌==◌, ltb, leb, get_elem?, elem, nat_eq, if◌then◌else◌,
}
use test_vts.Base.Int.{ℤ, pos, negsuc, ◌+ℤ◌}
use test_vts.Base.Text.{Str, str_eq, str_eq_instance, starts_with, codes}
use test_vts.Library.Result.{Result, ok, raise, ◌>>=◌, vtable_error}
use test_vts.Library.Consts.{
  em_386, em_arm, em_x86_64, em_aarch64, r_arm_abs32, r_arm_relative, r_aarch64_abs64,
  r_aarch64_relative, r_386_32, r_386_relative, r_x86_64_64, r_x86_64_relative, symtab_name,
  dynsym_name, shn_undef, stt_object, stt_func, sht_nobits,
}
use test_vts.Library.Structs.{Shdr, Sym}
use test_vts.Library.Structs.Fields.{Values}
use test_vts.Library.Structs.Layouts.{get_type, addr}
use test_vts.Library.Elf.{ElfParser, seek_read_struct}
use test_vts.Library.Elf.Sections.{section_at, get_string, get_section_by_name, entries}
use test_vts.Library.Elf.Symbols.{get_symbol}

pub record VtableEntry : Type 0 where
  pub offset : ℕ
  pub names : List Str
  pub value : ℤ
  pub is_undefined : Bool

pub record Vtable : Type 0 where
  pub name : Str
  pub begin_addr : ℕ
  pub end_addr : ℕ
  pub entries : List VtableEntry

module _ {ℓ} {A : Type ℓ} (key : A → ℕ) where
  unfoldable pub insert : A → List A → List A
  insert a [] = a ∷ []
  insert a (b ∷ l) = if leb (key a) (key b) then a ∷ b ∷ l else b ∷ insert a l

  unfoldable pub sort : List A → List A
  sort [] = []
  sort (a ∷ l) = insert a (sort l)

-- The absolute and the relative relocation type of a machine.
unfoldable pub rel_types : ℕ → Result (ℕ × ℕ)
rel_types machine =
    if machine == em_arm
    then ok (r_arm_abs32, r_arm_relative)
    else if machine == em_aarch64
    then ok (r_aarch64_abs64, r_aarch64_relative)
    else if machine == em_386
    then ok (r_386_32, r_386_relative)
    else if machine == em_x86_64
    then ok (r_x86_64_64, r_x86_64_relative)
    else raise vtable_error

abbrev pub has_name : Str → List Vtable → Bool
has_name n [] = false
has_name n (v ∷ vs) = str_eq n v.name || has_name n vs

-- One symbol of `_PrepareVtables`: `vtable_names` are the names of the vtables so far.
unfoldable pub add_vtable : Sym → Str → List Vtable → List Vtable
add_vtable sym sym_name vtables =
    if starts_with (codes "_ZTV") sym_name && not (has_name sym_name vtables)
    then vtables
      ++ record {
        name = sym_name;
        begin_addr = sym.st_value;
        end_addr = sym.st_value + sym.st_size;
        entries = [];
      }
        ∷ []
    else vtables

unfoldable pub prepare_symbols :
    ElfParser → Shdr → Shdr → ℕ → ℕ → List Vtable → Result (List Vtable)
prepare_symbols p symtab strtab zero idx vtables = ok vtables
prepare_symbols p symtab strtab (suc n) idx vtables = do
  sym ← get_symbol p symtab idx
  let skipped = prepare_symbols p symtab strtab n (suc idx) vtables
  if sym.st_shndx == shn_undef then skipped else (do
    sym_name ← get_string p strtab sym.st_name
    prepare_symbols p symtab strtab n (suc idx) (add_vtable sym sym_name vtables))

unfoldable pub prepare_section : ElfParser → Option Shdr → List Vtable → Result (List Vtable)
prepare_section p none vtables = ok vtables
prepare_section p (some symtab) vtables = do
  strtab ← section_at p symtab.sh_link
  num ← entries symtab
  prepare_symbols p symtab strtab num 0 vtables

-- `_PrepareVtables`
unfoldable pub prepare_vtables : ElfParser → Result (List Vtable)
prepare_vtables p = do
  symtab? ← get_section_by_name p symtab_name
  vtables ← prepare_section p symtab? []
  dynsym? ← get_section_by_name p dynsym_name
  vtables' ← prepare_section p dynsym? vtables
  ok (sort (λ (v : Vtable). v.begin_addr) vtables')

-- A dictionary of names by address.
abbrev pub InvTable : Type 0
InvTable = List (ℕ × List Str)

unfoldable pub add_name : ℕ → Str → InvTable → InvTable
add_name a n [] = (a, n ∷ []) ∷ []
add_name a n ((b, ns) ∷ t) = if b == a then (b, ns ++ n ∷ []) ∷ t else (b, ns) ∷ add_name a n t

unfoldable pub inverse_symbols : ElfParser → Shdr → Shdr → ℕ → ℕ → InvTable → Result InvTable
inverse_symbols p symtab strtab zero idx table = ok table
inverse_symbols p symtab strtab (suc n) idx table = do
  sym ← get_symbol p symtab idx
  let skipped = inverse_symbols p symtab strtab n (suc idx) table
  if elem (get_type sym) (stt_object ∷ stt_func ∷ []) && not (sym.st_shndx == shn_undef)
      then (do
        sym_name ← get_string p strtab sym.st_name
        inverse_symbols p symtab strtab n (suc idx) (add_name sym.st_value sym_name table))
      else skipped

unfoldable pub inverse_section : ElfParser → Option Shdr → InvTable → Result InvTable
inverse_section p none table = ok table
inverse_section p (some symtab) table = do
  strtab ← section_at p symtab.sh_link
  num ← entries symtab
  inverse_symbols p symtab strtab num 0 table

-- `s < t` of two strings
abbrev pub str_lt : Str → Str → Bool
str_lt s [] = false
str_lt [] (d ∷ t) = true
str_lt (c ∷ s) (d ∷ t) = ltb c d || (c == d && str_lt s t)

-- `sorted(set(names))`
unfoldable pub insert_name : Str → List Str → List Str
insert_name n [] = n ∷ []
insert_name n (m ∷ ms) =
    if str_eq n m then m ∷ ms else if str_lt n m then n ∷ m ∷ ms else m ∷ insert_name n ms

unfoldable pub sorted_set : List Str → List Str
sorted_set [] = []
sorted_set (n ∷ ns) = insert_name n (sorted_set ns)

unfoldable pub sort_names : InvTable → InvTable
sort_names [] = []
sort_names ((a, ns) ∷ t) = (a, sorted_set ns) ∷ sort_names t

-- `_FunctionSymbolInverseTable`
unfoldable pub function_symbol_inverse_table : ElfParser → Result InvTable
function_symbol_inverse_table p = do
  symtab? ← get_section_by_name p symtab_name
  table ← inverse_section p symtab? []
  dynsym? ← get_section_by_name p dynsym_name
  table' ← inverse_section p dynsym? table
  ok (sort_names table')

-- `bisect.bisect(vtables, offset)`, on vtables in the order of their addresses
unfoldable pub bisect : List Vtable → ℕ → ℕ
bisect [] offset = 0
bisect (v ∷ vs) offset = if leb v.begin_addr offset then suc (bisect vs offset) else 0

abbrev pub contains : ℕ → Vtable → Bool
contains offset v = leb v.begin_addr offset && ltb offset v.end_addr

-- `vtables[i]`, if it contains the offset
unfoldable pub if_contains : ℕ → ℕ → Option Vtable → Option (ℕ × Vtable)
if_contains offset i none = none
if_contains offset i (some v) = if contains offset v then some (i, v) else none

-- The vtable before the position that `bisect` found.
unfoldable pub before : List Vtable → ℕ → ℕ → Option (ℕ × Vtable)
before vtables offset zero = none
before vtables offset (suc i) = if_contains offset i (get_elem? vtables i)

-- `_LocateVtable`: the position of the vtable, and the vtable
unfoldable pub locate_vtable : List Vtable → ℕ → Option (ℕ × Vtable)
locate_vtable vtables offset = before vtables offset (bisect vtables offset)

unfoldable pub read_addend_in : ElfParser → ℕ → List Shdr → Result ℕ
read_addend_in p r_offset [] = raise vtable_error
read_addend_in p r_offset (sh ∷ rest) =
    let more = read_addend_in p r_offset rest in
    if leb sh.sh_addr r_offset && ltb r_offset (sh.sh_addr + sh.sh_size)
    then if sh.sh_type == sht_nobits then ok 0 else (do
      fields ← seek_read_struct p.file (r_offset - sh.sh_addr + sh.sh_offset) (addr p.class ∷ [])
      ok fields.0)
    else more

-- `_ReadRelocationAddend`
unfoldable pub read_relocation_addend : ElfParser → ℕ → Result ℕ
read_relocation_addend p r_offset = read_addend_in p r_offset p.shdr
