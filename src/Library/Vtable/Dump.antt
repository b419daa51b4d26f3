-- ===== src/Library/Vtable/Dump.antt =====
-- utils/python/library/vtable/vtable_dumper.py: `DumpVtables`.
use test_vts.Base.{
  ℕ, ◌-◌, Bool, false, not, ◌&&◌, ◌||◌, Option, none, some, List, [], ◌∷◌, ◌++◌, ◌==◌, elem, nat_eq,
  set, if◌then◌else◌,
}
use test_vts.Base.Int.{ℤ, pos, negsuc, ◌+ℤ◌}
use test_vts.Base.Text.{Str}
use test_vts.Library.Result.{Result, ok, raise, ◌>>=◌, attribute_error}
use test_vts.Library.Consts.{
  shn_undef, sht_rel, sht_rela, sht_relr, sht_android_rel, sht_android_rela, sht_android_relr,
}
use test_vts.Library.Structs.{Shdr, Rel}
use test_vts.Library.Structs.Layouts.{get_rel_type}
use test_vts.Library.Elf.{ElfParser}
use test_vts.Library.Elf.Sections.{section_at, get_string}
use test_vts.Library.Elf.Symbols.{get_relocation_symbol}
use test_vts.Library.Elf.Relocations.{get_relocations}
use test_vts.Library.Vtable.{
  VtableEntry, Vtable, InvTable, sort, rel_types, prepare_vtables, function_symbol_inverse_table,
  locate_vtable, read_relocation_addend,
}

-- `_RelocationSections`
unfoldable pub is_relocation_section : Shdr → Bool
is_relocation_section sh =
    elem sh.sh_type
      (sht_rel ∷ sht_rela ∷ sht_relr ∷ sht_android_rel ∷ sht_android_rela ∷ sht_android_relr ∷ [])

-- `inv_table[reloc_value]`, or the default
unfoldable pub names_at : InvTable → ℤ → List Str → List Str
names_at [] v default = default
names_at ((a, ns) ∷ t) (pos n) default = if a == n then ns else names_at t (pos n) default
names_at ((a, ns) ∷ t) (negsuc n) default = default

unfoldable pub in_table : InvTable → ℤ → Bool
in_table [] v = false
in_table ((a, ns) ∷ t) (pos n) = a == n || in_table t (pos n)
in_table ((a, ns) ∷ t) (negsuc n) = false

-- `vtable.entries.append(…)`
unfoldable pub add_entry : ℕ → VtableEntry → Vtable → List Vtable → List Vtable
add_entry i entry v vtables = set vtables i (record v { entries = v.entries ++ entry ∷ [] })

-- `reloc.r_addend`, or the addend that is stored at the location
unfoldable pub explicit_addend : Option ℤ → Result ℤ
explicit_addend none = raise attribute_error
explicit_addend (some addend) = ok addend

unfoldable pub addend_of : ElfParser → Bool → Rel → Result ℤ
addend_of p is_rela reloc =
    let implicit = (do addend ← read_relocation_addend p reloc.r_offset; ok (pos addend)) in
    if is_rela then explicit_addend reloc.r_addend else implicit

-- The entry of an absolute relocation, and of a relative one; `offset` is that in the vtable.
unfoldable pub absolute_entry :
    ElfParser → Shdr → Shdr → InvTable → Rel → ℕ → ℤ → Result VtableEntry
absolute_entry p symtab strtab inv_table reloc offset addend = do
  sym ← get_relocation_symbol p symtab reloc
  let value = pos sym.st_value +ℤ addend
  names ←
      (let by_symbol = (do sym_name ← get_string p strtab sym.st_name; ok (sym_name ∷ [])) in
        if in_table inv_table value then ok (names_at inv_table value []) else by_symbol)
  ok (record {
    offset = offset;
    names = names;
    value = value;
    is_undefined = sym.st_shndx == shn_undef;
  })

unfoldable pub relative_entry : InvTable → ℕ → ℤ → VtableEntry
relative_entry inv_table offset addend = record {
  offset = offset;
  names = names_at inv_table addend [];
  value = addend;
  is_undefined = false;
}

-- One relocation that lies in the vtable `v` at position `i`.
unfoldable pub add_relocation :
    ElfParser
    → Shdr
    → Shdr
    → InvTable
    → Bool
    → Bool
    → Rel
    → ℕ
    → Vtable
    → List Vtable
    → Result (List Vtable)
add_relocation p symtab strtab inv_table is_rela is_absolute reloc i v vtables = do
  addend ← addend_of p is_rela reloc
  let offset = reloc.r_offset - v.begin_addr
  entry ←
      (let absolute = absolute_entry p symtab strtab inv_table reloc offset addend in
        if is_absolute then absolute else ok (relative_entry inv_table offset addend))
  ok (add_entry i entry v vtables)

unfoldable pub add_located :
    ElfParser
    → Shdr
    → Shdr
    → InvTable
    → Bool
    → Bool
    → Rel
    → Option (ℕ × Vtable)
    → List Vtable
    → Result (List Vtable)
add_located p symtab strtab inv_table is_rela is_absolute reloc none vtables = ok vtables
add_located p symtab strtab inv_table is_rela is_absolute reloc (some (i, v)) vtables =
    add_relocation p symtab strtab inv_table is_rela is_absolute reloc i v vtables

unfoldable pub scan_relocation :
    ElfParser
    → Shdr
    → Shdr
    → InvTable
    → Bool
    → Bool
    → ℕ × ℕ
    → Rel
    → List Vtable
    → Result (List Vtable)
scan_relocation p symtab strtab inv_table is_rela is_relr (abs_type, relative_type) reloc vtables =
    let is_absolute = not is_relr && get_rel_type p.class reloc == abs_type in
    let is_relative = is_relr || get_rel_type p.class reloc == relative_type in
    if not is_absolute && not is_relative
    then ok vtables
    else add_located p symtab strtab inv_table is_rela is_absolute reloc
        (locate_vtable vtables reloc.r_offset) vtables

unfoldable pub scan_relocations :
    ElfParser
    → Shdr
    → Shdr
    → InvTable
    → Bool
    → Bool
    → ℕ × ℕ
    → List Rel
    → List Vtable
    → Result (List Vtable)
scan_relocations p symtab strtab inv_table is_rela is_relr types [] vtables = ok vtables
scan_relocations p symtab strtab inv_table is_rela is_relr types (reloc ∷ relocs) vtables = do
  vtables' ← scan_relocation p symtab strtab inv_table is_rela is_relr types reloc vtables
  scan_relocations p symtab strtab inv_table is_rela is_relr types relocs vtables'

-- The loop over the relocation sections.
unfoldable pub scan_sections :
    ElfParser → InvTable → ℕ × ℕ → List Shdr → List Vtable → Result (List Vtable)
scan_sections p inv_table types [] vtables = ok vtables
scan_sections p inv_table types (sh ∷ rest) vtables =
    let skipped = scan_sections p inv_table types rest vtables in
    if is_relocation_section sh
    then (do
      symtab ← section_at p sh.sh_link
      strtab ← section_at p symtab.sh_link
      relocs ← get_relocations p sh
      vtables' ←
          scan_relocations p symtab strtab inv_table
            (sh.sh_type == sht_rela || sh.sh_type == sht_android_rela)
            (sh.sh_type == sht_relr || sh.sh_type == sht_android_relr) types relocs vtables
      scan_sections p inv_table types rest vtables')
    else skipped

unfoldable pub sort_entries : List Vtable → List Vtable
sort_entries [] = []
sort_entries (v ∷ vs) =
    record v { entries = sort (λ (e : VtableEntry). e.offset) v.entries } ∷ sort_entries vs

-- `DumpVtables`
unfoldable pub dump_vtables : ElfParser → Result (List Vtable)
dump_vtables p = do
  types ← rel_types p.ehdr.e_machine
  vtables ← prepare_vtables p
  inv_table ← function_symbol_inverse_table p
  vtables' ← scan_sections p inv_table types p.shdr vtables
  ok (sort_entries vtables')
