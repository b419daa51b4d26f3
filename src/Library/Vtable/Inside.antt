-- ===== src/Library/Vtable/Inside.antt =====
-- utils/python/library/vtable/vtable_dumper.py: what holds of the vtables that `DumpVtables` returns.
use test_vts.Base.{
  ℕ, zero, suc, ◌+◌, ◌-◌, ◌≤◌, ◌<◌, ◌≡◌, refl, Bool, true, Bool-cases, inl, inr, not, ◌&&◌, Option,
  none, some, List, [], ◌∷◌, ◌++◌, arith, get_elem?, All,
}
use test_vts.Base.Int.{ℤ}
use test_vts.Base.Text.{Str, starts_with, codes}
use test_vts.Library.Result.{ok}
use test_vts.Library.Returns.{
  Returns, Returns-ok, Returns-if, Returns-then, Returns-bind, of_Returns,
}
use test_vts.Library.Structs.{Shdr, Sym, Rel}
use test_vts.Library.Consts.{symtab_name, dynsym_name}
use test_vts.Library.Elf.{ElfParser}
use test_vts.Library.Elf.Sections.{get_string, section_at, get_section_by_name}
use test_vts.Library.Elf.Symbols.{get_symbol}
use test_vts.Library.Elf.Relocations.{get_relocations}
use test_vts.Library.Vtable.{
  VtableEntry, Vtable, InvTable, sort, has_name, add_vtable, prepare_symbols, prepare_section,
  prepare_vtables, bisect, contains, if_contains, before, rel_types, function_symbol_inverse_table,
  locate_vtable,
}
use test_vts.Library.Vtable.Order.{
  All-get_elem?, All-set, All-sort, Ordered, sort-Ordered, set-Ordered,
}
use test_vts.Library.Vtable.Dump.{
  add_entry, absolute_entry, relative_entry, addend_of, add_relocation, add_located,
  scan_relocation, scan_relocations, scan_sections, sort_entries, dump_vtables,
}

abbrev begin : Vtable → ℕ
begin v = v.begin_addr

abbrev pub Inside : Vtable → VtableEntry → Type 0
Inside v e = v.begin_addr + e.offset < v.end_addr

abbrev AllInside : Vtable → Type 0
AllInside v = All (Inside v) v.entries

abbrev Valid : List Vtable → Type 0
Valid vtables = All AllInside vtables × Ordered begin vtables

All-append {ℓ κ} :
    {A : Type ℓ} (P : A → Type κ) (l : List A) (a : A) → All P l → P a → All P (l ++ a ∷ [])
All-append P [] a h p = (p, tt)
All-append P (x ∷ l) a h p = (h.0, All-append P l a h.1 p)

add_vtable-AllInside :
    (sym : Sym) (n : Str) (vs : List Vtable)
    → All AllInside vs
    → All AllInside (add_vtable sym n vs)
unfolding add_vtable
add_vtable-AllInside sym n vs h =
    elim (Bool-cases (starts_with (codes "_ZTV") n && not (has_name n vs))) [
      | inl new ↦ rw new (All-append AllInside vs _ h tt)
      | inr old ↦ rw old h
    ]

prepare_symbols-AllInside :
    (p : ElfParser) (symtab strtab : Shdr) (n idx : ℕ) (vs : List Vtable)
    → All AllInside vs
    → Returns (All AllInside) (prepare_symbols p symtab strtab n idx vs)
unfolding prepare_symbols
prepare_symbols-AllInside p symtab strtab zero idx vs h = record { holds = h }
prepare_symbols-AllInside p symtab strtab (suc n) idx vs h =
    let P = All AllInside in
    let skipped = prepare_symbols-AllInside p symtab strtab n (suc idx) vs h in
    Returns-then P (get_symbol p symtab idx) _ (λ sym. Returns-if P _ _ _ skipped (
      Returns-then P (get_string p strtab sym.st_name) _ (λ name.
        prepare_symbols-AllInside p symtab strtab n (suc idx) (add_vtable sym name vs)
          (add_vtable-AllInside sym name vs h))))

prepare_section-AllInside :
    (p : ElfParser) (symtab? : Option Shdr) (vs : List Vtable)
    → All AllInside vs
    → Returns (All AllInside) (prepare_section p symtab? vs)
unfolding prepare_section
prepare_section-AllInside p none vs h = record { holds = h }
prepare_section-AllInside p (some symtab) vs h =
    let next = λ (strtab : Shdr) (num : ℕ). prepare_symbols-AllInside p symtab strtab num 0 vs h in
    search (Returns-then, next) depth 20

prepare_vtables-Valid : (p : ElfParser) → Returns Valid (prepare_vtables p)
unfolding prepare_vtables
prepare_vtables-Valid p =
    let sorted = λ (vs : List Vtable) (h : All AllInside vs).
      Returns-ok Valid (sort begin vs) (All-sort AllInside begin vs h, sort-Ordered begin vs) in
    let second = λ (vs : List Vtable) (h : All AllInside vs) (dynsym? : Option Shdr).
      Returns-bind Valid (All AllInside) _ _ (prepare_section-AllInside p dynsym? vs h) sorted in
    let first = λ (symtab? : Option Shdr).
      Returns-bind Valid (All AllInside) _ _ (prepare_section-AllInside p symtab? [] tt)
        (λ vs h. Returns-then Valid (get_section_by_name p dynsym_name) _ (second vs h)) in
    Returns-then Valid (get_section_by_name p symtab_name) _ first

-- What `_LocateVtable` returns is one of the vtables, and contains the offset.
abbrev pub Located : List Vtable → ℕ → Option (ℕ × Vtable) → Type 0
Located vs offset none = Unit
Located vs offset (some (i, v)) = (get_elem? vs i ≡ some v) × (contains offset v ≡ true)

if_contains-Located :
    (vs : List Vtable) (offset i : ℕ) (o : Option Vtable)
    → get_elem? vs i ≡ o
    → Located vs offset (if_contains offset i o)
unfolding if_contains
if_contains-Located vs offset i none h = tt
if_contains-Located vs offset i (some v) h = elim (Bool-cases (contains offset v)) [
  | inl inside ↦ rw inside (h, inside)
  | inr outside ↦ rw outside tt
]

before-Located : (vs : List Vtable) (offset n : ℕ) → Located vs offset (before vs offset n)
unfolding before
before-Located vs offset zero = tt
before-Located vs offset (suc i) = if_contains-Located vs offset i (get_elem? vs i) refl

pub locate_vtable-Located :
    (vs : List Vtable) (offset : ℕ) → Located vs offset (locate_vtable vs offset)
unfolding locate_vtable
locate_vtable-Located vs offset = before-Located vs offset (bisect vs offset)

add_entry-Valid :
    (i r_offset : ℕ) (entry : VtableEntry) (v : Vtable) (vs : List Vtable)
    → entry.offset ≡ r_offset - v.begin_addr
    → get_elem? vs i ≡ some v
    → contains r_offset v ≡ true
    → Valid vs
    → Valid (add_entry i entry v vs)
unfolding add_entry
add_entry-Valid i r_offset entry v vs ho hi hc (inside, ordered) =
    let v' = record v { entries = v.entries ++ entry ∷ [] } in
    let here : Inside v entry = ground (arith, ho) in
    let old : AllInside v = All-get_elem? AllInside vs i v inside hi in
    let new : AllInside v' = All-append (Inside v) v.entries entry old here in
    (All-set AllInside vs i v' inside new, set-Ordered begin vs i v v' hi refl ordered)

absolute_entry-offset :
    (p : ElfParser) (symtab strtab : Shdr) (t : InvTable) (reloc : Rel) (offset : ℕ) (addend : ℤ)
    → Returns
        (λ (e : VtableEntry). e.offset ≡ offset)
        (absolute_entry p symtab strtab t reloc offset addend)
unfolding absolute_entry
absolute_entry-offset p symtab strtab t reloc offset addend =
    let made = λ (names : List Str) (value : ℤ) (u : Bool).
      Returns-ok (λ (e : VtableEntry). e.offset ≡ offset)
        (record { offset = offset; names = names; value = value; is_undefined = u }) refl in
    search (Returns-then, made) depth 20

add_relocation-Valid :
    (p : ElfParser) (symtab strtab : Shdr) (t : InvTable) (is_rela is_absolute : Bool) (reloc : Rel)
    (i : ℕ) (v : Vtable) (vs : List Vtable)
    → get_elem? vs i ≡ some v
    → contains reloc.r_offset v ≡ true
    → Valid vs
    → Returns Valid (add_relocation p symtab strtab t is_rela is_absolute reloc i v vs)
unfolding add_relocation relative_entry
add_relocation-Valid p symtab strtab t is_rela is_absolute reloc i v vs hi hc h =
    let offset = reloc.r_offset - v.begin_addr in
    let Q = λ (e : VtableEntry). e.offset ≡ offset in
    Returns-then Valid (addend_of p is_rela reloc) _ (λ addend.
      Returns-bind Valid Q _ _
        (Returns-if Q is_absolute _ _ (absolute_entry-offset p symtab strtab t reloc offset addend)
          (Returns-ok Q _ refl))
        (λ entry same.
          Returns-ok Valid _ (add_entry-Valid i reloc.r_offset entry v vs same hi hc h)))

add_located-Valid :
    (p : ElfParser) (symtab strtab : Shdr) (t : InvTable) (is_rela is_absolute : Bool) (reloc : Rel)
    (o : Option (ℕ × Vtable)) (vs : List Vtable)
    → Located vs reloc.r_offset o
    → Valid vs
    → Returns Valid (add_located p symtab strtab t is_rela is_absolute reloc o vs)
unfolding add_located
add_located-Valid p symtab strtab t is_rela is_absolute reloc none vs l h = Returns-ok Valid vs h
add_located-Valid p symtab strtab t is_rela is_absolute reloc (some (i, v)) vs (hi, hc) h =
    add_relocation-Valid p symtab strtab t is_rela is_absolute reloc i v vs hi hc h

scan_relocation-Valid :
    (p : ElfParser) (symtab strtab : Shdr) (t : InvTable) (is_rela is_relr : Bool) (types : ℕ × ℕ)
    (reloc : Rel) (vs : List Vtable)
    → Valid vs
    → Returns Valid (scan_relocation p symtab strtab t is_rela is_relr types reloc vs)
unfolding scan_relocation
scan_relocation-Valid p symtab strtab t is_rela is_relr (a, r) reloc vs h =
    Returns-if Valid _ _ _ (Returns-ok Valid vs h) (
      add_located-Valid p symtab strtab t is_rela _ reloc _ vs
        (locate_vtable-Located vs reloc.r_offset) h)

scan_relocations-Valid :
    (p : ElfParser) (symtab strtab : Shdr) (t : InvTable) (is_rela is_relr : Bool) (types : ℕ × ℕ)
    (relocs : List Rel) (vs : List Vtable)
    → Valid vs
    → Returns Valid (scan_relocations p symtab strtab t is_rela is_relr types relocs vs)
unfolding scan_relocations
scan_relocations-Valid p symtab strtab t is_rela is_relr types [] vs h = Returns-ok Valid vs h
scan_relocations-Valid p symtab strtab t is_rela is_relr types (reloc ∷ relocs) vs h =
    Returns-bind Valid Valid _ _
      (scan_relocation-Valid p symtab strtab t is_rela is_relr types reloc vs h)
      (λ vs' h'. scan_relocations-Valid p symtab strtab t is_rela is_relr types relocs vs' h')

scan_sections-Valid :
    (p : ElfParser) (t : InvTable) (types : ℕ × ℕ) (shs : List Shdr) (vs : List Vtable)
    → Valid vs
    → Returns Valid (scan_sections p t types shs vs)
unfolding scan_sections
scan_sections-Valid p t types [] vs h = Returns-ok Valid vs h
scan_sections-Valid p t types (sh ∷ shs) vs h =
    Returns-if Valid _ _ _
      (Returns-then Valid (section_at p sh.sh_link) _ (λ symtab.
        Returns-then Valid (section_at p symtab.sh_link) _ (λ strtab.
          Returns-then Valid (get_relocations p sh) _ (λ relocs.
            Returns-bind Valid Valid _ _
              (scan_relocations-Valid p symtab strtab t _ _ types relocs vs h)
              (λ vs' h'. scan_sections-Valid p t types shs vs' h')))))
      (scan_sections-Valid p t types shs vs h)

-- A dumped vtable has its entries inside its bounds and in the order of their offsets.
abbrev pub IsDumped : Vtable → Type 0
IsDumped v = All (Inside v) v.entries × Ordered (λ (e : VtableEntry). e.offset) v.entries

begin_le :
    (n : ℕ) (vs : List Vtable)
    → All (λ v. n ≤ begin v) vs
    → All (λ v. n ≤ begin v) (sort_entries vs)
unfolding sort_entries
begin_le n [] h = tt
begin_le n (v ∷ vs) h = (h.0, begin_le n vs h.1)

sort_entries-IsDumped :
    (vs : List Vtable) → Valid vs → All IsDumped (sort_entries vs) × Ordered begin (sort_entries vs)
unfolding sort_entries
sort_entries-IsDumped [] h = (tt, tt)
sort_entries-IsDumped (v ∷ vs) ((here, more), (low, ordered)) =
    let (dumped, ordered') = sort_entries-IsDumped vs (more, ordered) in
    let key = λ (e : VtableEntry). e.offset in
    (
      ((All-sort (Inside v) key v.entries here, sort-Ordered key v.entries), dumped),
      (begin_le v.begin_addr vs low, ordered'),
    )

-- Whatever relocations a file has, every vtable that DumpVtables returns has only entries that lie
-- inside its bounds, in the order of their offsets, and the vtables are in the order of their
-- addresses, which the search of _LocateVtable relies on.
pub dump_vtables-IsDumped :
    (p : ElfParser) (vs : List Vtable)
    → dump_vtables p ≡ ok vs
    → All IsDumped vs × Ordered (λ (v : Vtable). v.begin_addr) vs
unfolding dump_vtables
dump_vtables-IsDumped p vs h =
    let P = λ (l : List Vtable). All IsDumped l × Ordered begin l in
    of_Returns P (dump_vtables p) vs
      (Returns-then P (rel_types p.ehdr.e_machine) _ (λ types.
        Returns-bind P Valid _ _ (prepare_vtables-Valid p) (λ vs₁ h₁.
          Returns-then P (function_symbol_inverse_table p) _ (λ t.
            Returns-bind P Valid _ _ (scan_sections-Valid p t types p.shdr vs₁ h₁)
              (λ vs₂ h₂. Returns-ok P _ (sort_entries-IsDumped vs₂ h₂))))))
      h
