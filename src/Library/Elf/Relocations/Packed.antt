-- ===== src/Library/Elf/Relocations/Packed.antt =====
-- utils/python/library/elf_parser.py: a writer of packed relocations, against which
-- `_UnpackAndroidRela` is proved. The writer puts every word of the section before `rest`.
use test_vts.Base.{
  ℕ, ◌+◌, ◌*◌, Bool, true, false, not, ◌&&◌, List, [], ◌∷◌, ◌++◌, length, if◌then◌else◌,
}
use test_vts.Base.Int.{ℤ, pos, ◌+ℤ◌}
use test_vts.Base.Text.{codes}
use test_vts.Library.Structs.{Rel}
use test_vts.Library.Structs.Layouts.{Class}
use test_vts.Library.Sleb128.RoundTrip.{encode}
use test_vts.Library.Elf.Relocations.{create_elf_rela}

-- The words of one relocation; those that the group gives for all its relocations are not written.
pub record Entry : Type 0 where
  pub entry_delta : ℤ
  pub entry_info : ℤ
  pub entry_addend : ℤ

pub record PackedGroup : Type 0 where
  pub by_info : Bool
  pub by_delta : Bool
  pub by_addend : Bool
  pub has_addend : Bool
  pub shared_delta : ℤ
  pub shared_info : ℤ
  pub shared_addend : ℤ
  pub entries : List Entry

abbrev pub bit : Bool → ℕ
bit true = 1
bit false = 0

abbrev pub flags_of : PackedGroup → ℕ
flags_of g = bit g.by_info + 2 * bit g.by_delta + 4 * bit g.by_addend + 8 * bit g.has_addend

-- What the relocations of a group are, from an offset and an addend on, with the offset and the
-- addend after them.
abbrev pub entry_rels : Class → PackedGroup → List Entry → ℤ → ℤ → List Rel × (ℤ × ℤ)
entry_rels c g [] offset addend = ([], (offset, addend))
entry_rels c g (e ∷ es) offset addend =
    let offset' = offset +ℤ (if g.by_delta then g.shared_delta else e.entry_delta) in
    let info = if g.by_info then g.shared_info else e.entry_info in
    let addend' = addend +ℤ (if g.has_addend && not g.by_addend then e.entry_addend else pos 0) in
    let rest = entry_rels c g es offset' addend' in
    (create_elf_rela c offset' info addend' ∷ rest.0, rest.1)

abbrev pub first_addend : PackedGroup → ℤ → ℤ
first_addend g addend =
    if g.has_addend
    then addend +ℤ (if g.has_addend && g.by_addend then g.shared_addend else pos 0)
    else pos 0

abbrev pub packed_rels : Class → List PackedGroup → ℤ → ℤ → List Rel
packed_rels c [] offset addend = []
packed_rels c (g ∷ gs) offset addend =
    let r = entry_rels c g g.entries offset (first_addend g addend) in
    r.0 ++ packed_rels c gs (r.1.0) (r.1.1)

abbrev pub count : List PackedGroup → ℕ
count [] = 0
count (g ∷ gs) = length g.entries + count gs

-- `size v` seven-bit groups and a last one are written for the integer `v`.
module _ (size : ℤ → ℕ) where
  abbrev pub write_word : ℤ → List ℕ → List ℕ
  write_word v rest = encode (size v) v ++ rest

  abbrev pub write_if : Bool → ℤ → List ℕ → List ℕ
  write_if true v rest = write_word v rest
  write_if false v rest = rest

  abbrev pub write_entries : PackedGroup → List Entry → List ℕ → List ℕ
  write_entries g [] rest = rest
  write_entries g (e ∷ es) rest = write_if (not g.by_delta) e.entry_delta (
      write_if (not g.by_info) e.entry_info
        (write_if (g.has_addend && not g.by_addend) e.entry_addend (write_entries g es rest)))

  abbrev pub write_group : PackedGroup → List ℕ → List ℕ
  write_group g rest = write_word (pos (length g.entries)) (
      write_word (pos (flags_of g)) (
        write_if g.by_delta g.shared_delta (
          write_if g.by_info g.shared_info (
            write_if (g.has_addend && g.by_addend) g.shared_addend
              (write_entries g g.entries rest)))))

  abbrev pub write_groups : List PackedGroup → List ℕ → List ℕ
  write_groups [] rest = rest
  write_groups (g ∷ gs) rest = write_group g (write_groups gs rest)

  unfoldable pub pack : List PackedGroup → ℤ → List ℕ → List ℕ
  pack gs offset rest =
      codes "APS2" ++ write_word (pos (count gs)) (write_word offset (write_groups gs rest))
