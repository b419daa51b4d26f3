-- ===== src/Library/Elf/Relocations.antt =====
-- utils/python/library/elf_parser.py: relocation tables, plain, RELR and packed (APS2). A generator
-- is the list of what it yields, if all of it is read.
pub mod Ends
pub mod Packed
pub mod RoundTrip
pub mod Relr
use test_vts.Base.{
  ℕ, zero, suc, ◌+◌, ◌-◌, ◌*◌, ◌/◌, ◌%◌, ◌^◌, Bool, true, false, not, ◌&&◌, ◌||◌, none, some, List,
  [], ◌∷◌, ◌++◌, ◌==◌, ltb, take, length, if◌then◌else◌,
}
use test_vts.Base.Int.{ℤ, pos, negsuc, ◌+ℤ◌}
use test_vts.Base.Text.{str_eq, codes}
use test_vts.Library.Result.{
  Result, ok, raise, ◌>>=◌, elf_error, index_error, value_error, out_of_fuel,
}
use test_vts.Library.Consts.{
  sht_rela, sht_relr, sht_android_rel, sht_android_rela, sht_android_relr, grouped_by_info_bit,
  grouped_by_offset_delta_bit, grouped_by_addend_bit, has_addend_bit,
}
use test_vts.Library.Structs.{Shdr, Rel}
use test_vts.Library.Structs.Fields.{signed, wrap}
use test_vts.Library.Structs.Layouts.{
  Class, class32, class64, bitness, rel_fields, rel_of, rela_fields, rela_of,
}
use test_vts.Library.Sleb128.{decode_sleb128}
use test_vts.Library.Elf.{ElfParser, seek_read, seek_read_int, seek_read_struct}
use test_vts.Library.Elf.Sections.{entries}

-- `_CreateElfRel`; the fields are unsigned and cut what does not fit.
unfoldable pub create_elf_rel : Class → ℕ → ℕ → Rel
create_elf_rel c offset info = record {
  r_offset = offset % 2 ^ bitness c;
  r_info = info % 2 ^ bitness c;
  r_addend = none;
}

abbrev pub addr_size : Class → ℕ
addr_size class32 = 4
addr_size class64 = 8

-- `range(begin, end, step)` for a positive step, its number of elements
abbrev pub range_length : ℕ → ℕ → ℕ
range_length size step = (size + step - 1) / step

-- The loop over a bitmap, from `bit_idx` on for `n` bits.
unfoldable pub bitmap_loop : Class → ℕ → ℕ → ℕ → ℕ → List Rel × ℕ
bitmap_loop c relr_entry zero bit_idx rel_offset = ([], rel_offset)
bitmap_loop c relr_entry (suc n) bit_idx rel_offset =
    let rest = bitmap_loop c relr_entry n (suc bit_idx) (rel_offset + addr_size c) in
    if relr_entry / 2 ^ bit_idx % 2 == 1
    then (create_elf_rel c rel_offset 0 ∷ rest.0, rest.1)
    else rest

-- One entry: the relocations that it stands for, and `rel_offset` after it.
unfoldable pub relr_entry_rels : Class → ℕ → ℕ → ℕ → List Rel × ℕ
relr_entry_rels c entsize relr_entry rel_offset =
    if relr_entry % 2 == 0
    then (create_elf_rel c relr_entry 0 ∷ [], relr_entry + addr_size c)
    else bitmap_loop c relr_entry (entsize * 8 - 1) 1 rel_offset

unfoldable pub relr_loop : ElfParser → ℕ → ℕ → ℕ → ℕ → Result (List Rel)
relr_loop p entsize zero ent_offset rel_offset = ok []
relr_loop p entsize (suc n) ent_offset rel_offset = do
  relr_entry ← seek_read_int (addr_size p.class) p.file ent_offset
  let (rels, rel_offset') = relr_entry_rels p.class entsize relr_entry rel_offset
  rest ← relr_loop p entsize n (ent_offset + entsize) rel_offset'
  ok (rels ++ rest)

-- `_DecodeAndroidRelr`; `range` refuses the step 0.
unfoldable pub decode_android_relr : ElfParser → Shdr → Result (List Rel)
decode_android_relr p rel =
    if rel.sh_entsize == 0
    then raise value_error
    else relr_loop p rel.sh_entsize (range_length rel.sh_size rel.sh_entsize) rel.sh_offset 0

-- `GetRelocation`
unfoldable pub get_relocation : ElfParser → Shdr → ℕ → Result Rel
get_relocation p rel idx =
    let off = rel.sh_offset + idx * rel.sh_entsize in
    if rel.sh_type == sht_rela
    then (do
      fields ← seek_read_struct p.file off (rela_fields p.class)
      ok (rela_of p.class fields))
    else (do fields ← seek_read_struct p.file off (rel_fields p.class); ok (rel_of p.class fields))

unfoldable pub relocations_from : ElfParser → Shdr → ℕ → ℕ → Result (List Rel)
relocations_from p rel zero idx = ok []
relocations_from p rel (suc n) idx = do
  r ← get_relocation p rel idx
  rest ← relocations_from p rel n (suc idx)
  ok (r ∷ rest)

-- The position after a word that was decoded at `cur`; an IndexError becomes an ElfError.
unfoldable pub popped : ℕ → Result (ℤ × ℕ) → Result (ℤ × ℕ)
popped cur (ok (value, num)) = ok (value, cur + num)
popped cur (raise index_error) = raise elf_error
popped cur (raise e) = raise e

-- `_PopWord` at the position `cur`, with the position after the word.
unfoldable pub pop_word : List ℕ → ℕ → Result (ℤ × ℕ)
pop_word bytes cur =
    if ltb cur (length bytes) then popped cur (decode_sleb128 bytes cur) else raise elf_error

-- `flags & (1 << bit)` of an integer in two's complement, as a test.
unfoldable pub has_flag : ℕ → ℤ → Bool
has_flag bit (pos n) = n / 2 ^ bit % 2 == 1
has_flag bit (negsuc n) = n / 2 ^ bit % 2 == 0

-- The variables of `_UnpackAndroidRela` that live on from one group to the next.
pub record Unpacking : Type 0 where
  pub cur : ℕ
  pub offset : ℤ
  pub addend : ℤ

-- The word that is read unless the group has one for all its entries.
unfoldable pub word_unless : Bool → ℤ → List ℕ → ℕ → Result (ℤ × ℕ)
word_unless grouped value bytes cur = if grouped then ok (value, cur) else pop_word bytes cur

unfoldable pub word_if : Bool → ℤ → List ℕ → ℕ → Result (ℤ × ℕ)
word_if wanted value bytes cur = if wanted then pop_word bytes cur else ok (value, cur)

-- What is read of a group before its entries. Where the entries have an `info` of their own, that of
-- the group is never used.
pub record Group : Type 0 where
  pub group_flags : ℤ
  pub group_offset_delta : ℤ
  pub group_info : ℤ

unfoldable pub create_elf_rela : Class → ℤ → ℤ → ℤ → Rel
create_elf_rela c offset info addend = record {
  r_offset = wrap (bitness c) offset;
  r_info = wrap (bitness c) info;
  r_addend = some (signed (bitness c) (wrap (bitness c) addend));
}

-- The loop over the entries of a group.
unfoldable pub unpack_entries :
    Class → List ℕ → Group → ℕ → Unpacking → Result (List Rel × Unpacking)
unpack_entries c bytes g zero st = ok ([], st)
unpack_entries c bytes g (suc n) st = do
  (delta, cur₁) ←
      word_unless (has_flag grouped_by_offset_delta_bit g.group_flags) g.group_offset_delta bytes
        st.cur
  (info, cur₂) ← word_unless (has_flag grouped_by_info_bit g.group_flags) g.group_info bytes cur₁
  (addend_delta, cur₃) ←
      word_if
        (has_flag has_addend_bit g.group_flags
          && not (has_flag grouped_by_addend_bit g.group_flags))
        (pos 0) bytes cur₂
  let st' : Unpacking = record {
    cur = cur₃;
    offset = st.offset +ℤ delta;
    addend = st.addend +ℤ addend_delta;
  }
  (rels, st'') ← unpack_entries c bytes g n st'
  ok (create_elf_rela c st'.offset info st'.addend ∷ rels, st'')

-- `range(n)` has no element for a negative `n`.
abbrev pub range_size : ℤ → ℕ
range_size (pos n) = n
range_size (negsuc n) = 0

-- One group: its size, its relocations and the variables after it.
unfoldable pub unpack_group : Class → List ℕ → Unpacking → Result (ℤ × (List Rel × Unpacking))
unpack_group c bytes st = do
  (group_size, cur₁) ← pop_word bytes st.cur
  (flags, cur₂) ← pop_word bytes cur₁
  (delta, cur₃) ← word_if (has_flag grouped_by_offset_delta_bit flags) (pos 0) bytes cur₂
  (info, cur₄) ← word_if (has_flag grouped_by_info_bit flags) (pos 0) bytes cur₃
  (addend_delta, cur₅) ←
      word_if (has_flag has_addend_bit flags && has_flag grouped_by_addend_bit flags) (pos 0) bytes
        cur₄
  let addend = if has_flag has_addend_bit flags then st.addend +ℤ addend_delta else pos 0
  (rels, st') ←
      unpack_entries c bytes
        (record { group_flags = flags; group_offset_delta = delta; group_info = info })
        (range_size group_size) (record { cur = cur₅; offset = st.offset; addend = addend })
  ok (group_size, (rels, st'))

unfoldable pub ltb_ℤ : ℤ → ℤ → Bool
ltb_ℤ (pos a) (pos b) = ltb a b
ltb_ℤ (pos a) (negsuc b) = false
ltb_ℤ (negsuc a) (pos b) = true
ltb_ℤ (negsuc a) (negsuc b) = ltb b a

unfoldable pub groups_loop : ℕ → Class → List ℕ → ℤ → ℤ → Unpacking → Result (List Rel)
groups_loop zero c bytes total_count current_count st = raise out_of_fuel
groups_loop (suc fuel) c bytes total_count current_count st =
    elim (ltb_ℤ current_count total_count) [
      | false ↦ ok []
      | true ↦ do
        (group_size, (rels, st')) ← unpack_group c bytes st
        rest ← groups_loop fuel c bytes total_count (current_count +ℤ group_size) st'
        ok (rels ++ rest)
    ]

-- `_UnpackAndroidRela`, of the bytes of the section. A group takes two bytes at least.
unfoldable pub unpack_data : Class → List ℕ → Result (List Rel)
unpack_data c bytes =
    if ltb (length bytes) 4 || not (str_eq (take 4 bytes) (codes "APS2"))
    then raise elf_error
    else (do
      (total_count, cur₁) ← pop_word bytes 4
      (offset, cur₂) ← pop_word bytes cur₁
      groups_loop (suc (length bytes)) c bytes total_count (pos 0)
          (record { cur = cur₂; offset = offset; addend = pos 0 }))

unfoldable pub unpack_android_rela : ElfParser → Shdr → Result (List Rel)
unpack_android_rela p android_rela = do
  bytes ← seek_read p.file android_rela.sh_offset android_rela.sh_size
  unpack_data p.class bytes

-- `self.Elf_Rel(r_offset=rela.r_offset, r_info=rela.r_info)`
unfoldable pub without_addend : List Rel → List Rel
without_addend [] = []
without_addend (rela ∷ relas) = record rela { r_addend = none } ∷ without_addend relas

-- `GetRelocations`
unfoldable pub get_relocations : ElfParser → Shdr → Result (List Rel)
get_relocations p rel =
    if rel.sh_type == sht_android_rel || rel.sh_type == sht_android_rela
    then (do
      relocations ← unpack_android_rela p rel
      if rel.sh_type == sht_android_rel then ok (without_addend relocations) else ok relocations)
    else if rel.sh_type == sht_relr || rel.sh_type == sht_android_relr
    then decode_android_relr p rel
    else (do num ← entries rel; relocations_from p rel num 0)
