-- ===== src/Library/Elf/Relocations/RoundTrip.antt =====
-- utils/python/library/elf_parser.py: `_UnpackAndroidRela` reads back packed relocations.
use test_vts.Base.{
  ℕ, zero, suc, ◌+◌, ◌≤◌, ◌<◌, ◌≡◌, refl, ap, ◌∙◌, Bool, true, false, not, ◌&&◌, Bool-cases, inl,
  inr, List, [], ◌∷◌, arith, ltb, drop, length, length-append, length-drop, drop-drop,
  drop-length-append, if◌then◌else◌,
}
use test_vts.Base.Int.{ℤ, pos, ◌+ℤ◌, int_laws}
use test_vts.Library.Result.{Result, ok}
use test_vts.Library.Structs.{Rel}
use test_vts.Library.Structs.Layouts.{Class}
use test_vts.Library.Sleb128.RoundTrip.{encode, Fits, decode_sleb128-encode_at, length-encode}
use test_vts.Library.Elf.Relocations.{
  has_flag, popped, pop_word, word_unless, word_if, Group, Unpacking, unpack_entries, unpack_group,
  ltb_ℤ, groups_loop, unpack_data,
}
use test_vts.Library.Elf.Relocations.Packed.{
  Entry, PackedGroup, flags_of, entry_rels, first_addend, packed_rels, count, write_word, write_if,
  write_entries, write_group, write_groups, pack,
}

-- At `cur` the word `v` is read, and `rest` follows it.
abbrev Reads : List ℕ → Result (ℤ × ℕ) → ℤ → List ℕ → Type 0
Reads bytes r v rest = (cur : ℕ) × (r ≡ ok (v, cur)) × (drop cur bytes ≡ rest)

-- The relocations of a group are read, and `rest` follows it.
abbrev ReadsEntries : List ℕ → Result (List Rel × Unpacking) → List Rel × (ℤ × ℤ) → List ℕ → Type 0
ReadsEntries bytes r rels rest =
    (cur' : ℕ) × (r ≡ ok (rels.0, record { cur = cur'; offset = rels.1.0; addend = rels.1.1 }))
    × (drop cur' bytes ≡ rest)

-- What is read of a group before its entries.
abbrev group_of : PackedGroup → Group
group_of g = record {
  group_flags = pos (flags_of g);
  group_offset_delta = if g.by_delta then g.shared_delta else pos 0;
  group_info = if g.by_info then g.shared_info else pos 0;
}

abbrev ReadsGroup :
    List ℕ → Result (ℤ × (List Rel × Unpacking)) → ℕ → List Rel × (ℤ × ℤ) → List ℕ → Type 0
ReadsGroup bytes r size rels rest =
    (cur' : ℕ) × (r
      ≡ ok (pos size, (rels.0, record { cur = cur'; offset = rels.1.0; addend = rels.1.1 })))
    × (drop cur' bytes ≡ rest)

entry_rels-none :
    (c : Class) (g : PackedGroup) (es : List Entry) (offset addend : ℤ)
    → length es ≡ 0
    → (entry_rels c g es offset addend).0 ≡ []
entry_rels-none c g [] offset addend h = refl
entry_rels-none c g (e ∷ es) offset addend h = absurd (omega arith)

packed_rels-none :
    (c : Class) (gs : List PackedGroup) (offset addend : ℤ)
    → count gs ≡ 0
    → packed_rels c gs offset addend ≡ []
packed_rels-none c [] offset addend h = refl
packed_rels-none c (g ∷ gs) offset addend h =
    let none = entry_rels-none c g g.entries offset (first_addend g addend) (omega arith) in
    rw none (packed_rels-none c gs _ _ (omega arith))

if-if : (b : Bool) (x y z : ℤ) → (if b then (if b then x else y) else z) ≡ (if b then x else z)
if-if true x y z = refl
if-if false x y z = refl

flag_bits :
    (g : PackedGroup)
    → (has_flag 0 (pos (flags_of g)) ≡ g.by_info)
      × (has_flag 1 (pos (flags_of g)) ≡ g.by_delta)
      × (has_flag 2 (pos (flags_of g)) ≡ g.by_addend)
      × (has_flag 3 (pos (flags_of g)) ≡ g.has_addend)
unfolding has_flag
flag_bits g = ground arith

module _ (size : ℤ → ℕ) (fits : (v : ℤ) → Fits (size v) v) where
  pop_word-write_word :
      (bytes rest : List ℕ) (cur : ℕ) (v : ℤ)
      → drop cur bytes ≡ write_word size v rest
      → Reads bytes (pop_word bytes cur) v rest
  unfolding pop_word popped
  pop_word-write_word bytes rest cur v h =
      let word = encode (size v) v in
      let wide : length word ≡ suc (size v) = length-encode (size v) v in
      let inside : ltb cur (length bytes) ≡ true =
        ground (arith, length-drop cur bytes, ap length h, length-append word rest) in
      let after : drop (cur + length word) bytes ≡ rest =
        drop-drop cur (length word) bytes ∙ rw h (drop-length-append word rest) in
      let decoded = decode_sleb128-encode_at (size v) v bytes rest cur (fits v) h in
      (cur + suc (size v), rw (inside, decoded) refl, rw wide at after)

  word_if-write_if :
      (wanted : Bool) (v d : ℤ) (bytes rest : List ℕ) (cur : ℕ)
      → drop cur bytes ≡ write_if size wanted v rest
      → Reads bytes (word_if wanted d bytes cur) (if wanted then v else d) rest
  unfolding word_if
  word_if-write_if true v d bytes rest cur h = pop_word-write_word bytes rest cur v h
  word_if-write_if false v d bytes rest cur h = (cur, refl, h)

  word_unless-write_if :
      (grouped : Bool) (v d : ℤ) (bytes rest : List ℕ) (cur : ℕ)
      → drop cur bytes ≡ write_if size (not grouped) v rest
      → Reads bytes (word_unless grouped d bytes cur) (if grouped then d else v) rest
  unfolding word_unless
  word_unless-write_if false v d bytes rest cur h = pop_word-write_word bytes rest cur v h
  word_unless-write_if true v d bytes rest cur h = (cur, refl, h)

  unpack_entries-write_entries :
      (c : Class) (bytes rest : List ℕ) (g : PackedGroup) (es : List Entry) (st : Unpacking)
      → drop st.cur bytes ≡ write_entries size g es rest
      → ReadsEntries bytes
          (unpack_entries c bytes (group_of g) (length es) st)
          (entry_rels c g es st.offset st.addend)
          rest
  unfolding unpack_entries
  unpack_entries-write_entries c bytes rest g [] st h = (st.cur, refl, h)
  unpack_entries-write_entries c bytes rest g (e ∷ es) st h =
      let (b0, b1, b2, b3) = flag_bits g in
      let r = group_of g in
      let (cur₁, read₁, left₁) =
        word_unless-write_if g.by_delta e.entry_delta r.group_offset_delta bytes _ st.cur h in
      let (cur₂, read₂, left₂) =
        word_unless-write_if g.by_info e.entry_info r.group_info bytes _ cur₁ left₁ in
      let (cur₃, read₃, left₃) =
        word_if-write_if (g.has_addend && not g.by_addend) e.entry_addend (pos 0) bytes _ cur₂
          left₂ in
      let delta = if-if g.by_delta g.shared_delta (pos 0) e.entry_delta in
      let info = if-if g.by_info g.shared_info (pos 0) e.entry_info in
      let (cur₄, read₄, left₄) =
        unpack_entries-write_entries c bytes rest g es
          (record {
            cur = cur₃;
            offset = st.offset +ℤ (if g.by_delta then g.shared_delta else e.entry_delta);
            addend =
                st.addend +ℤ (if g.has_addend && not g.by_addend then e.entry_addend else pos 0);
          })
          left₃ in
      (cur₄, rw (b1, read₁, delta, b0, read₂, info, b3, b2, read₃, read₄) refl, left₄)

  unpack_group-write_group :
      (c : Class) (bytes rest : List ℕ) (g : PackedGroup) (st : Unpacking)
      → drop st.cur bytes ≡ write_group size g rest
      → ReadsGroup bytes
          (unpack_group c bytes st)
          (length g.entries)
          (entry_rels c g g.entries st.offset (first_addend g st.addend))
          rest
  unfolding unpack_group
  unpack_group-write_group c bytes rest g st h =
      let (b0, b1, b2, b3) = flag_bits g in
      let (cur₁, read₁, left₁) = pop_word-write_word bytes _ st.cur (pos (length g.entries)) h in
      let (cur₂, read₂, left₂) = pop_word-write_word bytes _ cur₁ (pos (flags_of g)) left₁ in
      let (cur₃, read₃, left₃) =
        word_if-write_if g.by_delta g.shared_delta (pos 0) bytes _ cur₂ left₂ in
      let (cur₄, read₄, left₄) =
        word_if-write_if g.by_info g.shared_info (pos 0) bytes _ cur₃ left₃ in
      let (cur₅, read₅, left₅) =
        word_if-write_if (g.has_addend && g.by_addend) g.shared_addend (pos 0) bytes _ cur₄ left₄ in
      let (cur₆, read₆, left₆) =
        unpack_entries-write_entries c bytes rest g g.entries
          (record { cur = cur₅; offset = st.offset; addend = first_addend g st.addend }) left₅ in
      (cur₆, rw (read₁, read₂, b1, read₃, b0, read₄, b3, b2, read₅, read₆) refl, left₆)

  length-write_word : (v : ℤ) (rest : List ℕ) → length rest < length (write_word size v rest)
  length-write_word v rest =
      omega (arith, length-append (encode (size v) v) rest, length-encode (size v) v)

  length-write_if :
      (b : Bool) (v : ℤ) (rest : List ℕ) → length rest ≤ length (write_if size b v rest)
  length-write_if true v rest = omega (arith, length-write_word v rest)
  length-write_if false v rest = omega arith

  length-write_entries :
      (g : PackedGroup) (es : List Entry) (rest : List ℕ)
      → length rest ≤ length (write_entries size g es rest)
  length-write_entries g [] rest = omega arith
  length-write_entries g (e ∷ es) rest = omega (
    arith,
    length-write_entries g es rest,
    length-write_if (g.has_addend && not g.by_addend) e.entry_addend (write_entries size g es rest),
    length-write_if (not g.by_info) e.entry_info _,
    length-write_if (not g.by_delta) e.entry_delta _,
  )

  length-write_group :
      (g : PackedGroup) (rest : List ℕ) → length rest < length (write_group size g rest)
  length-write_group g rest =
      let entries = write_entries size g g.entries rest in
      let addend = write_if size (g.has_addend && g.by_addend) g.shared_addend entries in
      let info = write_if size g.by_info g.shared_info addend in
      let delta = write_if size g.by_delta g.shared_delta info in
      let flags = write_word size (pos (flags_of g)) delta in
      let h₁ = length-write_entries g g.entries rest in
      let h₂ = length-write_if (g.has_addend && g.by_addend) g.shared_addend entries in
      let h₃ = length-write_if g.by_info g.shared_info addend in
      let h₄ = length-write_if g.by_delta g.shared_delta info in
      let h₅ = length-write_word (pos (flags_of g)) delta in
      let h₆ = length-write_word (pos (length g.entries)) flags in
      omega (arith, h₁, h₂, h₃, h₄, h₅, h₆)

  length-write_groups :
      (gs : List PackedGroup) (rest : List ℕ) → length gs ≤ length (write_groups size gs rest)
  length-write_groups [] rest = omega arith
  length-write_groups (g ∷ gs) rest =
      omega (arith, length-write_groups gs rest, length-write_group g (write_groups size gs rest))

  groups_loop-write_groups :
      (fuel : ℕ) (c : Class) (bytes rest : List ℕ) (gs : List PackedGroup) (total done : ℕ)
      (st : Unpacking)
      → length gs < fuel
      → total ≡ done + count gs
      → drop st.cur bytes ≡ write_groups size gs rest
      → groups_loop fuel c bytes (pos total) (pos done) st
        ≡ ok (packed_rels c gs st.offset st.addend)
  unfolding groups_loop ltb_ℤ
  groups_loop-write_groups zero c bytes rest gs total done st hf ht h = absurd (omega arith)
  groups_loop-write_groups (suc fuel) c bytes rest [] total done st hf ht h =
      let stop : ltb done total ≡ false = ground arith in rw (groups_loop, stop) refl
  groups_loop-write_groups (suc fuel) c bytes rest (g ∷ gs) total done st hf ht h =
      elim (Bool-cases (ltb done total)) [
        | inr stop ↦
            rw (groups_loop, stop, packed_rels-none c (g ∷ gs) st.offset st.addend (ground arith))
              refl
        | inl more ↦
            let (cur', read, left) = unpack_group-write_group c bytes _ g st h in
            let r = entry_rels c g g.entries st.offset (first_addend g st.addend) in
            let next : pos done +ℤ pos (length g.entries) ≡ pos (done + length g.entries) =
              omega int_laws in
            let ih =
              groups_loop-write_groups fuel c bytes rest gs total (done + length g.entries)
                (record { cur = cur'; offset = r.1.0; addend = r.1.1 }) (omega arith) (omega arith)
                left in
            rw (groups_loop, more, read, next, ih) refl
      ]

  -- _UnpackAndroidRela reads back every list of groups of relocations that a writer of the format
  -- packs, whichever of the words a group shares among its relocations, with however many
  -- seven-bit groups each integer is written, and whatever follows in the section.
  pub unpack_data-pack :
      (c : Class) (gs : List PackedGroup) (offset : ℤ) (rest : List ℕ)
      → unpack_data c (pack size gs offset rest) ≡ ok (packed_rels c gs offset (pos 0))
  unfolding unpack_data pack
  unpack_data-pack c gs offset rest =
      let bytes = pack size gs offset rest in
      let (cur₁, read₁, left₁) = pop_word-write_word bytes _ 4 (pos (count gs)) refl in
      let (cur₂, read₂, left₂) = pop_word-write_word bytes _ cur₁ offset left₁ in
      let long : ltb (length bytes) 4 ≡ false = ground arith in
      let fuel : length gs < suc (length bytes) =
        omega (arith, length-write_groups gs rest, length-drop cur₂ bytes, ap length left₂) in
      rw (long, read₁, read₂)
        (groups_loop-write_groups (suc (length bytes)) c bytes rest gs (count gs) 0
          (record { cur = cur₂; offset = offset; addend = pos 0 }) fuel (omega arith) left₂)
