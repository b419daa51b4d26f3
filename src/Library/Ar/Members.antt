-- ===== src/Library/Ar/Members.antt =====
-- utils/python/library/ar_parser.py: `_IterateArchive` finds the members that a writer of archives
-- puts one after the other.
use test_vts.Base.{
  ℕ, zero, suc, ◌+◌, ◌%◌, ◌<◌, ◌≡◌, refl, ap, sym, ◌∙◌, true, Bool-cases, inl, inr, map, List, [],
  ◌∷◌, ◌++◌, arith, ◌==◌, elem, take, drop, length, length-append, drop-drop, drop-length-append,
  take-length-append, All, if◌then◌else◌,
}
use mathlib.Core.List.{append_assoc}
use test_vts.Base.Int.{pos, ◌+ℤ◌, int_laws}
use test_vts.Base.Text.{Str, str_eq_instance, codes}
use test_vts.Library.Result.{ok}
use test_vts.Library.Ar.{
  rstrip_space, int, special_names, next_header, yielded, iterate_from, iterate_archive,
}

-- The fields of a header, of 16, 32, 10 and 2 bytes, and the content.
pub record Member : Type 0 where
  pub name : Str
  pub middle : Str
  pub size : Str
  pub magic : Str
  pub content : List ℕ

abbrev pub header : Member → List ℕ
header m = m.name ++ (m.middle ++ (m.size ++ m.magic))

-- The size field says how long the content is, as `int` reads it.
pub record IsMember (m : Member) : Type 0 where
  pub name_length : length m.name ≡ 16
  pub middle_length : length m.middle ≡ 32
  pub size_length : length m.size ≡ 10
  pub magic_length : length m.magic ≡ 2
  pub reads : int (rstrip_space m.size) ≡ ok (pos (length m.content))

-- A member of an odd length is followed by one more byte.
abbrev pub padding : Member → List ℕ
padding m = if length m.content % 2 == 0 then [] else 10 ∷ []

abbrev pub write_members : List Member → List ℕ
write_members [] = []
write_members (m ∷ ms) = header m ++ (m.content ++ (padding m ++ write_members ms))

-- Where the contents stand that are no string tables, and the contents.
abbrev pub objects : ℕ → List Member → List (ℕ × List ℕ)
objects at [] = []
objects at (m ∷ ms) =
    let rest = objects (at + 60 + length m.content + length (padding m)) ms in
    if elem (rstrip_space m.name) special_names then rest else (at + 60, m.content) ∷ rest

length-header : (m : Member) → IsMember m → length (header m) ≡ 60
length-header m h = omega (
  arith,
  length-append m.name (m.middle ++ (m.size ++ m.magic)),
  length-append m.middle (m.size ++ m.magic),
  length-append m.size m.magic,
  h.name_length,
  h.middle_length,
  h.size_length,
  h.magic_length,
)

take_n : (n : ℕ) (xs ys : List ℕ) → length xs ≡ n → take n (xs ++ ys) ≡ xs
take_n n xs ys h = ap (λ (k : ℕ). take k (xs ++ ys)) (sym h) ∙ take-length-append xs ys

drop_n : (n : ℕ) (xs ys : List ℕ) → length xs ≡ n → drop n (xs ++ ys) ≡ ys
drop_n n xs ys h = ap (λ (k : ℕ). drop k (xs ++ ys)) (sym h) ∙ drop-length-append xs ys

size_field : (m : Member) → IsMember m → take 10 (drop 48 (header m)) ≡ m.size
size_field m h =
    let front : length (m.name ++ m.middle) ≡ 48 =
      omega (arith, length-append m.name m.middle, h.name_length, h.middle_length) in
    ap (λ l. take 10 (drop 48 l)) (sym (append_assoc m.name m.middle (m.size ++ m.magic)))
    ∙ ap (λ l. take 10 l) (drop_n 48 (m.name ++ m.middle) (m.size ++ m.magic) front)
    ∙ take_n 10 m.size m.magic h.size_length

padded :
    (m : Member) (at : ℕ)
    → at % 2 ≡ 0
    → at + 60 + length m.content + (at + 60 + length m.content) % 2
      ≡ at + 60 + length m.content + length (padding m)
padded m at h = ground arith

even_next :
    (m : Member) (at : ℕ) → at % 2 ≡ 0 → (at + 60 + length m.content + length (padding m)) % 2 ≡ 0
even_next m at h = ground arith

after_member :
    (ar rest : List ℕ) (at : ℕ) (m : Member)
    → IsMember m
    → drop at ar ≡ header m ++ (m.content ++ (padding m ++ rest))
    → drop (at + 60) ar ≡ m.content ++ (padding m ++ rest)
after_member ar rest at m h e =
    drop-drop at 60 ar ∙ ap (λ l. drop 60 l) e ∙ drop_n 60 (header m) _ (length-header m h)

after_padding :
    (ar rest : List ℕ) (at : ℕ) (m : Member)
    → drop (at + 60) ar ≡ m.content ++ (padding m ++ rest)
    → drop (at + 60 + length m.content + length (padding m)) ar ≡ rest
after_padding ar rest at m e =
    drop-drop (at + 60 + length m.content) (length (padding m)) ar
    ∙ ap (λ l. drop (length (padding m)) l)
        (drop-drop (at + 60) (length m.content) ar
          ∙ ap (λ l. drop (length m.content) l) e
          ∙ drop-length-append m.content (padding m ++ rest))
    ∙ drop-length-append (padding m) rest

next_header-padding :
    (m : Member) (at : ℕ)
    → at % 2 ≡ 0
    → next_header (pos (at + 60) +ℤ pos (length m.content))
      ≡ ok (at + 60 + length m.content + length (padding m))
unfolding next_header
next_header-padding m at he =
    let sum : pos (at + 60) +ℤ pos (length m.content) ≡ pos (at + 60 + length m.content) =
      omega int_laws in
    rw sum (ap ok (padded m at he))

yielded-objects :
    (obj_name : Str) (offset : ℕ) (content : List ℕ) (rest : List (ℕ × List ℕ))
    → ok (yielded obj_name offset ++ map (λ (o : ℕ × List ℕ). o.0) rest)
      ≡ ok (
          map
            (λ (o : ℕ × List ℕ). o.0)
            (if elem obj_name special_names then rest else (offset, content) ∷ rest))
unfolding yielded
yielded-objects obj_name offset content rest = elim (Bool-cases (elem obj_name special_names)) [
  | inl special ↦ rw special refl
  | inr plain ↦ rw plain refl
]

iterate_from-write_members :
    (ms : List Member) (fuel : ℕ) (ar : List ℕ) (at : ℕ)
    → All IsMember ms
    → length ms < fuel
    → at % 2 ≡ 0
    → drop at ar ≡ write_members ms
    → iterate_from fuel ar at ≡ ok (map (λ (o : ℕ × List ℕ). o.0) (objects at ms))
unfolding iterate_from
iterate_from-write_members ms zero ar at hm hf he h = absurd (omega arith)
iterate_from-write_members [] (suc fuel) ar at hm hf he h = rw (iterate_from, h) refl
iterate_from-write_members (m ∷ ms) (suc fuel) ar at (hm, hms) hf he h =
    let rest = write_members ms in
    let body = after_member ar rest at m hm h in
    let head : take 60 (drop at ar) ≡ header m =
      ap (λ l. take 60 l) h ∙ take_n 60 (header m) _ (length-header m hm) in
    let full : (length (header m) == 60) ≡ true = ground (arith, length-header m hm) in
    let obj_name : take 16 (header m) ≡ m.name = take_n 16 m.name _ hm.name_length in
    let next = at + 60 + length m.content + length (padding m) in
    let goes_on : next_header (pos (at + 60) +ℤ pos (length m.content)) ≡ ok next =
      next_header-padding m at he in
    let ih =
      iterate_from-write_members ms fuel ar next hms (omega arith) (even_next m at he)
        (after_padding ar rest at m body) in
    rw (iterate_from, head, full, head, size_field m hm, hm.reads, goes_on, obj_name, ih)
      (yielded-objects (rstrip_space m.name) (at + 60) m.content (objects next ms))

-- What is said to stand at an offset stands there.
abbrev pub Stands : List ℕ → ℕ × List ℕ → Type 0
Stands ar (offset, content) = take (length content) (drop offset ar) ≡ content

objects-Stands :
    (ms : List Member) (ar : List ℕ) (at : ℕ)
    → All IsMember ms
    → drop at ar ≡ write_members ms
    → All (Stands ar) (objects at ms)
objects-Stands [] ar at hm h = tt
objects-Stands (m ∷ ms) ar at (hm, hms) h =
    let rest = write_members ms in
    let body = after_member ar rest at m hm h in
    let here : Stands ar (at + 60, m.content) =
      ap (λ l. take (length m.content) l) body ∙ take-length-append m.content (padding m ++ rest) in
    let more =
      objects-Stands ms ar (at + 60 + length m.content + length (padding m)) hms
        (after_padding ar rest at m body) in
    elim (Bool-cases (elem (rstrip_space m.name) special_names)) [
      | inl special ↦ rw special more
      | inr plain ↦ rw plain (here, more)
    ]

-- _IterateArchive yields exactly the offsets of the members of an archive that are no string tables,
-- in their order, and at each of these offsets the content of the member stands: for every list of
-- members whose size fields say how long their contents are, of odd and of even lengths. One round
-- more than there are members is enough.
pub iterate_archive-write_members :
    (ms : List Member) (fuel : ℕ)
    → All IsMember ms
    → length ms < fuel
    → let ar = codes "!<arch>" ++ 10 ∷ write_members ms in
      (iterate_archive fuel ar ≡ ok (map (λ (o : ℕ × List ℕ). o.0) (objects 8 ms)))
      × All (Stands ar) (objects 8 ms)
unfolding iterate_archive
iterate_archive-write_members ms fuel hm hf =
    let ar = codes "!<arch>" ++ 10 ∷ write_members ms in
    (iterate_from-write_members ms fuel ar 8 hm hf refl refl, objects-Stands ms ar 8 hm refl)
