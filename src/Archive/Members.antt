-- ===== src/Archive/Members.antt =====
-- utils/python/archive/archive_parser.py: what `Parse` makes of the members of an archive.
use mathlib.Core.Path.{subst}
use test_vts.Base.{
  ℕ, zero, suc, ◌+◌, ◌-◌, ◌<◌, ◌≤◌, ◌≡◌, refl, ap, ◌∙◌, Bool, true, false, List, [], ◌∷◌, ◌++◌,
  arith, ltb, if◌then◌else◌, take, drop, length, length-append, length-drop, drop-drop,
  drop-length-append, take-length-append, All,
}
use test_vts.Base.Int.{pos, ◌+ℤ◌, int_laws}
use test_vts.Base.Text.{Str, str_eq, starts_with, ends_with, str_eq_instance}
use test_vts.Common.ListUtils.Text.{strip}
use test_vts.Library.Result.{Error, Result, ok, raise, ◌>>=◌}
use test_vts.Library.Ar.{int}
use test_vts.Archive.{
  Archive, string_table_id, sym_table_id, file_id_terminator, global_sig, end_tag, init, from_front,
  slice, is_past, is_before, read_bytes, store_file, named_at, store_content, check_tag, read_file,
  parse_loop, check_sig, parse,
}

-- The fields of a header, of 16, 12, 6, 6, 8 and 10 bytes, and the content.
pub record Member : Type 0 where
  pub name : Str
  pub timestamp : Str
  pub owner : Str
  pub group : Str
  pub mode : Str
  pub size : Str
  pub content : Str

-- The size field says how long the content is, as `int` reads it.
pub record IsMember (m : Member) : Type 0 where
  pub name_length : length m.name ≡ 16
  pub timestamp_length : length m.timestamp ≡ 12
  pub owner_length : length m.owner ≡ 6
  pub group_length : length m.group ≡ 6
  pub mode_length : length m.mode ≡ 8
  pub size_length : length m.size ≡ 10
  pub reads : int m.size ≡ ok (pos (length m.content))

-- Members follow one another without a byte in between.
abbrev pub write_members : List Member → Str
write_members [] = []
write_members (m ∷ ms) =
    m.name
    ++ (m.timestamp
        ++ (m.owner
            ++ (m.group ++ (m.mode ++ (m.size ++ (end_tag ++ (m.content ++ write_members ms)))))))

abbrev pub moved : ℕ → Archive → Archive
moved n a = record a { cursor = a.cursor +ℤ pos n }

-- The members are filed one after the other, by their stripped names, and passed over.
abbrev pub file_all : List Member → Archive → Result Archive
file_all [] a = ok a
file_all (m ∷ ms) a = do
  a' ← store_content (strip m.name) m.content (moved (60 + length m.content) a)
  file_all ms a'

-- What is left to read.
record Left (a : Archive) (rest : Str) : Type 0 where
  at : ℕ
  here : a.cursor ≡ pos at
  inside : at ≤ length a.content
  left : drop at a.content ≡ rest

slice_pos :
    (c xs rest : Str) (at : ℕ)
    → at ≤ length c
    → drop at c ≡ xs ++ rest
    → (at + length xs ≤ length c)
      × (is_past (pos at +ℤ pos (length xs)) (length c) ≡ false)
      × (slice (pos at) (pos at +ℤ pos (length xs)) c ≡ xs)
      × (drop (at + length xs) c ≡ rest)
unfolding slice is_past from_front
slice_pos c xs rest at hl h =
    let n = length xs in
    let sum : pos at +ℤ pos n ≡ pos (at + n) = omega int_laws in
    let fits : at + n ≤ length c =
      omega (arith, length-drop at c, ap (λ l. length l) h, length-append xs rest) in
    let size : at + n - at ≡ n = omega arith in
    (
      fits,
      ap (λ j. is_past j (length c)) sum ∙ ground (arith, fits),
      ap (λ j. slice (pos at) j c) sum
          ∙ ap (λ k. take k (drop at c)) size
          ∙ ap (λ l. take n l) h
          ∙ take-length-append xs rest,
      drop-drop at n c ∙ ap (λ l. drop n l) h ∙ drop-length-append xs rest,
    )

read_bytes-length :
    (a : Archive) (xs rest : Str)
    → Left a (xs ++ rest)
    → (read_bytes (pos (length xs)) a ≡ ok (xs, moved (length xs) a))
      × Left (moved (length xs) a) rest
unfolding read_bytes
read_bytes-length a xs rest l =
    let n = length xs in
    let here = slice_pos a.content xs rest l.at l.inside l.left in
    let fits : is_past (a.cursor +ℤ pos n) (length a.content) ≡ false =
      ap (λ j. is_past (j +ℤ pos n) (length a.content)) l.here ∙ here.1 in
    let read : slice a.cursor (a.cursor +ℤ pos n) a.content ≡ xs =
      ap (λ j. slice j (j +ℤ pos n) a.content) l.here ∙ here.2 in
    (
      rw fits (ap (λ s. ok (s, moved n a)) read),
      record {
        at = l.at + n;
        here = ap (λ j. j +ℤ pos n) l.here ∙ omega int_laws;
        inside = here.0;
        left = here.3;
      },
    )

read_bytes-Left :
    (a : Archive) (n : ℕ) (xs rest : Str)
    → length xs ≡ n
    → Left a (xs ++ rest)
    → (read_bytes (pos n) a ≡ ok (xs, moved n a)) × Left (moved n a) rest
read_bytes-Left a n xs rest h l =
    subst (λ k. (read_bytes (pos k) a ≡ ok (xs, moved k a)) × Left (moved k a) rest) h
      (read_bytes-length a xs rest l)

-- The header and the content of a member, in one step.
read_file-member :
    (m : Member) (ms : List Member) (a : Archive)
    → IsMember m
    → Left a (write_members (m ∷ ms))
    → (read_file a ≡ store_content (strip m.name) m.content (moved (60 + length m.content) a))
      × Left (moved (60 + length m.content) a) (write_members ms)
unfolding read_file check_tag
read_file-member m ms a h l =
    let r₁ = read_bytes-Left a 16 m.name _ h.name_length l in
    let r₂ = read_bytes-Left (moved 16 a) 12 m.timestamp _ h.timestamp_length r₁.1 in
    let a₂ = moved 12 (moved 16 a) in
    let r₃ = read_bytes-Left a₂ 6 m.owner _ h.owner_length r₂.1 in
    let a₃ = moved 6 a₂ in
    let r₄ = read_bytes-Left a₃ 6 m.group _ h.group_length r₃.1 in
    let a₄ = moved 6 a₃ in
    let r₅ = read_bytes-Left a₄ 8 m.mode _ h.mode_length r₄.1 in
    let a₅ = moved 8 a₄ in
    let r₆ = read_bytes-Left a₅ 10 m.size _ h.size_length r₅.1 in
    let a₆ = moved 10 a₅ in
    let r₇ = read_bytes-Left a₆ 2 end_tag _ refl r₆.1 in
    let a₇ = moved 2 a₆ in
    let r₈ = read_bytes-Left a₇ (length m.content) m.content _ refl r₇.1 in
    let all : moved (length m.content) a₇ ≡ moved (60 + length m.content) a =
      ap (λ j. record a { cursor = j }) (omega int_laws) in
    (
      rw (r₁.0, r₂.0, r₃.0, r₄.0, r₅.0, r₆.0, h.reads, r₇.0, r₈.0)
          (ap (λ b. store_content (strip m.name) m.content b) all),
      subst (λ b. Left b (write_members ms)) all r₈.1,
    )

-- What a step that returns leaves to read.
data Leaves (rest : Str) : Result Archive → Type 0 where
  returns : (a : Archive) → Left a rest → Leaves rest (ok a)
  raises : (e : Error) → Leaves rest (raise e)

if-Leaves :
    (rest : Str) (b : Bool) (x y : Result Archive)
    → Leaves rest x
    → Leaves rest y
    → Leaves rest (if b then x else y)
if-Leaves rest true x y hx hy = hx
if-Leaves rest false x y hx hy = hy

bind-Leaves :
    {A : Type 0} (rest : Str) (r : Result A) (f : A → Result Archive)
    → ((x : A) → Leaves rest (f x))
    → Leaves rest (r >>= f)
bind-Leaves rest (ok x) f h = h x
bind-Leaves rest (raise e) f h = raises e

-- The dictionaries have no part in it.
kept-Left :
    (a : Archive) (rest : Str)
    → Left a rest
    → (files : List (Str × Str)) (table : List (ℕ × Str))
    → Left (record a { files = files; string_table = table }) rest
kept-Left a rest l files table = record {
  at = l.at;
  here = l.here;
  inside = l.inside;
  left = l.left;
}

store_content-Leaves :
    (name content : Str) (a : Archive) (rest : Str)
    → Left a rest
    → Leaves rest (store_content name content a)
unfolding store_content store_file
store_content-Leaves name content a rest l =
    if-Leaves rest (str_eq name string_table_id) _ _ (returns _ (kept-Left a rest l a.files _)) (
      if-Leaves rest (str_eq name sym_table_id) _ _ (returns _ l) (
        if-Leaves rest (ends_with file_id_terminator name) _ _
          (returns _ (kept-Left a rest l _ a.string_table))
          (if-Leaves rest (starts_with file_id_terminator name) _ _
            (bind-Leaves rest (int (drop 1 name)) _ (λ offset.
              bind-Leaves rest (named_at offset a.string_table) _
                (λ name'. returns _ (kept-Left a rest l _ a.string_table))))
            (returns _ (kept-Left a rest l _ a.string_table)))))

is_before-Left :
    (a : Archive) (rest : Str)
    → Left a rest
    → is_before a.cursor (length a.content) ≡ ltb 0 (length rest)
unfolding is_before
is_before-Left a rest l =
    ap (λ j. is_before j (length a.content)) l.here
    ∙ ground (arith, length-drop l.at a.content, ap (λ s. length s) l.left, l.inside)

not_empty : (name rest : Str) → length name ≡ 16 → ltb 0 (length (name ++ rest)) ≡ true
not_empty name rest h = ground (arith, h, length-append name rest)

-- The loop goes on after a member if it has been filed.
parse_loop-member :
    (ms : List Member) (fuel : ℕ) (r : Result Archive)
    → Leaves (write_members ms) r
    → ((a : Archive) → Left a (write_members ms) → parse_loop fuel a ≡ file_all ms a)
    → (r >>= parse_loop fuel) ≡ (r >>= file_all ms)
parse_loop-member ms fuel _ (returns a l) ih = ih a l
parse_loop-member ms fuel _ (raises e) ih = refl

parse_loop-write_members :
    (ms : List Member) (fuel : ℕ) (a : Archive)
    → All IsMember ms
    → length ms < fuel
    → Left a (write_members ms)
    → parse_loop fuel a ≡ file_all ms a
unfolding parse_loop
parse_loop-write_members ms zero a hm hf l = absurd (omega arith)
parse_loop-write_members [] (suc fuel) a hm hf l = rw (parse_loop, is_before-Left a [] l) refl
parse_loop-write_members (m ∷ ms) (suc fuel) a (hm, hms) hf l =
    let rest = write_members (m ∷ ms) in
    let more : ltb 0 (length rest) ≡ true = not_empty m.name _ hm.name_length in
    let read = read_file-member m ms a hm l in
    rw (parse_loop, is_before-Left a rest l, more, read.0)
      (parse_loop-member ms fuel _
        (store_content-Leaves (strip m.name) m.content (moved (60 + length m.content) a) _ read.1)
        (λ b left. parse_loop-write_members ms fuel b hms (omega arith) left))

-- Parse files the members of an archive one after the other: for every list of members whose size
-- fields say how long their contents are and that follow one another without padding, it returns
-- what `store_content` makes of them in turn, or the first ValueError of these. One round more than
-- there are members is enough.
pub parse-write_members :
    (ms : List Member) (fuel : ℕ)
    → All IsMember ms
    → length ms < fuel
    → let ar = global_sig ++ write_members ms in
      parse fuel (init ar) ≡ file_all ms (moved 8 (init ar))
unfolding parse check_sig init
parse-write_members ms fuel hm hf =
    let ar = global_sig ++ write_members ms in
    let whole : Left (init ar) ar = record {
      at = 0;
      here = refl;
      inside = omega arith;
      left = refl;
    } in
    let sig = read_bytes-Left (init ar) 8 global_sig (write_members ms) refl whole in
    rw (parse, sig.0) (parse_loop-write_members ms fuel (moved 8 (init ar)) hm hf sig.1)
