-- ===== src/Library/Elf/Strings.antt =====
-- utils/python/library/elf_parser.py: `_SeekReadString` reads in pieces of 16 bytes what a search
-- for the null character through the rest of the file finds.
use test_vts.Base.{
  ℕ, zero, suc, ◌+◌, ◌<◌, ◌≡◌, refl, ap, sym, ◌∙◌, Bool-cases, Option-cases, false, none, some,
  List, [], ◌∷◌, ◌++◌, arith, ◌==◌, take, drop, length, length-drop, length-take, inl, inr,
  if◌then◌else◌,
}
use mathlib.Core.List.{append_assoc}
use test_vts.Base.Text.{Str}
use test_vts.Library.Result.{Result, ok, raise, elf_error}
use test_vts.Library.Elf.{
  File, seek, find_nul, buf_size, after_piece, read_string_loop, seek_read_string,
}

abbrev pub prepend : Str → Result Str → Result Str
prepend s (ok t) = ok (s ++ t)
prepend s (raise e) = raise e

-- The bytes before the first null character.
unfoldable pub until_nul : List ℕ → Result Str
until_nul [] = raise elf_error
until_nul (c ∷ l) = if c == 0 then ok [] else prepend (c ∷ []) (until_nul l)

prepend-append : (s t : Str) (r : Result Str) → prepend s (prepend t r) ≡ prepend (s ++ t) r
prepend-append s t (ok u) = ap ok (sym (append_assoc s t u))
prepend-append s t (raise e) = refl

prepend_nil : (r : Result Str) → prepend [] r ≡ r
prepend_nil (ok u) = refl
prepend_nil (raise e) = refl

found_in_piece :
    (n : ℕ) (l : List ℕ) (i : ℕ)
    → find_nul (take n l) ≡ some i
    → until_nul l ≡ ok (take i (take n l))
unfolding find_nul until_nul
found_in_piece zero l i h = cc
found_in_piece (suc n) [] i h = cc
found_in_piece (suc n) (c ∷ l) i h = elim (Option-cases (find_nul (take n l))) [
  | inl absent ↦ ground (arith, absent)
  | inr (j, found) ↦ ground (arith, found, found_in_piece n l j found)
]

none_in_piece :
    (n : ℕ) (l : List ℕ)
    → find_nul (take n l) ≡ none
    → until_nul l ≡ prepend (take n l) (until_nul (drop n l))
unfolding find_nul until_nul
none_in_piece zero l h = sym (prepend_nil (until_nul l))
none_in_piece (suc n) [] h = refl
none_in_piece (suc n) (c ∷ l) h = elim (Option-cases (find_nul (take n l))) [
  | inl absent ↦ ground (
    arith,
    absent,
    none_in_piece n l absent,
    prepend-append (c ∷ []) (take n l) (until_nul (drop n l)),
  )
  | inr (j, found) ↦ ground (arith, found)
]

short_piece : (n : ℕ) (l : List ℕ) → (length (take n l) == n) ≡ false → drop n l ≡ []
short_piece zero l h = cc
short_piece (suc n) [] h = refl
short_piece (suc n) (c ∷ l) h = short_piece n l (ground arith)

read_string_loop-until_nul :
    (fuel : ℕ) (l : List ℕ) (ret : Str)
    → length l < fuel
    → read_string_loop fuel l ret ≡ prepend ret (until_nul l)
unfolding read_string_loop after_piece
read_string_loop-until_nul zero l ret h = absurd (omega arith)
read_string_loop-until_nul (suc fuel) l ret h =
    let rest = drop buf_size l in
    elim (Option-cases (find_nul (take buf_size l))) [
      | inr (i, found) ↦ rw (found, found_in_piece buf_size l i found) refl
      | inl absent ↦
          let whole = none_in_piece buf_size l absent in
          elim (Bool-cases (length (take buf_size l) == buf_size)) [
            | inr short ↦
                rw (absent, short, whole, short_piece buf_size l short) (unfold until_nul in refl)
            | inl full ↦
                rw
                  (
                    absent,
                    full,
                    whole,
                    read_string_loop-until_nul fuel rest (ret ++ take buf_size l)
                        (ground (arith, length-drop buf_size l, length-take buf_size l)),
                    prepend-append ret (take buf_size l) (until_nul rest),
                  )
                  refl
          ]
    ]

-- _SeekReadString returns the bytes from the offset up to the first null character of the file, and
-- raises ElfError if there is none, wherever the null character stands in the pieces of 16 bytes and
-- also where the file ends with a full piece.
pub seek_read_string-until_nul :
    (f : File) (offset : ℕ) → seek_read_string f offset ≡ until_nul (seek f offset)
unfolding seek_read_string
seek_read_string-until_nul f offset =
    read_string_loop-until_nul _ _ []
      (omega (arith, length-drop (f.begin_offset + offset) f.contents))
    ∙ prepend_nil (until_nul (seek f offset))
