-- ===== src/Library/Ar/Endless.antt =====
-- utils/python/library/ar_parser.py: a header with a negative size leads `_IterateArchive` back to
-- itself.
use test_vts.Base.{
  ℕ, zero, suc, ◌+◌, ◌%◌, ◌≡◌, refl, ap, true, List, arith, ◌==◌, take, drop, length,
}
use test_vts.Base.Int.{pos, negsuc, ◌+ℤ◌, int_laws}
use test_vts.Library.Result.{ok, raise, out_of_fuel}
use test_vts.Library.Ar.{rstrip_space, int, next_header, iterate_from}

back : (at : ℕ) → at % 2 ≡ 0 → next_header (pos (at + 60) +ℤ negsuc 59) ≡ ok at
unfolding next_header
back at he =
    let sum : pos (at + 60) +ℤ negsuc 59 ≡ pos at = omega int_laws in rw sum (ap ok (omega arith))

-- The loop of _IterateArchive never ends once it is at a complete header whose size field reads -60,
-- since it seeks to the same header again: however many rounds it is given, they are used up.
pub iterate_from-endless :
    (fuel : ℕ) (ar : List ℕ) (at : ℕ)
    → at % 2 ≡ 0
    → length (take 60 (drop at ar)) ≡ 60
    → int (rstrip_space (take 10 (drop 48 (take 60 (drop at ar))))) ≡ ok (negsuc 59)
    → iterate_from fuel ar at ≡ raise out_of_fuel
unfolding iterate_from
iterate_from-endless zero ar at he hl hs = refl
iterate_from-endless (suc fuel) ar at he hl hs =
    let full : (length (take 60 (drop at ar)) == 60) ≡ true = ground arith in
    rw (iterate_from, full, hs, back at he, iterate_from-endless fuel ar at he hl hs) refl
