-- ===== src/Coverage/Report/Vector.antt =====
-- What the coverage vector of utils/python/coverage/coverage_report.py holds.
use test_vts.Base.{
  ap, ℕ, zero, suc, ◌-◌, ◌≡◌, ◌≢◌, refl, ◌∙◌, true, List, [], ◌∷◌, ◌++◌, Option, none, some, arith,
  ◌==◌, ltb, length, length-append, get_or, set, All, if◌then◌else◌,
}
use test_vts.Base.Arrays.{get_or-set}
use test_vts.Base.Int.{ℤ, pos, ◌+ℤ◌}
use test_vts.Coverage.Summary.{Block}
use test_vts.Coverage.Report.{
  not_code, is_negative, extend_by, add_line, add_block_lines, add_blocks,
}

length-extend_by : (n : ℕ) → length (extend_by n) ≡ n
unfolding extend_by
length-extend_by zero = refl
length-extend_by (suc n) = ap suc (length-extend_by n)

get_or-extend_by :
    (counts : List ℤ) (n i : ℕ)
    → get_or (counts ++ extend_by n) i not_code ≡ get_or counts i not_code
unfolding extend_by
get_or-extend_by [] zero i = refl
get_or-extend_by [] (suc n) zero = refl
get_or-extend_by [] (suc n) (suc i) = get_or-extend_by [] n i
get_or-extend_by (x ∷ counts) n zero = refl
get_or-extend_by (x ∷ counts) n (suc i) = get_or-extend_by counts n i

-- The entry of a line in a vector that was computed without an error.
abbrev pub entry_of : ℕ → Option (List ℤ) → Option ℤ
entry_of i none = none
entry_of i (some v) = some (get_or v i not_code)

-- A count that becomes one of a line: the line is code from then on.
abbrev pub counted : ℤ → ℤ → ℤ
counted old count = (if is_negative old then pos 0 else old) +ℤ count

-- What the lines of a list make of the count of one line.
abbrev pub count_line : ℤ → ℕ → List ℕ → ℤ → ℤ
count_line count i [] old = old
count_line count i (line ∷ lines) old =
    count_line count i lines (if line == suc i then counted old count else old)

abbrev pub count_blocks : ℕ → List Block → ℤ → ℤ
count_blocks i [] old = old
count_blocks i (b ∷ bs) old = count_blocks i bs (count_line b.count i b.lines old)

add_line-get_or :
    (count : ℤ) (n i : ℕ) (counts : List ℤ)
    → (v : List ℤ) × (add_line count (suc n) counts ≡ some v)
      × (get_or v i not_code ≡ (
          if suc n == suc i
          then counted (get_or counts i not_code) count
          else get_or counts i not_code))
unfolding add_line
add_line-get_or count n i counts =
    let k = suc n - length counts in
    let longer = counts ++ extend_by k in
    let old = get_or longer n not_code in
    let v = set longer n (counted old count) in
    let size = length-append counts (extend_by k) in
    let inside : ltb n (length longer) ≡ true = ground (arith, size, length-extend_by k) in
    (
      v,
      rw inside refl,
      ground (
        arith,
        get_or-set longer n i (counted old count) not_code,
        get_or-extend_by counts k n,
        get_or-extend_by counts k i,
      ),
    )

-- The line numbers of a block that was read are not 0.
abbrev pub HasLines : Block → Type 0
HasLines b = All (λ line. line ≢ 0) b.lines

add_block_lines-get_or :
    (count : ℤ) (i : ℕ) (lines : List ℕ) (counts : List ℤ)
    → All (λ line. line ≢ 0) lines
    → (v : List ℤ) × (add_block_lines count lines counts ≡ some v)
      × (get_or v i not_code ≡ count_line count i lines (get_or counts i not_code))
unfolding add_block_lines
add_block_lines-get_or count i [] counts h = (counts, refl, refl)
add_block_lines-get_or count i (zero ∷ lines) counts h = absurd (h.0 refl)
add_block_lines-get_or count i (suc n ∷ lines) counts h =
    let (v, e, at) = add_line-get_or count n i counts in
    let (w, e', at') = add_block_lines-get_or count i lines v h.1 in
    (w, rw e e', at' ∙ ap (count_line count i lines) at)

add_blocks-at :
    (i : ℕ) (bs : List Block) (counts : List ℤ)
    → All HasLines bs
    → (v : List ℤ) × (add_blocks bs counts ≡ some v)
      × (get_or v i not_code ≡ count_blocks i bs (get_or counts i not_code))
unfolding add_blocks
add_blocks-at i [] counts h = (counts, refl, refl)
add_blocks-at i (b ∷ bs) counts h =
    let (v, e, at) = add_block_lines-get_or b.count i b.lines counts h.0 in
    let (w, e', at') = add_blocks-at i bs v h.1 in (w, rw e e', at' ∙ ap (count_blocks i bs) at)

-- The blocks of a function, whose line numbers are not 0, add their counts to the vector of their
-- file without an error, and the entry of each line is the one before with the counts of the blocks
-- that the line stands in: what was no code counts from 0, and a line in no block keeps its entry.
pub add_blocks-get_or :
    (i : ℕ) (bs : List Block) (counts : List ℤ)
    → All HasLines bs
    → entry_of i (add_blocks bs counts) ≡ some (count_blocks i bs (get_or counts i not_code))
add_blocks-get_or i bs counts h = let (v, e, at) = add_blocks-at i bs counts h in rw e (ap some at)
