-- ===== src/Coverage/Report.antt =====
-- utils/python/coverage/coverage_report.py: the coverage vector of a source file, and its statistics.
pub mod Vector
use test_vts.Base.{
  ℕ, zero, suc, ◌+◌, ◌-◌, Bool, true, false, ◌||◌, List, [], ◌∷◌, ◌++◌, Option, none, some, ◌>>=◌,
  ◌==◌, ltb, length, get_or, set, any, if◌then◌else◌,
}
use test_vts.Base.Int.{ℤ, pos, negsuc, ◌+ℤ◌}
use test_vts.Base.Text.{Str, codes, str_eq, starts_with}
use test_vts.Coverage.Summary.{Block, Function, FileSummary}

-- `needle in s`
abbrev pub contains : Str → Str → Bool
contains needle [] = starts_with needle []
contains needle (c ∷ s) = starts_with needle (c ∷ s) || contains needle s

abbrev pub gen_tag : Str
gen_tag = codes "/gen/"

-- A line that is not executable.
abbrev pub not_code : ℤ
not_code = negsuc 0

abbrev pub is_negative : ℤ → Bool
is_negative (pos n) = false
is_negative (negsuc n) = true

-- `counts.extend([-1] * (line - len(counts)))`
unfoldable pub extend_by : ℕ → List ℤ
extend_by zero = []
extend_by (suc n) = not_code ∷ extend_by n

-- The index `line - 1`: for line 0, the last element.
abbrev pub line_index : ℕ → List ℤ → ℕ
line_index zero counts = length counts - 1
line_index (suc n) counts = n

-- The body of the innermost loop; `none` is the IndexError of line 0 in an empty list.
unfoldable pub add_line : ℤ → ℕ → List ℤ → Option (List ℤ)
unfolding extend_by
add_line count line counts =
    let longer = counts ++ extend_by (line - length counts) in
    let i = line_index line longer in
    let old = get_or longer i not_code in
    if ltb i (length longer)
    then some (set longer i ((if is_negative old then pos 0 else old) +ℤ count))
    else none

unfoldable pub add_block_lines : ℤ → List ℕ → List ℤ → Option (List ℤ)
unfolding add_line
add_block_lines count [] counts = some counts
add_block_lines count (line ∷ lines) counts = do
  counts₁ ← add_line count line counts
  add_block_lines count lines counts₁

unfoldable pub add_blocks : List Block → List ℤ → Option (List ℤ)
unfolding add_block_lines
add_blocks [] counts = some counts
add_blocks (b ∷ bs) counts = do
  counts₁ ← add_block_lines b.count b.lines counts
  add_blocks bs counts₁

-- A dictionary from the names of source files to their vectors.
abbrev pub CoverageDict : Type 0
CoverageDict = List (Str × List ℤ)

unfoldable pub vector_of : Str → CoverageDict → List ℤ
vector_of file [] = []
vector_of file ((name, v) ∷ d) = if str_eq name file then v else vector_of file d

unfoldable pub put_vector : Str → List ℤ → CoverageDict → CoverageDict
put_vector file v [] = (file, v) ∷ []
put_vector file v ((name, w) ∷ d) =
    if str_eq name file then (file, v) ∷ d else (name, w) ∷ put_vector file v d

-- The two `continue`: generated files, and files below an excluded path.
unfoldable pub is_skipped : List Str → Str → Bool
is_skipped exclude_paths file =
    contains gen_tag file || any (λ path. starts_with path file) exclude_paths

unfoldable pub add_function : List Str → Function → CoverageDict → Option CoverageDict
unfolding is_skipped vector_of put_vector add_blocks
add_function exclude_paths func d =
    if is_skipped exclude_paths func.src_file_name then some d else do
      counts ← add_blocks func.blocks (vector_of func.src_file_name d)
      some (put_vector func.src_file_name counts d)

-- `GenerateLineCoverageVector`, in the order in which the dictionary gives the functions
unfoldable pub generate_line_coverage_vector :
    FileSummary → List Str → CoverageDict → Option CoverageDict
unfolding add_function
generate_line_coverage_vector [] exclude_paths d = some d
generate_line_coverage_vector ((ident, func) ∷ functions) exclude_paths d = do
  d₁ ← add_function exclude_paths func d
  generate_line_coverage_vector functions exclude_paths d₁

-- `GetCoverageStats`, of a list: the lines of code, and those that were run
unfoldable pub get_coverage_stats : List ℤ → ℕ × ℕ
get_coverage_stats [] = (0, 0)
get_coverage_stats (pos zero ∷ counts) =
    let rest = get_coverage_stats counts in (suc rest.0, rest.1)
get_coverage_stats (pos (suc n) ∷ counts) =
    let rest = get_coverage_stats counts in (suc rest.0, suc rest.1)
get_coverage_stats (negsuc n ∷ counts) = get_coverage_stats counts
