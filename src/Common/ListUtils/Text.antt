-- ===== src/Common/ListUtils/Text.antt =====
-- utils/python/common/list_utils.py: the lists that are made of texts. Strings are byte strings,
-- which `str` leaves alone.
pub mod Comments
pub mod Load
use test_vts.Base.{
  ℕ, zero, suc, ◌-◌, Bool, true, false, not, ◌||◌, ◌&&◌, List, [], ◌∷◌, ◌++◌, map, Option, none,
  some, ◌==◌, length, is_empty, take, if◌then◌else◌,
}
use test_vts.Base.Text.{Str, codes, starts_with, str_eq_instance}
use test_vts.Common.ListUtils.{chain, deduplicate_keep_order}

abbrev pub default_comment_char : Str
default_comment_char = codes "#"

-- `[x for x in xs if test(x)]`
abbrev pub keep : (Str → Bool) → List Str → List Str
keep test [] = []
keep test (x ∷ xs) = if test x then x ∷ keep test xs else keep test xs

-- `s.strip()`: the six characters of white space
abbrev pub is_space : ℕ → Bool
is_space c = c == 32 || c == 9 || c == 10 || c == 11 || c == 12 || c == 13

unfoldable pub lstrip : Str → Str
lstrip [] = []
lstrip (c ∷ s) = if is_space c then lstrip s else c ∷ s

unfoldable pub rstrip : Str → Str
rstrip [] = []
rstrip (c ∷ s) =
    let t = rstrip s in elim t [ [] ↦ if is_space c then [] else c ∷ [] | d ∷ r ↦ c ∷ d ∷ r ]

unfoldable pub strip : Str → Str
unfolding lstrip rstrip
strip s = rstrip (lstrip s)

-- `item.split(delimiter)`, for a delimiter that is not empty: the first part and the others. The
-- number is that of the characters of a delimiter still to be passed over.
unfoldable pub split : Str → ℕ → Str → Str × List Str
split delimiter skip [] = ([], [])
split delimiter (suc skip) (c ∷ s) = split delimiter skip s
split delimiter zero (c ∷ s) =
    let whole = split delimiter zero s in
    let cut = split delimiter (length delimiter - 1) s in
    if starts_with delimiter (c ∷ s) then ([], cut.0 ∷ cut.1) else (c ∷ whole.0, whole.1)

unfoldable pub split_items : Str → List Str → List (List Str)
unfolding split
split_items delimiter [] = []
split_items delimiter (item ∷ items) =
    let parts = split delimiter 0 item in (parts.0 ∷ parts.1) ∷ split_items delimiter items

-- `ExpandItemDelimiters` of a list that is not None; `none` is the ValueError of an empty delimiter.
unfoldable pub expand_item_delimiters : List Str → Str → Bool → Bool → Option (List Str)
unfolding split_items strip
expand_item_delimiters input delimiter stripping remove_empty =
    let parts = chain (split_items delimiter input) in
    let result = if stripping then map strip parts else parts in
    if is_empty delimiter && not (is_empty input)
    then none
    else some (if remove_empty then keep (λ s. not (is_empty s)) result else result)

-- One more character at the front of the first line.
abbrev pub extend : ℕ → List Str → List Str
extend c [] = (c ∷ []) ∷ []
extend c (line ∷ lines) = (c ∷ line) ∷ lines

-- `text.splitlines(keepends)`: a line ends in "\n", "\r" or "\r\n".
unfoldable pub splitlines : Bool → Str → List Str
splitlines keepends [] = []
splitlines keepends (c ∷ s) =
    let lines = splitlines keepends s in
    let ended = (if keepends then c ∷ [] else []) ∷ lines in
    if c == 10
    then ended
    else if c == 13
    then (elim s [
      | [] ↦ ended
      | d ∷ t ↦ if d == 10 then (if keepends then extend c lines else lines) else ended
    ])
    else extend c lines

-- `line.find(comment_char)`
unfoldable pub find : Str → Str → Option ℕ
find needle [] = if is_empty needle then some 0 else none
find needle (c ∷ s) =
    let later = find needle s in
    if starts_with needle (c ∷ s)
    then some 0
    else elim later [ none ↦ none | some i ↦ some (suc i) ]

unfoldable pub remove_comment : Str → Str → Str
unfolding find
remove_comment comment_char line = elim (find comment_char line) [
  | none ↦ line
  | some i ↦ take i line
]

-- The options; `to_str` changes no byte string.
pub record Options : Type 0 where
  pub to_strip : Bool
  pub exclude_empty_line : Bool
  pub exclude_comment_line : Bool
  pub exclude_trailing_comment : Bool
  pub remove_duplicates : Bool
  pub remove_line_breaks : Bool
  pub comment_char : Str

abbrev pub is_comment : Str → Str → Bool
is_comment comment_char line = starts_with comment_char (strip line)

-- `LoadListFromCommentedText` from the lines on: a comment is cut before the test for a comment line.
unfoldable pub collect_lines : Options → List Str → List Str
unfolding remove_comment strip
collect_lines o lines =
    let cut =
      if o.exclude_trailing_comment then map (remove_comment o.comment_char) lines else lines in
    let stripped = if o.to_strip then map strip cut else cut in
    let code =
      if o.exclude_comment_line
      then keep (λ line. not (is_comment o.comment_char line)) stripped
      else stripped in
    let full = if o.exclude_empty_line then keep (λ line. not (is_empty line)) code else code in
    if o.remove_duplicates then deduplicate_keep_order full else full

-- `LoadListFromCommentedText`
unfoldable pub load_list_from_commented_text : Str → Options → List Str
unfolding splitlines collect_lines
load_list_from_commented_text text o = collect_lines o (splitlines (not o.remove_line_breaks) text)

-- `LoadListFromCommentedTextFile`, of what the path names: the contents of a file, or no file, where
-- `none` is the NameError of `logging`.
unfoldable pub load_list_from_commented_text_file : Option Str → Options → Option (List Str)
unfolding load_list_from_commented_text
load_list_from_commented_text_file none o = none
load_list_from_commented_text_file (some contents) o =
    some (load_list_from_commented_text contents (record o { comment_char = default_comment_char }))
