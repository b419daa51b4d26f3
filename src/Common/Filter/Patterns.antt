-- ===== src/Common/Filter/Patterns.antt =====
-- utils/python/common/filter_utils.py: the functions over lists of filter items, above `Filter`.
use test_vts.Base.{
  ℕ, zero, suc, ◌-◌, Bool, true, false, not, ◌&&◌, ◌||◌, List, [], ◌∷◌, ◌++◌, Option, none, some,
  ◌==◌, ◌>>=◌, length, get_elem?, take, drop, if◌then◌else◌,
}
use test_vts.Base.Text.{Str, codes, starts_with, ends_with, str_eq_instance}
use test_vts.Common.ListUtils.{deduplicate_keep_order}

-- What the file uses of Python's `re`: whether `re.compile` accepts a pattern, and the end of what
-- `match` finds. `match` starts at the first character.
pub record Regex : Type 0 where
  pub compiles : Str → Bool
  pub match_end : Str → Str → Option ℕ

abbrev pub suffix_32bit : Str
suffix_32bit = codes "32bit"

abbrev pub suffix_64bit : Str
suffix_64bit = codes "64bit"

abbrev pub regex_prefix : Str
regex_prefix = codes "r("

abbrev pub regex_suffix : Str
regex_suffix = codes ")"

abbrev pub regex_prefix_escape : Str
regex_prefix_escape = codes "\\r("

abbrev pub negative_pattern_prefix : Str
negative_pattern_prefix = codes "-"

-- `"%s_%s" % (item, suffix)`
unfoldable pub tagged : Str → Str → Str
tagged item suffix = item ++ codes "_" ++ suffix

unfoldable pub has_bitness : Str → Bool
has_bitness item = ends_with suffix_32bit item || ends_with suffix_64bit item

-- What one round of the loop of `ExpandBitness` appends.
unfoldable pub bitness_forms : Str → List Str
bitness_forms item =
    if not (ends_with suffix_32bit item) && not (ends_with suffix_64bit item)
    then item ∷ tagged item suffix_32bit ∷ tagged item suffix_64bit ∷ []
    else item ∷ []

unfoldable pub expand_all : List Str → List Str
expand_all [] = []
expand_all (item ∷ rest) = bitness_forms item ++ expand_all rest

unfoldable pub expand_bitness : List Str → List Str
expand_bitness input_list = deduplicate_keep_order (expand_all input_list)

unfoldable pub is_regex_filter : Str → Bool
is_regex_filter item = starts_with regex_prefix item && ends_with regex_suffix item

abbrev last : Str → Option ℕ
last [] = none
last (c ∷ []) = some c
last (c ∷ d ∷ s) = last (d ∷ s)

-- `item[pos - 1]`, where the index -1 is the last character.
abbrev char_before : Str → ℕ → Option ℕ
char_before item zero = last item
char_before item (suc pos) = get_elem? item pos

abbrev is_underscore : Option ℕ → Bool
is_underscore none = false
is_underscore (some c) = c == b'_'

-- Where `ExpandAppendix` puts an appendix into an item.
unfoldable pub appendix_position : Str → ℕ
unfolding has_bitness
appendix_position item =
    let pos = length item - length suffix_32bit in
    if has_bitness item
    then (if is_underscore (char_before item pos) then pos - 1 else pos)
    else length item

unfoldable pub insert_each : Str → ℕ → List Str → List Str
insert_each item pos [] = []
insert_each item pos (appendix ∷ rest) =
    (take pos item ++ appendix ++ drop pos item) ∷ insert_each item pos rest

unfoldable pub slice_regex : Str → Str
slice_regex item = drop (length regex_prefix) (take (length item - length regex_suffix) item)

module _ (re : Regex) where
  -- `re.compile(filter_pattern).match(item)`: an invalid pattern raises.
  abbrev pattern_match : Str → Str → Option (Option ℕ)
  pattern_match pattern item =
      if re.compiles pattern then some (re.match_end pattern item) else none

  abbrev found : Option ℕ → Bool
  found none = false
  found (some _) = true

  -- The test at the head of the loop, whose second part is evaluated only if the first fails.
  unfoldable pub stays_whole : Str → Str → Option Bool
  stays_whole pattern item =
      if is_regex_filter item
      then some true
      else (pattern_match pattern item >>= λ m. some (found m))

  unfoldable pub expand_appendix : List Str → List Str → Str → Option (List Str)
  expand_appendix [] appendix_list pattern = some []
  expand_appendix (item ∷ rest) appendix_list pattern = do
    whole ← stays_whole pattern item
    expanded ← expand_appendix rest appendix_list pattern
    some (
        (if whole then item ∷ [] else insert_each item (appendix_position item) appendix_list)
        ++ expanded)

  -- One item of `SplitFilterList`: what it adds to the exact list and to the regex list.
  unfoldable pub classify : Str → List Str × List Str
  classify item =
      if is_regex_filter item
      then (if re.compiles (slice_regex item) then ([], slice_regex item ∷ []) else ([], []))
      else if starts_with regex_prefix_escape item && ends_with regex_suffix item
      then ((regex_prefix ++ drop (length regex_prefix_escape) item) ∷ [], [])
      else (item ∷ [], [])

  unfoldable pub split_filter_list : List Str → List Str × List Str
  split_filter_list [] = ([], [])
  split_filter_list (item ∷ rest) =
      let (e, r) = classify item in
      let (exact, regex) = split_filter_list rest in (e ++ exact, r ++ regex)

  -- `m and m.start() == 0 and m.end() == len(item)`
  abbrev pub whole_match : Str → Str → Bool
  whole_match regex item = elim (re.match_end regex item) [
    | none ↦ false
    | some n ↦ n == length item
  ]

  unfoldable pub in_regex_list : Str → List Str → Option Bool
  in_regex_list item [] = some false
  in_regex_list item (regex ∷ rest) =
      let later = in_regex_list item rest in
      if re.compiles regex then (if whole_match regex item then some true else later) else none

unfoldable pub split_negative_pattern : List Str → List Str × List Str
split_negative_pattern [] = ([], [])
split_negative_pattern (item ∷ rest) =
    let (positive, negative) = split_negative_pattern rest in
    if starts_with negative_pattern_prefix item
    then (positive, drop (length negative_pattern_prefix) item ∷ negative)
    else (item ∷ positive, negative)
