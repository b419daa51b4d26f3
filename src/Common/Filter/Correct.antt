-- ===== src/Common/Filter/Correct.antt =====
-- The verdict of `Filter.Filter` in utils/python/common/filter_utils.py, read off the items that the
-- user gave and the flags.
use test_vts.Base.{
  ◌≡◌, refl, Bool, true, false, not, ◌&&◌, ◌||◌, List, [], ◌∷◌, ◌++◌, some, arith, any, any-append,
  drop, length, if◌then◌else◌,
}
use test_vts.Base.Text.{Str, codes, starts_with}
use test_vts.Common.Filter.{
  Filter, positive_items, negative_items, refresh_filter, listed, is_in_include_filter,
  is_in_exclude_filter, is_include_filter_empty, filter, truthy, or_empty,
}
use test_vts.Common.Filter.Patterns.{Regex, negative_pattern_prefix, split_negative_pattern}
use test_vts.Common.Filter.Selects.{
  is_usable, item_matches, any-split_positive, any-split_negative, listed_of, empty_of,
}

-- With regular expressions off, no regular expression is left from an earlier setting.
abbrev pub IsSettled : Filter → Type 0
IsSettled f = f.enable_regex ≡ false → (f.include_filter_regex ≡ []) × (f.exclude_filter_regex ≡ [])

abbrev pub is_negative : Bool → Str → Bool
is_negative enabled p = enabled && starts_with negative_pattern_prefix p

module _ (re : Regex) (f : Filter) where
  abbrev pub matches : Str → Str → Bool
  matches p item = item_matches re f.enable_regex f.expand_bitness_on p item

  -- A positive item of the include filter matches the name.
  unfoldable pub includes : Str → Bool
  includes item =
      any (λ p. not (is_negative f.enable_negative_pattern p) && matches p item) f.include_filter

  -- An item of the exclude filter, or a negated item of the include filter, matches the name.
  unfoldable pub excludes : Str → Bool
  excludes item =
      any (λ p. matches p item) f.exclude_filter
      || any
          (λ p.
            is_negative f.enable_negative_pattern p
            && matches (drop (length negative_pattern_prefix) p) item)
          f.include_filter

  -- A positive item of the include filter can match something.
  unfoldable pub has_include : Bool
  has_include =
      any (λ p. not (is_negative f.enable_negative_pattern p) && is_usable re f.enable_regex p)
        f.include_filter

  -- A test of a name, or of the name behind the name of the module.
  unfoldable pub with_prefix : (Str → Bool) → Str → Bool
  with_prefix test item =
      test item
      || f.enable_module_name_prefix_matching
        && truthy f.module_name
        && test (or_empty f.module_name ++ codes "." ++ item)

  unfoldable pub selects : Str → Bool
  selects item =
      if f.exclude_over_include
      then not (with_prefix excludes item) && (not has_include || with_prefix includes item)
      else if has_include
      then with_prefix includes item
      else not (with_prefix excludes item)

any-positive :
    (enabled : Bool) (q : Str → Bool) (l : List Str)
    → any q (if enabled then (split_negative_pattern l).0 else l)
      ≡ any (λ p. not (is_negative enabled p) && q p) l
any-positive true q l = any-split_positive q l
any-positive false q l = refl

any-never : (l : List Str) → any (λ _. false) l ≡ false
any-never [] = refl
any-never (p ∷ l) = any-never l

any-negative :
    (enabled : Bool) (q : Str → Bool) (l m : List Str)
    → any q (if enabled then m ++ (split_negative_pattern l).1 else m) ≡ (
        any q m
        || any (λ p. is_negative enabled p && q (drop (length negative_pattern_prefix) p)) l)
any-negative true q l m =
    ground (arith, any-append q m (split_negative_pattern l).1, any-split_negative q l)
any-negative false q l m = ground (arith, any-never l)

module _ (re : Regex) (f : Filter) (settled : IsSettled f) (item : Str) where
  refresh-listed_include :
      listed re
        (refresh_filter re f).include_filter_exact
        (refresh_filter re f).include_filter_regex
        item
      ≡ some (includes re f item)
  unfolding refresh_filter includes
  refresh-listed_include = ground (
    arith,
    listed_of re f.enable_regex f.expand_bitness_on (positive_items f) item,
    any-positive f.enable_negative_pattern (λ p. matches re f p item) f.include_filter,
  )

  refresh-listed_exclude :
      listed re
        (refresh_filter re f).exclude_filter_exact
        (refresh_filter re f).exclude_filter_regex
        item
      ≡ some (excludes re f item)
  unfolding refresh_filter excludes
  refresh-listed_exclude = ground (
    arith,
    listed_of re f.enable_regex f.expand_bitness_on (negative_items f) item,
    any-negative f.enable_negative_pattern (λ p. matches re f p item) f.include_filter
        f.exclude_filter,
  )

module _ (re : Regex) (f : Filter) (settled : IsSettled f) where
  refresh-empty : is_include_filter_empty (refresh_filter re f) ≡ not (has_include re f)
  unfolding refresh_filter has_include is_include_filter_empty
  refresh-empty = ground (
    arith,
    empty_of re f.enable_regex f.expand_bitness_on (positive_items f),
    any-positive f.enable_negative_pattern (is_usable re f.enable_regex) f.include_filter,
  )

  refresh-flags :
      ((refresh_filter re f).exclude_over_include ≡ f.exclude_over_include)
      × ((refresh_filter re f).enable_module_name_prefix_matching
          ≡ f.enable_module_name_prefix_matching)
      × ((refresh_filter re f).module_name ≡ f.module_name)
  unfolding refresh_filter
  refresh-flags = (ground arith, ground arith, ground arith)

  refresh-is_in_include :
      (item : Str)
      → is_in_include_filter re (refresh_filter re f) item
        ≡ some (with_prefix re f (includes re f) item)
  unfolding is_in_include_filter with_prefix
  refresh-is_in_include item = ground (
    arith,
    refresh-flags,
    refresh-listed_include re f settled item,
    refresh-listed_include re f settled (or_empty f.module_name ++ codes "." ++ item),
  )

  refresh-is_in_exclude :
      (item : Str)
      → is_in_exclude_filter re (refresh_filter re f) item
        ≡ some (with_prefix re f (excludes re f) item)
  unfolding is_in_exclude_filter with_prefix
  refresh-is_in_exclude item = ground (
    arith,
    refresh-flags,
    refresh-listed_exclude re f settled item,
    refresh-listed_exclude re f settled (or_empty f.module_name ++ codes "." ++ item),
  )

  -- After a refresh the verdict on a name is the one that the items and the flags say, and no
  -- exception is raised, whatever patterns were given.
  pub filter-refresh_filter :
      (item : Str) → filter re (refresh_filter re f) item ≡ some (selects re f item)
  unfolding filter selects
  filter-refresh_filter item =
      ground (
        arith,
        refresh-flags,
        refresh-empty,
        refresh-is_in_include item,
        refresh-is_in_exclude item,
      )
