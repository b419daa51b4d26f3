-- ===== src/Common/Filter/Selects.antt =====
-- What a filter selects, pattern by pattern, and that the class `Filter` of
-- utils/python/common/filter_utils.py computes it from its split and expanded lists.
use test_vts.Base.{
  ◌≡◌, refl, ◌∙◌, Bool, true, false, not, ◌&&◌, ◌||◌, List, [], ◌∷◌, ◌++◌, some, arith, elem,
  elem-append, any, any-append, drop, length, if◌then◌else◌,
}
use test_vts.Base.Text.{Str, str_eq, starts_with, ends_with, str_eq_instance}
use test_vts.Common.ListUtils.{unique_from}
use test_vts.Common.ListUtils.Unique.{elem-unique_from, deduplicate_unique}
use test_vts.Common.Filter.{listed}
use test_vts.Common.Filter.Patterns.{
  Regex, suffix_32bit, suffix_64bit, regex_prefix, regex_suffix, regex_prefix_escape,
  negative_pattern_prefix, tagged, has_bitness, bitness_forms, expand_all, expand_bitness,
  is_regex_filter, slice_regex, whole_match, classify, split_filter_list, in_regex_list,
  split_negative_pattern,
}

-- The name that an exact item stands for.
unfoldable pub exact_name : Str → Str
exact_name p =
    if starts_with regex_prefix_escape p && ends_with regex_suffix p
    then regex_prefix ++ drop (length regex_prefix_escape) p
    else p

-- An exact name matches itself, and with bitness its two tagged forms.
unfoldable pub name_matches : Bool → Str → Str → Bool
name_matches bitness p item =
    str_eq item p
    || bitness
      && not (has_bitness p)
      && (str_eq item (tagged p suffix_32bit) || str_eq item (tagged p suffix_64bit))

module _ (re : Regex) where
  unfoldable pub regex_matches : Str → Str → Bool
  regex_matches p item =
      is_regex_filter p && re.compiles (slice_regex p) && whole_match re (slice_regex p) item

  -- An item that can match something: an invalid regular expression is ignored.
  unfoldable pub is_usable : Bool → Str → Bool
  is_usable regex p = not (regex && is_regex_filter p) || re.compiles (slice_regex p)

  -- One filter item against one test name.
  unfoldable pub item_matches : Bool → Bool → Str → Str → Bool
  unfolding regex_matches name_matches
  item_matches regex bitness p item =
      if regex
      then regex_matches p item
        || not (is_regex_filter p) && name_matches bitness (exact_name p) item
      else name_matches bitness p item

module _ {ℓ} {A : Type ℓ} where
  any-or : (p q : A → Bool) (l : List A) → (any p l || any q l) ≡ any (λ x. p x || q x) l
  any-or p q [] = refl
  any-or p q (x ∷ l) = ground (arith, any-or p q l)

  any-same : (p q : A → Bool) (l : List A) → ((x : A) → p x ≡ q x) → any p l ≡ any q l
  any-same p q [] h = refl
  any-same p q (x ∷ l) h = ground (arith, h x, any-same p q l h)

elem-any : (item : Str) (l : List Str) → elem item l ≡ any (λ p. name_matches false p item) l
unfolding name_matches
elem-any item [] = refl
elem-any item (x ∷ l) = ground (arith, elem-any item l)

module _ (re : Regex) where
  -- The exact list of a split, through any test.
  any-split_exact :
      (q : Str → Bool) (l : List Str)
      → any q (split_filter_list re l).0 ≡ any (λ p. not (is_regex_filter p) && q (exact_name p)) l
  unfolding split_filter_list classify exact_name
  any-split_exact q [] = refl
  any-split_exact q (p ∷ l) =
      rw (any-append q (classify re p).0 (split_filter_list re l).0)
        (ground (arith, any-split_exact q l))

  any-split_regex :
      (q : Str → Bool) (l : List Str)
      → any q (split_filter_list re l).1
        ≡ any (λ p. is_regex_filter p && re.compiles (slice_regex p) && q (slice_regex p)) l
  unfolding split_filter_list classify
  any-split_regex q [] = refl
  any-split_regex q (p ∷ l) = ground (arith, any-split_regex q l)

  -- The regular expressions of a split compile, so the search over them does not raise.
  in_regex_list-split :
      (item : Str) (l : List Str)
      → in_regex_list re item (split_filter_list re l).1
        ≡ some (any (λ p. regex_matches re p item) l)
  unfolding split_filter_list classify in_regex_list regex_matches
  in_regex_list-split item [] = refl
  in_regex_list-split item (p ∷ l) = ground (arith, in_regex_list-split item l)

elem-expand_all :
    (item : Str) (l : List Str) → elem item (expand_all l) ≡ any (λ p. name_matches true p item) l
unfolding expand_all bitness_forms name_matches has_bitness
elem-expand_all item [] = refl
elem-expand_all item (p ∷ l) =
    rw (elem-append item (bitness_forms p) (expand_all l)) (ground (arith, elem-expand_all item l))

pub elem-expand_bitness :
    (item : Str) (l : List Str)
    → elem item (expand_bitness l) ≡ any (λ p. name_matches true p item) l
unfolding expand_bitness
elem-expand_bitness item l =
    rw (deduplicate_unique (expand_all l))
      (elem-unique_from item [] (expand_all l) ∙ ground (arith, elem-expand_all item l))

-- The two lists of a split by the negative sign, through any test.
pub any-split_positive :
    (q : Str → Bool) (l : List Str)
    → any q (split_negative_pattern l).0
      ≡ any (λ p. not (starts_with negative_pattern_prefix p) && q p) l
unfolding split_negative_pattern
any-split_positive q [] = refl
any-split_positive q (p ∷ l) = ground (arith, any-split_positive q l)

pub any-split_negative :
    (q : Str → Bool) (l : List Str)
    → any q (split_negative_pattern l).1
      ≡ any
          (λ p.
            starts_with negative_pattern_prefix p && q (drop (length negative_pattern_prefix) p))
          l
unfolding split_negative_pattern
any-split_negative q [] = refl
any-split_negative q (p ∷ l) = ground (arith, any-split_negative q l)

-- The exact list and the regex list that a refresh derives from a list of items.
abbrev pub exact_of : Regex → Bool → Bool → List Str → List Str
exact_of re true true l = expand_bitness (split_filter_list re l).0
exact_of re true false l = (split_filter_list re l).0
exact_of re false true l = expand_bitness l
exact_of re false false l = l

abbrev pub regex_of : Regex → Bool → List Str → List Str
regex_of re true l = (split_filter_list re l).1
regex_of re false l = []

is_nil-expand_bitness : (l : List Str) → any (λ _. true) (expand_bitness l) ≡ any (λ _. true) l
unfolding expand_bitness
is_nil-expand_bitness [] =
    rw (deduplicate_unique (expand_all [])) (unfold expand_all unique_from in refl)
is_nil-expand_bitness (p ∷ l) =
    rw (deduplicate_unique (expand_all (p ∷ l)))
      (unfold expand_all bitness_forms unique_from in ground arith)

module _ (re : Regex) where
  pub listed_of :
      (regex bitness : Bool) (l : List Str) (item : Str)
      → listed re (exact_of re regex bitness l) (regex_of re regex l) item
        ≡ some (any (λ p. item_matches re regex bitness p item) l)
  unfolding listed item_matches in_regex_list
  listed_of true true l item = ground (
    arith,
    elem-expand_bitness item (split_filter_list re l).0,
    any-split_exact re (λ p. name_matches true p item) l,
    in_regex_list-split re item l,
    any-or (λ p. regex_matches re p item)
        (λ p. not (is_regex_filter p) && name_matches true (exact_name p) item) l,
  )
  listed_of true false l item = ground (
    arith,
    elem-any item (split_filter_list re l).0,
    any-split_exact re (λ p. name_matches false p item) l,
    in_regex_list-split re item l,
    any-or (λ p. regex_matches re p item)
        (λ p. not (is_regex_filter p) && name_matches false (exact_name p) item) l,
  )
  listed_of false true l item = ground (arith, elem-expand_bitness item l)
  listed_of false false l item = ground (arith, elem-any item l)

  split_empty :
      (l : List Str)
      → (any (λ _. true) (split_filter_list re l).0 || any (λ _. true) (split_filter_list re l).1)
        ≡ any (is_usable re true) l
  unfolding is_usable
  split_empty l = ground (
    arith,
    any-split_exact re (λ _. true) l,
    any-split_regex re (λ _. true) l,
    any-or (λ p. not (is_regex_filter p) && true)
        (λ p. is_regex_filter p && re.compiles (slice_regex p) && true) l,
    any-same
        (λ p.
          not (is_regex_filter p) && true
          || is_regex_filter p && re.compiles (slice_regex p) && true)
        (λ p. not (true && is_regex_filter p) || re.compiles (slice_regex p)) l (λ p. ground arith),
  )

  all_usable : (l : List Str) → any (λ _. true) l ≡ any (is_usable re false) l
  unfolding is_usable
  all_usable [] = refl
  all_usable (p ∷ l) = refl

  -- Both lists are empty exactly if no item is usable.
  pub empty_of :
      (regex bitness : Bool) (l : List Str)
      → (any (λ _. true) (exact_of re regex bitness l) || any (λ _. true) (regex_of re regex l))
        ≡ any (is_usable re regex) l
  empty_of true true l =
      ground (arith, is_nil-expand_bitness (split_filter_list re l).0, split_empty l)
  empty_of true false l = split_empty l
  empty_of false true l = ground (arith, is_nil-expand_bitness l, all_usable l)
  empty_of false false l = ground (arith, all_usable l)
