-- ===== src/Common/Filter.antt =====
-- utils/python/common/filter_utils.py: the class `Filter`. A method that assigns attributes
-- returns the new object; one that may raise `re.error` returns an `Option`. Lists are values here:
-- the class copies its lists before it changes them, but for `add_to_include_filter` and
-- `add_to_exclude_filter`, which extend the caller's list object too.
pub mod Patterns
pub mod Bitness
pub mod Selects
pub mod Correct
pub mod Appendix
pub mod Calls
use test_vts.Base.{
  Bool, true, false, not, ◌&&◌, ◌||◌, List, [], ◌∷◌, ◌++◌, Option, none, some, ◌>>=◌, elem,
  if◌then◌else◌,
}
use test_vts.Base.Text.{Str, codes, str_eq_instance}
use Patterns.{
  Regex, expand_bitness, expand_appendix, split_filter_list, split_negative_pattern, in_regex_list,
}

pub record Filter : Type 0 where
  pub enable_regex : Bool
  pub expand_bitness_on : Bool
  pub enable_negative_pattern : Bool
  pub include_filter : List Str
  pub exclude_filter : List Str
  pub exclude_over_include : Bool
  pub enable_module_name_prefix_matching : Bool
  pub module_name : Option Str
  pub include_filter_exact : List Str
  pub include_filter_regex : List Str
  pub exclude_filter_exact : List Str
  pub exclude_filter_regex : List Str

-- The arguments of the constructor.
pub record Config : Type 0 where
  pub include_filter : List Str
  pub exclude_filter : List Str
  pub enable_regex : Bool
  pub exclude_over_include : Option Bool
  pub enable_negative_pattern : Bool
  pub enable_module_name_prefix_matching : Bool
  pub module_name : Option Str
  pub expand_bitness : Bool

abbrev pub default_exclude_over_include : Bool
default_exclude_over_include = false

-- `bool(module_name)`
abbrev pub truthy : Option Str → Bool
truthy none = false
truthy (some []) = false
truthy (some (c ∷ s)) = true

abbrev pub or_empty : Option Str → Str
or_empty none = []
or_empty (some s) = s

-- The three parts of `refresh_filter`: negative items, regular expressions, bitness.
unfoldable pub positive_items : Filter → List Str
positive_items f =
    if f.enable_negative_pattern
    then (split_negative_pattern f.include_filter).0
    else f.include_filter

unfoldable pub negative_items : Filter → List Str
negative_items f =
    if f.enable_negative_pattern
    then f.exclude_filter ++ (split_negative_pattern f.include_filter).1
    else f.exclude_filter

unfoldable pub expand_exact : Filter → Filter
expand_exact f =
    if f.expand_bitness_on
    then record f {
      include_filter_exact = expand_bitness f.include_filter_exact;
      exclude_filter_exact = expand_bitness f.exclude_filter_exact;
    }
    else f

-- The attributes at the time of the first assignment to `include_filter`: the flags, and the empty
-- lists of the class. `exclude_filter` is read as [] while it is not set. The attributes that are
-- set later do not enter into `refresh_filter`.
abbrev pub blank : Config → Filter
blank c = record {
  enable_regex = c.enable_regex;
  expand_bitness_on = c.expand_bitness;
  enable_negative_pattern = c.enable_negative_pattern;
  include_filter = [];
  exclude_filter = [];
  exclude_over_include = elim c.exclude_over_include [
    | none ↦ default_exclude_over_include
    | some b ↦ b
  ];
  enable_module_name_prefix_matching = c.enable_module_name_prefix_matching;
  module_name = c.module_name;
  include_filter_exact = [];
  include_filter_regex = [];
  exclude_filter_exact = [];
  exclude_filter_regex = [];
}

-- The deprecated method `ExpandBitness`.
unfoldable pub expand_bitness_now : Filter → Filter
expand_bitness_now f = record f {
  include_filter_exact = expand_bitness f.include_filter_exact;
  exclude_filter_exact = expand_bitness f.exclude_filter_exact;
  expand_bitness_on = true;
}

unfoldable pub is_include_filter_empty : Filter → Bool
is_include_filter_empty f = elim f.include_filter_exact [
  | [] ↦ elim f.include_filter_regex [ [] ↦ true | r ∷ rs ↦ false ]
  | e ∷ es ↦ false
]

-- `_ModuleNamePrefixMatchingCheck`
unfoldable pub prefix_matching_check : Filter → Str → (Str → Option Bool) → Option Bool
prefix_matching_check f item check_function = do
  res ← check_function item
  if not res && f.enable_module_name_prefix_matching && truthy f.module_name
      then check_function (or_empty f.module_name ++ codes "." ++ item)
      else some res

module _ (re : Regex) where
  unfoldable pub split_items : Filter → List Str → List Str → Filter
  split_items f include exclude =
      if f.enable_regex
      then record f {
        include_filter_exact = (split_filter_list re include).0;
        include_filter_regex = (split_filter_list re include).1;
        exclude_filter_exact = (split_filter_list re exclude).0;
        exclude_filter_regex = (split_filter_list re exclude).1;
      }
      else record f { include_filter_exact = include; exclude_filter_exact = exclude }

  unfoldable pub refresh_filter : Filter → Filter
  unfolding positive_items negative_items split_items expand_exact
  refresh_filter f = expand_exact (split_items f (positive_items f) (negative_items f))

  -- The property setters.
  unfoldable pub set_include_filter : List Str → Filter → Filter
  set_include_filter items f = refresh_filter (record f { include_filter = items })

  unfoldable pub set_exclude_filter : List Str → Filter → Filter
  set_exclude_filter items f = refresh_filter (record f { exclude_filter = items })

  unfoldable pub init : Config → Filter
  unfolding set_include_filter set_exclude_filter
  init c = set_exclude_filter c.exclude_filter (set_include_filter c.include_filter (blank c))

  unfoldable pub add_to_include_filter : List Str → Bool → Filter → Filter
  add_to_include_filter pattern auto_refresh f =
      let f' : Filter = record f { include_filter = f.include_filter ++ pattern } in
      if auto_refresh then refresh_filter f' else f'

  unfoldable pub add_to_exclude_filter : List Str → Bool → Filter → Filter
  add_to_exclude_filter pattern auto_refresh f =
      let f' : Filter = record f { exclude_filter = f.exclude_filter ++ pattern } in
      if auto_refresh then refresh_filter f' else f'

  -- The method `ExpandAppendix`. `false` beside the object says that `re.error` was raised; what was
  -- assigned before stays assigned.
  unfoldable pub expand_filters : List Str → Str → Filter → Filter × Bool
  expand_filters appendix_list pattern f =
      elim (expand_appendix re f.include_filter appendix_list pattern) [
        | none ↦ (f, false)
        | some include ↦
            let f' = set_include_filter include f in
            elim (expand_appendix re f'.exclude_filter appendix_list pattern) [
              | none ↦ (f', false)
              | some exclude ↦ (set_exclude_filter exclude f', true)
            ]
      ]

  -- `item in exact or InRegexList(item, regex)`
  unfoldable pub listed : List Str → List Str → Str → Option Bool
  listed exact regex item = if elem item exact then some true else in_regex_list re item regex

  unfoldable pub is_in_include_filter : Filter → Str → Option Bool
  unfolding prefix_matching_check
  is_in_include_filter f item =
      prefix_matching_check f item (listed f.include_filter_exact f.include_filter_regex)

  unfoldable pub is_in_exclude_filter : Filter → Str → Option Bool
  unfolding prefix_matching_check
  is_in_exclude_filter f item =
      prefix_matching_check f item (listed f.exclude_filter_exact f.exclude_filter_regex)

  -- The method `Filter`.
  unfoldable pub filter : Filter → Str → Option Bool
  filter f item =
      if f.exclude_over_include
      then (do
        excluded ← is_in_exclude_filter f item
        if excluded
            then some false
            else if not (is_include_filter_empty f)
            then is_in_include_filter f item
            else some true)
      else if not (is_include_filter_empty f)
      then is_in_include_filter f item
      else (do excluded ← is_in_exclude_filter f item; some (not excluded))
