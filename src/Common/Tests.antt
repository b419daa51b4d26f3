-- ===== src/Common/Tests.antt =====
-- The theorems of utils/python/common at concrete inputs, and small runs.
use test_vts.Base.{
  elem, ◌≡◌, ◌≢◌, refl, true, false, not, [], ◌∷◌, ◌++◌, none, some, inl, All, length,
  if◌then◌else◌,
}
use test_vts.Base.Text.{Str, codes, str_eq, starts_with, str_eq_instance}
use test_vts.Common.ListUtils.Text.{
  keep, is_comment, collect_lines, default_comment_char, Options, load_list_from_commented_text,
  splitlines, remove_comment, find, strip, lstrip, rstrip,
}
use test_vts.Common.ListUtils.Text.Load.{is_fit}
use test_vts.Common.ListUtils.Text.Comments.{
  load_list_from_commented_text-comments, collect_lines-blank,
}
use test_vts.Common.Filter.{Config, init, filter, refresh_filter}
use test_vts.Common.Filter.Patterns.{
  Regex, suffix_32bit, expand_bitness, expand_appendix, stays_whole, has_bitness, appendix_position,
  insert_each, is_regex_filter,
}
use test_vts.Common.Filter.Bitness.{expand_bitness_idem}
use test_vts.Common.Filter.Appendix.{Ends, expand_appendix-Ends}
use test_vts.Common.Filter.Correct.{selects}
use test_vts.Common.Filter.Calls.{
  add_include, expand_appendices, calls, given, filter-init, filter-calls, filter-refresh_calls,
}

-- Patterns without metacharacters; "(" is the one invalid pattern.
abbrev plain_regex : Regex
plain_regex = record {
  compiles = λ p. not (str_eq p (codes "("));
  match_end = λ p s. if starts_with p s then some (length p) else none;
}

abbrev sample : Config
sample = record {
  include_filter = codes "-slow" ∷ codes "r(suite.a)" ∷ codes "r(()" ∷ [];
  exclude_filter = codes "b_32bit" ∷ [];
  enable_regex = true;
  exclude_over_include = none;
  enable_negative_pattern = true;
  enable_module_name_prefix_matching = false;
  module_name = none;
  expand_bitness = true;
}

filter-init_example :
    filter plain_regex (init plain_regex sample) (codes "suite.a")
    ≡ some (selects plain_regex (given sample) (codes "suite.a"))
filter-init_example = filter-init plain_regex sample (codes "suite.a")

filter-calls_example :
    filter plain_regex
      (calls plain_regex (init plain_regex sample) (
        add_include (codes "r(()" ∷ []) false
        ∷ expand_appendices (codes "_x" ∷ []) (codes "(")
        ∷ []))
      (codes "slow")
    ≢ none
filter-calls_example =
    filter-calls plain_regex sample
      (add_include (codes "r(()" ∷ []) false ∷ expand_appendices (codes "_x" ∷ []) (codes "(") ∷ [])
      (codes "slow")

filter-refresh_calls_example :
    filter plain_regex
      (refresh_filter plain_regex
        (calls plain_regex (init plain_regex sample) (add_include (codes "c" ∷ []) false ∷ [])))
      (codes "c_64bit")
    ≡ some (
        selects plain_regex
          (calls plain_regex (init plain_regex sample) (add_include (codes "c" ∷ []) false ∷ []))
          (codes "c_64bit"))
filter-refresh_calls_example =
    filter-refresh_calls plain_regex sample (add_include (codes "c" ∷ []) false ∷ [])
      (codes "c_64bit")

expand_bitness_idem_example :
    expand_bitness (expand_bitness (codes "a_32bit" ∷ codes "a" ∷ []))
    ≡ expand_bitness (codes "a_32bit" ∷ codes "a" ∷ [])
expand_bitness_idem_example = expand_bitness_idem (codes "a_32bit" ∷ codes "a" ∷ [])

expand_appendix-run :
    expand_appendix plain_regex
      (codes "b_32bit" ∷ [])
      (codes "_default" ∷ codes "_test" ∷ [])
      (codes "z")
    ≡ some (codes "b_default_32bit" ∷ codes "b_test_32bit" ∷ [])
unfolding expand_appendix stays_whole is_regex_filter has_bitness appendix_position insert_each
expand_appendix-run = refl

expand_appendix-Ends_example :
    All (Ends suffix_32bit) (codes "b_default_32bit" ∷ codes "b_test_32bit" ∷ [])
expand_appendix-Ends_example =
    expand_appendix-Ends plain_regex suffix_32bit (codes "b_32bit" ∷ [])
      (codes "_default" ∷ codes "_test" ∷ []) (codes "z")
      (codes "b_default_32bit" ∷ codes "b_test_32bit" ∷ []) (inl refl) (refl, tt)
      expand_appendix-run

-- The default options.
abbrev default_options : Options
default_options = record {
  to_strip = true;
  exclude_empty_line = true;
  exclude_comment_line = true;
  exclude_trailing_comment = true;
  remove_duplicates = false;
  remove_line_breaks = true;
  comment_char = default_comment_char;
}

abbrev commented : Str
commented = codes "a # first" ++ 10 ∷ codes "  # none" ++ 10 ∷ codes "b"

load_list_from_commented_text-comments_example :
    (load_list_from_commented_text commented default_options
      ≡ collect_lines default_options
          (keep (λ line. not (is_comment (codes "#") line)) (splitlines false commented)))
    × All
        (λ line. is_fit default_options line ≡ true)
        (load_list_from_commented_text commented default_options)
    × Unit {0}
load_list_from_commented_text-comments_example =
    load_list_from_commented_text-comments commented default_options refl refl refl refl

-- Two spaces before a comment, without stripping.
collect_lines-blank_example :
    elem
      (codes "  ")
      (collect_lines (record default_options { to_strip = false }) (codes "  # c" ∷ codes "b" ∷ []))
    ≡ true
collect_lines-blank_example =
    collect_lines-blank (record default_options { to_strip = false }) (codes " ") (codes " c") [] 32
      35 [] (codes "b" ∷ []) refl refl refl refl refl refl (refl, (refl, tt))

loads :
    load_list_from_commented_text
      (codes " a # first" ++ 13 ∷ 10 ∷ codes "# none" ++ 10 ∷ codes "b")
      default_options
    ≡ codes "a" ∷ codes "b" ∷ []
unfolding load_list_from_commented_text splitlines remove_comment find strip lstrip rstrip
loads = refl
