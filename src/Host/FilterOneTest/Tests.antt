-- ===== src/Host/FilterOneTest/Tests.antt =====
-- The filters of `execOneTest` at a test class for a 64 bit ABI, whose test filter excludes one test.
use test_vts.Base.{
  ◌≡◌, refl, ◌↔◌, Bool, true, false, [], ◌∷◌, none, some, elem, length, nat_eq, if◌then◌else◌,
}
use test_vts.Base.Text.{Str, codes, starts_with}
use test_vts.Common.Filter.{Filter, filter, is_in_exclude_filter, is_include_filter_empty, listed}
use test_vts.Common.Filter.Patterns.{Regex, in_regex_list}
use test_vts.Host.Records.Result.{deref, same_case, new_result}
use test_vts.Host.ExecOneTest.{
  Outcome, returned, Procedure, ProcedureEnd, procedure_returned, Run, Flow, goes_on,
}
use test_vts.Host.FilterOneTest.{
  TestClass, passes, raises_skip, skip_all_tests, retry_verdict, filter_one_test,
  exec_filtered_test,
}
use test_vts.Host.FilterOneTest.Passes.{IsAllowed, filter_one_test-IsAllowed}
use test_vts.Host.FilterOneTest.Skipped.{
  IsWithout, exec_filtered_test-skip_all_tests, exec_filtered_test-unlisted,
}

abbrev prefix_regex : Regex
prefix_regex = record {
  compiles = λ p. true;
  match_end = λ p s. if starts_with p s then some (length p) else none;
}

abbrev all_but_b : Filter
all_but_b = record {
  enable_regex = false;
  expand_bitness_on = false;
  enable_negative_pattern = false;
  include_filter = [];
  exclude_filter = codes "b" ∷ [];
  exclude_over_include = false;
  enable_module_name_prefix_matching = false;
  module_name = none;
  include_filter_exact = [];
  include_filter_regex = [];
  exclude_filter_exact = codes "b" ∷ [];
  exclude_filter_regex = [];
}

abbrev on_64 : TestClass
on_64 = record {
  test_filter_retry = none;
  test_filter = all_but_b;
  skip_reason = none;
  abi_bitness = some (codes "64");
  skip_on_32bit_abi = false;
  skip_on_64bit_abi = false;
  run_32bit_on_64bit_abi = false;
  collect_tests_only = false;
}

runs_64 : filter_one_test prefix_regex on_64 (codes "a_64Bit") none ≡ passes
unfolding filter_one_test filter is_include_filter_empty is_in_exclude_filter listed in_regex_list
runs_64 = refl

skips_32 :
    filter_one_test prefix_regex on_64 (codes "a_32bit") none
    ≡ raises_skip (codes "Test case 'a_32bit' excluded as ABI bitness is 64.")
unfolding filter_one_test filter is_include_filter_empty is_in_exclude_filter listed in_regex_list
skips_32 = refl

-- Without a known bitness, a test with a suffix does not run.
skips_unknown :
    filter_one_test prefix_regex (record on_64 { abi_bitness = none }) (codes "a_64bit") none
    ≡ raises_skip (codes "Test case 'a_64bit' excluded as ABI bitness is None.")
unfolding filter_one_test filter is_include_filter_empty is_in_exclude_filter listed in_regex_list
skips_unknown = refl

filter_one_test-IsAllowed_example :
    (filter_one_test prefix_regex on_64 (codes "a_64Bit") none ≡ passes)
    ↔ IsAllowed prefix_regex on_64 (codes "a_64Bit") none
filter_one_test-IsAllowed_example =
    filter_one_test-IsAllowed prefix_regex on_64 (codes "a_64Bit") none

abbrev returning : Procedure → ProcedureEnd
returning p = procedure_returned

abbrev no_tests : Run Str
no_tests = record { store = []; results = new_result; is_final_run = true }

abbrev would_pass : Bool × Outcome Str
would_pass = (true, returned none)

a_listed : filter prefix_regex all_but_b (codes "a") ≡ some true
unfolding filter is_include_filter_empty is_in_exclude_filter listed in_regex_list
a_listed = refl

b_unlisted : filter prefix_regex all_but_b (codes "b") ≡ some false
unfolding filter is_include_filter_empty is_in_exclude_filter listed in_regex_list
b_unlisted = refl

not_retried : (name : Str) → retry_verdict prefix_regex on_64 name ≡ some true
unfolding retry_verdict
not_retried name = refl

abbrev run_a : Run Str × Flow
run_a =
    exec_filtered_test prefix_regex (skip_all_tests none on_64) [] returning returning true (λ n. n)
      (codes "a") none [] would_pass no_tests

exec_filtered_test-skip_all_tests_example :
    (elem 0 run_a.0.results.skipped ≡ true)
    × ((deref run_a.0.store 0).details ≡ some (codes "No reason provided."))
    × (run_a.1 ≡ goes_on)
exec_filtered_test-skip_all_tests_example =
    exec_filtered_test-skip_all_tests [] returning returning true (λ n. n) (codes "a") none no_tests
      prefix_regex on_64 [] would_pass none (not_retried (codes "a")) a_listed refl

abbrev run_b : Run Str × Flow
run_b =
    exec_filtered_test prefix_regex on_64 [] returning returning true (λ n. n) (codes "b") none []
      would_pass no_tests

exec_filtered_test-unlisted_example :
    IsWithout (same_case run_b.0.store 0 0) 0 no_tests.results run_b.0.results × (run_b.1 ≡ goes_on)
exec_filtered_test-unlisted_example =
    exec_filtered_test-unlisted [] returning returning true (λ n. n) (codes "b") none no_tests
      prefix_regex on_64 [] would_pass 0 (not_retried (codes "b")) b_unlisted refl
