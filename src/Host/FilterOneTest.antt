-- ===== src/Host/FilterOneTest.antt =====
-- The filters that `execOneTest` of runners/host/base_test.py puts before a test function:
-- `filterOneTest`, `skipAllTests` and `collect_tests_only`.
pub mod Passes
pub mod Skipped
mod Tests
use test_vts.Base.{
  ℕ, ◌+◌, Bool, true, false, not, ◌&&◌, ◌||◌, leb, List, [], ◌∷◌, ◌++◌, Option, none, some, map,
  if◌then◌else◌,
}
use test_vts.Base.Text.{Str, codes, ends_with, str_eq}
use test_vts.Common.Filter.{Filter, truthy, filter}
use test_vts.Common.Filter.Patterns.{Regex, suffix_32bit, suffix_64bit}
use test_vts.Host.Records.{test_signal, other_exception}
use test_vts.Host.ExecOneTest.{
  Outcome, failure, skipped, passed, other_error, silent, Procedure, ProcedureEnd, Flow,
  raises_unhandled, Run, exec_one_test,
}

-- The attributes of the test class that the filters read. A flag for the 32 bit or 64 bit ABI is
-- set when it is the object True; `skip_reason` is what `skipAllTests` sets.
pub record TestClass : Type 0 where
  pub test_filter_retry : Option Filter
  pub test_filter : Filter
  pub skip_reason : Option Str
  pub abi_bitness : Option Str
  pub skip_on_32bit_abi : Bool
  pub skip_on_64bit_abi : Bool
  pub run_32bit_on_64bit_abi : Bool
  pub collect_tests_only : Bool

-- How a filter method ends: it returns, raises TestSilent or TestSkip, or `re.error`.
pub data Gate : Type 0 where
  passes raises_error : Gate
  raises_silent raises_skip : Str → Gate

-- `str.lower` of a byte string
unfoldable pub lower_code : ℕ → ℕ
lower_code c = if leb 65 c && leb c 90 then c + 32 else c

unfoldable pub lower : Str → Str
unfolding lower_code
lower s = map lower_code s

-- `skipAllTests`, `skipAllTestsIf`, for a message that may be None
unfoldable pub skip_all_tests : Option Str → TestClass → TestClass
skip_all_tests msg t = record t {
  skip_reason = if truthy msg then msg else some (codes "No reason provided.");
}

unfoldable pub skip_all_tests_if : Bool → Option Str → TestClass → TestClass
unfolding skip_all_tests
skip_all_tests_if condition msg t = if condition then skip_all_tests msg t else t

-- `self.abi_bitness == bits`
unfoldable pub has_abi : Str → TestClass → Bool
has_abi bits t = elim t.abi_bitness [ none ↦ false | some b ↦ str_eq b bits ]

unfoldable pub is_excluded : TestClass → Str → Bool
unfolding has_abi lower
is_excluded t test_name =
    truthy t.abi_bitness && (t.skip_on_32bit_abi && has_abi (codes "32") t)
    || t.skip_on_64bit_abi && has_abi (codes "64") t
    || ends_with suffix_32bit (lower test_name) && not (has_abi (codes "32") t)
    || ends_with suffix_64bit (lower test_name)
      && not (has_abi (codes "64") t)
      && not t.run_32bit_on_64bit_abi

unfoldable pub bitness_message : TestClass → Str → Str
bitness_message t test_name =
    codes "Test case '"
    ++ test_name
    ++ codes "' excluded as ABI bitness is "
    ++ (elim t.abi_bitness [ none ↦ codes "None" | some b ↦ b ])
    ++ codes "."

-- `_filterOneTestThroughAbiBitness`
unfoldable pub filter_through_bitness : TestClass → Str → Gate
unfolding is_excluded bitness_message
filter_through_bitness t test_name =
    if is_excluded t test_name then raises_skip (bitness_message t test_name) else passes

-- A statement after another one.
unfoldable pub then_gate : Gate → Gate → Gate
then_gate passes next = next
then_gate raises_error next = raises_error
then_gate (raises_silent msg) next = raises_silent msg
then_gate (raises_skip msg) next = raises_skip msg

-- `isSkipAllTests` and `getSkipAllTestsReason`
unfoldable pub skip_gate : Option Str → Gate
skip_gate none = passes
skip_gate (some reason) = raises_skip reason

unfoldable pub given_or : Option Filter → Filter → Filter
given_or none f = f
given_or (some g) f = g

-- The test of a filter's result, which raises `unlisted` when the item does not pass.
unfoldable pub verdict_gate : Option Bool → Gate → Gate → Gate
verdict_gate none unlisted next = raises_error
verdict_gate (some false) unlisted next = unlisted
verdict_gate (some true) unlisted next = next

-- What comes after the call of `filterOneTest`: `finished` and the end of the body of the `try`.
-- The argument `rest` is that of the statements from `_setUp` on. An error of `re` is an exception
-- of no other kind, with the text `re_text`.
unfoldable pub after_filters :
    {X : Type 0} → Bool → Str → Bool × Outcome X → Gate → Bool × Outcome X
after_filters collect_tests_only re_text rest passes =
    if collect_tests_only
    then (false, passed (test_signal (some (codes "Collect tests only.")) none))
    else rest
after_filters collect_tests_only re_text rest raises_error =
    (false, other_error (other_exception re_text))
after_filters collect_tests_only re_text rest (raises_silent msg) = (false, silent)
after_filters collect_tests_only re_text rest (raises_skip msg) =
    (false, skipped (test_signal (some msg) none))

unfoldable pub after_retry_filter :
    {X : Type 0} → Run X → (Bool → Run X × Flow) → Option Bool → Run X × Flow
after_retry_filter r next none = (r, raises_unhandled)
after_retry_filter r next (some verdict) = next verdict

module _ (re : Regex) where
  -- `_filterOneTestThroughTestFilter`. Nothing is put in place of the `%s`.
  unfoldable pub filter_through_test_filter : TestClass → Str → Option Filter → Gate
  unfolding verdict_gate skip_gate given_or
  filter_through_test_filter t test_name test_filter =
      verdict_gate (filter re (given_or test_filter t.test_filter) test_name)
        (raises_silent (codes "Test case '%s' did not pass filters.")) (skip_gate t.skip_reason)

  -- What the retry filter says, if there is one.
  unfoldable pub retry_verdict : TestClass → Str → Option Bool
  retry_verdict t test_name = elim t.test_filter_retry [
    | none ↦ some true
    | some f ↦ filter re f test_name
  ]

  unfoldable pub filter_one_test : TestClass → Str → Option Filter → Gate
  unfolding then_gate verdict_gate filter_through_test_filter filter_through_bitness retry_verdict
  filter_one_test t test_name test_filter =
      verdict_gate (retry_verdict t test_name)
        (raises_skip (codes "Skipping completed tests in retry run attempt."))
        (then_gate (filter_through_test_filter t test_name test_filter)
          (filter_through_bitness t test_name))

  -- The body of the `try` of `execOneTest`, after `_testEntry` has returned anything but False.
  unfoldable pub test_body :
      {X : Type 0} → TestClass → Str → Str → Bool × Outcome X → Bool × Outcome X
  unfolding filter_one_test after_filters
  test_body t test_name re_text rest =
      after_filters t.collect_tests_only re_text rest (filter_one_test t test_name none)

  -- `execOneTest` with its filters. An error of `re` in the first line is raised at once.
  unfoldable pub exec_filtered_test :
      {X : Type 0}
      → TestClass
      → List (Option Flow)
      → (Procedure → ProcedureEnd)
      → (Procedure → ProcedureEnd)
      → Bool
      → (ℕ → ℕ)
      → Str
      → Option Str
      → Str
      → Bool × Outcome X
      → Run X
      → Run X × Flow
  unfolding test_body retry_verdict after_retry_filter
  exec_filtered_test t devices proc late heals clock name module_name re_text rest r =
      let body = test_body t name re_text rest in
      after_retry_filter r
        (λ verdict.
          exec_one_test (some verdict) devices proc late heals clock name module_name body.0 body.1
            r)
        (retry_verdict t name)
