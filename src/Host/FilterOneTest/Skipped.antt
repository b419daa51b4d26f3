-- ===== src/Host/FilterOneTest/Skipped.antt =====
-- What `execOneTest` of runners/host/base_test.py records of a test that a filter keeps from
-- running.
use mathlib.Core.Path.{ap₂, subst}
use test_vts.Base.{
  ℕ, ◌≡◌, refl, sym, ap, ◌∙◌, Bool, true, false, not, ◌&&◌, List, [], ◌∷◌, ◌++◌, Option, none, some,
  arith, length, get_or, set, elem, elem-append, beq_refl, nat_eq, if◌then◌else◌,
}
use test_vts.Base.Text.{Str, codes}
use test_vts.Common.Filter.{truthy, or_empty, filter}
use test_vts.Common.Filter.Patterns.{Regex}
use test_vts.Host.Records.{
  TestResultRecord, skip, test_signal, new_record, test_begin, test_skip, test_end, set_ending,
}
use test_vts.Host.Records.Requested.{elem-remove_same}
use test_vts.Host.Records.Result.{
  Store, TestResult, deref, same_case, remove_same, remove_record, file_record, add_record,
}
use test_vts.Host.ExecOneTest.{
  Outcome, silent, skipped, Procedure, on_skip, on_silent, ProcedureEnd, procedure_returned, Flow,
  goes_on, Run, update, run_procedure, exec_procedure, after_procedure, remove_silent, handle,
  record_result, finish, exec_one_test,
}
use test_vts.Host.FilterOneTest.{
  TestClass, Gate, raises_silent, raises_skip, skip_all_tests, then_gate, skip_gate, given_or,
  verdict_gate, filter_through_test_filter, retry_verdict, filter_one_test, after_filters,
  after_retry_filter, test_body, exec_filtered_test,
}

get_or-last :
    {X : Type 0} (l : List X) (x y d : X) → get_or (set (l ++ x ∷ []) (length l) y) (length l) d ≡ y
get_or-last [] x y d = refl
get_or-last (z ∷ l) x y d = get_or-last l x y d

skip_reason_lem :
    (msg : Option Str)
    → (if truthy msg then msg else some (codes "No reason provided."))
      ≡ some (if truthy msg then or_empty msg else codes "No reason provided.")
skip_reason_lem none = refl
skip_reason_lem (some []) = refl
skip_reason_lem (some (c ∷ s)) = refl

-- A result has the records of another one less those for which `same` holds, told of one record.
abbrev pub IsWithout : Bool → ℕ → TestResult → TestResult → Type 0
IsWithout same j t u =
    (elem j u.requested ≡ (elem j t.requested && not same))
    × (elem j u.failed ≡ (elem j t.failed && not same))
    × (elem j u.executed ≡ (elem j t.executed && not same))
    × (elem j u.passed ≡ (elem j t.passed && not same))
    × (elem j u.skipped ≡ (elem j t.skipped && not same))
    × (elem j u.error ≡ (elem j t.error && not same))

remove_record-IsWithout :
    {X : Type 0} (st : Store X) (i j : ℕ) (t : TestResult)
    → IsWithout (same_case st j i) j t (remove_record st i true t)
unfolding remove_record
remove_record-IsWithout st i j t = (
  elem-remove_same st i j t.requested,
  elem-remove_same st i j t.failed,
  elem-remove_same st i j t.executed,
  elem-remove_same st i j t.passed,
  elem-remove_same st i j t.skipped,
  elem-remove_same st i j t.error,
)

module _ {X : Type 0} (devices : List (Option Flow)) (proc late : Procedure → ProcedureEnd)
    (heals : Bool) (clock : ℕ → ℕ) (name : Str) (module_name : Option Str) (r : Run X) where
  abbrev begun : TestResultRecord X
  begun = test_begin (clock 0) (new_record name module_name)

  abbrev skipped_store : Str → Store X
  skipped_store reason = set (r.store ++ begun ∷ []) (length r.store) (
      test_skip (clock 1) (test_signal (some reason) none)
        (deref (r.store ++ begun ∷ []) (length r.store)))

  exec_one_test-skipped :
      (reason : Str)
      → proc on_skip ≡ procedure_returned
      → exec_one_test
          (some true)
          devices
          proc
          late
          heals
          clock
          name
          module_name
          false
          (skipped (test_signal (some reason) none))
          r
        ≡ (
          record r {
            store = skipped_store reason;
            results = add_record (skipped_store reason) (length r.store) r.results;
          },
          goes_on,
        )
  unfolding exec_one_test handle finish exec_procedure run_procedure after_procedure record_result
      update
  exec_one_test-skipped reason h = ground arith

  exec_one_test-silent :
      proc on_silent ≡ procedure_returned
      → exec_one_test (some true) devices proc late heals clock name module_name false silent r ≡ (
        record r {
          store = r.store ++ begun ∷ [];
          results = remove_record (r.store ++ begun ∷ []) (length r.store) true r.results;
        },
        goes_on,
      )
  unfolding exec_one_test handle finish exec_procedure run_procedure after_procedure record_result
      remove_silent
  exec_one_test-silent h = ground arith

  add_record-skip :
      (st : Store X) (i : ℕ) (t : TestResult)
      → (deref st i).result ≡ some skip
      → elem i (add_record st i t).skipped ≡ true
  unfolding add_record remove_record file_record
  add_record-skip st i t h =
      ground (arith, h, elem-append i (remove_same st i t.skipped) (i ∷ []), beq_refl i)

  skipped_store-deref :
      (reason : Str)
      → ((deref (skipped_store reason) (length r.store)).result ≡ some skip)
        × ((deref (skipped_store reason) (length r.store)).details ≡ some reason)
  unfolding deref test_skip test_end set_ending
  skipped_store-deref reason =
      let last = get_or-last r.store begun _ (new_record [] none) in
      (ap (λ x. x.result) last, ap (λ x. x.details) last)

  module _ (re : Regex) (t : TestClass) (re_text : Str) (rest : Bool × Outcome X) where
    abbrev filtered : TestClass → Run X × Flow
    filtered t' =
        exec_filtered_test re t' devices proc late heals clock name module_name re_text rest r

    -- The run for what the retry filter and `filterOneTest` do.
    through : Option Bool → Gate → Run X × Flow
    through retried gate =
        let body = after_filters t.collect_tests_only re_text rest gate in
        after_retry_filter r
          (λ verdict.
            exec_one_test (some verdict) devices proc late heals clock name module_name body.0
              body.1 r)
          retried

    filtered-through :
        filtered t ≡ through (retry_verdict re t name) (filter_one_test re t name none)
    unfolding exec_filtered_test test_body through
    filtered-through = refl

    exec_filtered_test-skip :
        (reason : Str)
        → retry_verdict re t name ≡ some true
        → filter_one_test re t name none ≡ raises_skip reason
        → filtered t
          ≡ exec_one_test
              (some true)
              devices
              proc
              late
              heals
              clock
              name
              module_name
              false
              (skipped (test_signal (some reason) none))
              r
    unfolding through after_filters after_retry_filter
    exec_filtered_test-skip reason h g = filtered-through ∙ ap₂ through h g

    exec_filtered_test-silent :
        (msg : Str)
        → retry_verdict re t name ≡ some true
        → filter_one_test re t name none ≡ raises_silent msg
        → filtered t
          ≡ exec_one_test (some true) devices proc late heals clock name module_name false silent r
    unfolding through after_filters after_retry_filter
    exec_filtered_test-silent msg h g = filtered-through ∙ ap₂ through h g

    filter_one_test-reason :
        (reason : Str)
        → retry_verdict re t name ≡ some true
        → filter re t.test_filter name ≡ some true
        → t.skip_reason ≡ some reason
        → filter_one_test re t name none ≡ raises_skip reason
    unfolding filter_one_test filter_through_test_filter verdict_gate skip_gate given_or then_gate
    filter_one_test-reason reason h g s = ground (arith, h, g, s)

    filter_one_test-unlisted :
        retry_verdict re t name ≡ some true
        → filter re t.test_filter name ≡ some false
        → filter_one_test re t name none
          ≡ raises_silent (codes "Test case '%s' did not pass filters.")
    unfolding filter_one_test filter_through_test_filter verdict_gate given_or then_gate
    filter_one_test-unlisted h g = ground (arith, h, g)

  module _ (re : Regex) (t : TestClass) (re_text : Str) (rest : Bool × Outcome X) where
    -- After `skipAllTests`, a test case that passes the test filter and the retry filter is recorded
    -- as skipped, with the message or the default one for its reason, whatever its test function
    -- would do, if `onSkip` returns.
    pub exec_filtered_test-skip_all_tests :
        (msg : Option Str)
        → retry_verdict re t name ≡ some true
        → filter re t.test_filter name ≡ some true
        → proc on_skip ≡ procedure_returned
        → let after =
            exec_filtered_test re
              (skip_all_tests msg t)
              devices
              proc
              late
              heals
              clock
              name
              module_name
              re_text
              rest
              r in
          (elem (length r.store) after.0.results.skipped ≡ true)
          × ((deref after.0.store (length r.store)).details
              ≡ some (if truthy msg then or_empty msg else codes "No reason provided."))
          × (after.1 ≡ goes_on)
    unfolding skip_all_tests retry_verdict
    exec_filtered_test-skip_all_tests msg h g p =
        let t' = skip_all_tests msg t in
        let reason = if truthy msg then or_empty msg else codes "No reason provided." in
        let q =
          exec_filtered_test-skip re t' re_text rest reason h
            (filter_one_test-reason re t' re_text rest reason h g (skip_reason_lem msg))
          ∙ exec_one_test-skipped reason p in
        let at = skipped_store-deref reason in
        subst
          (λ after.
            (elem (length r.store) after.0.results.skipped ≡ true)
            × ((deref after.0.store (length r.store)).details ≡ some reason)
            × (after.1 ≡ goes_on))
          (sym q)
          (add_record-skip (skipped_store reason) (length r.store) r.results at.0, at.1, refl)

    -- A test case that the retry filter lets pass and the test filter does not leaves no record, and
    -- takes away those of a test case of its full name: each of the six lists of the result has the
    -- records that it had before, less these. Nothing is raised, if `onSilent` returns.
    pub exec_filtered_test-unlisted :
        (j : ℕ)
        → retry_verdict re t name ≡ some true
        → filter re t.test_filter name ≡ some false
        → proc on_silent ≡ procedure_returned
        → let after =
            exec_filtered_test re t devices proc late heals clock name module_name re_text rest r in
          IsWithout (same_case after.0.store j (length r.store)) j r.results after.0.results
          × (after.1 ≡ goes_on)
    exec_filtered_test-unlisted j h g p =
        let i = length r.store in
        let st = r.store ++ begun ∷ [] in
        let q =
          exec_filtered_test-silent re t re_text rest _ h
            (filter_one_test-unlisted re t re_text rest h g)
          ∙ exec_one_test-silent p in
        subst
          (λ after.
            IsWithout (same_case after.0.store j i) j r.results after.0.results
            × (after.1 ≡ goes_on))
          (sym q) (remove_record-IsWithout st i j r.results, refl)
