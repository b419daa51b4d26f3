-- ===== src/Host/Records/Result.antt =====
-- runners/host/records.py: `TestResult`. An object without its store is a position.
use test_vts.Base.{
  ℕ, ◌+◌, Bool, false, List, [], ◌∷◌, ◌++◌, Option, none, some, ltb, length, get_or, set, any,
  nat_eq, if◌then◌else◌,
}
use test_vts.Base.Text.{Str, codes, str_eq}
use test_vts.Common.ListUtils.{merge_unique_keep_order}
use test_vts.Host.Records.{
  Token, pass, fail, skip, Ending, test_signal, message_text, TestResultRecord, new_record,
  is_same_test_case, test_begin, test_pass, test_skip, test_error,
}

pub record TestResult : Type 0 where
  pub requested : List ℕ
  pub failed : List ℕ
  pub executed : List ℕ
  pub passed : List ℕ
  pub skipped : List ℕ
  pub error : List ℕ
  pub test_module_name : Option Str
  pub test_module_timestamp : Option ℕ
  pub class_errors : List Str

unfoldable pub new_result : TestResult
new_result = record {
  requested = [];
  failed = [];
  executed = [];
  passed = [];
  skipped = [];
  error = [];
  test_module_name = none;
  test_module_timestamp = none;
  class_errors = [];
}

-- The chain of `if` of `addRecord`.
unfoldable pub file_record : Option Token → ℕ → TestResult → TestResult
file_record (some fail) rec t = record t { failed = t.failed ++ rec ∷ [] }
file_record (some skip) rec t = record t { skipped = t.skipped ++ rec ∷ [] }
file_record (some pass) rec t = record t { passed = t.passed ++ rec ∷ [] }
file_record _ rec t = record t { error = t.error ++ rec ∷ [] }

abbrev pub Store : Type 0 → Type 0
Store X = List (TestResultRecord X)

module _ {X : Type 0} where
  unfoldable pub deref : Store X → ℕ → TestResultRecord X
  unfolding new_record
  deref st i = get_or st i (new_record [] none)

  -- `isSameTestCase` of two objects
  unfoldable pub same_case : Store X → ℕ → ℕ → Bool
  unfolding deref
  same_case st i j = is_same_test_case (deref st i) (deref st j)

  -- One round of the loop of `removeRecord`.
  unfoldable pub remove_same : Store X → ℕ → List ℕ → List ℕ
  remove_same st rec [] = []
  remove_same st rec (i ∷ l) =
      let rest = remove_same st rec l in if same_case st i rec then rest else i ∷ rest

  -- `removeRecord`; nothing reads `remove_requested`.
  unfoldable pub remove_record : Store X → ℕ → Bool → TestResult → TestResult
  unfolding remove_same
  remove_record st rec remove_requested t = record t {
    requested = remove_same st rec t.requested;
    failed = remove_same st rec t.failed;
    executed = remove_same st rec t.executed;
    passed = remove_same st rec t.passed;
    skipped = remove_same st rec t.skipped;
    error = remove_same st rec t.error;
  }

  unfoldable pub add_record : Store X → ℕ → TestResult → TestResult
  unfolding remove_record file_record
  add_record st rec t =
      let u = remove_record st rec false t in
      file_record (deref st rec).result rec (record u { executed = u.executed ++ rec ∷ [] })

  -- Whether a requested record has been executed.
  unfoldable pub found_in : Store X → ℕ → List ℕ → Bool
  found_in st i executed = any (same_case st i) executed

  unfoldable pub non_executed : Store X → List ℕ → List ℕ → List ℕ
  unfolding found_in
  non_executed st executed [] = []
  non_executed st executed (i ∷ l) =
      let rest = non_executed st executed l in if found_in st i executed then rest else i ∷ rest

  unfoldable pub get_non_executed_records : Store X → TestResult → List ℕ
  get_non_executed_records st t = non_executed st t.executed t.requested

  unfoldable pub get_non_passing_records : Store X → Bool → Bool → Bool → Bool → TestResult → List ℕ
  get_non_passing_records st non_exec with_failed with_skipped with_error t =
      (if non_exec then get_non_executed_records st t else [])
      ++ (if with_failed then t.failed else [])
      ++ (if with_skipped then t.skipped else [])
      ++ (if with_error then t.error else [])

  -- The loop of `reportNonExecutedRecord`; `clock` gives the successive readings of the time.
  unfoldable pub report : (ℕ → ℕ) → List ℕ → Store X → TestResult → Store X × TestResult
  unfolding deref test_begin test_error
  report clock [] st t = (st, t)
  report clock (i ∷ l) st t =
      let r =
        test_error (clock 1)
          (message_text (codes "Unknown error: test case requested but not executed."))
          (test_begin (clock 0) (deref st i)) in
      report (λ n. clock (n + 2)) l (set st i r) (record t { error = t.error ++ i ∷ [] })

  unfoldable pub report_non_executed_record : (ℕ → ℕ) → Store X → TestResult → Store X × TestResult
  unfolding report get_non_executed_records non_executed
  report_non_executed_record clock st t = report clock (get_non_executed_records st t) st t

  -- `passClass` and `skipClass` make the record at the end of the store.
  unfoldable pub pass_class : (ℕ → ℕ) → Str → Ending X → Store X → TestResult → Store X × TestResult
  unfolding test_begin test_pass new_record
  pass_class clock class_name e st t = (
    st
        ++ test_pass (clock 1) e
            (test_begin (clock 0) (new_record (codes "setup_class") (some class_name)))
          ∷ [],
    record t { executed = t.executed ++ length st ∷ []; passed = t.passed ++ length st ∷ [] },
  )

  unfoldable pub skip_class : (ℕ → ℕ) → Str → Str → Store X → TestResult → Store X × TestResult
  unfolding test_begin test_skip new_record
  skip_class clock class_name reason st t = (
    st
        ++ test_skip (clock 1) (test_signal (some reason) none)
            (test_begin (clock 0) (new_record (codes "skip_class") (some class_name)))
          ∷ [],
    record t { executed = t.executed ++ length st ∷ []; skipped = t.skipped ++ length st ∷ [] },
  )

-- `e` as `str(e)`
unfoldable pub fail_class : Str → Str → TestResult → TestResult
fail_class class_name e t = record t {
  class_errors = t.class_errors ++ (class_name ++ codes ": " ++ e) ∷ [];
}

unfoldable pub set_test_module_keys : Str → ℕ → TestResult → TestResult
set_test_module_keys name start_timestamp t = record t {
  test_module_name = some name;
  test_module_timestamp = some start_timestamp;
}

-- The names of two results; `none` is the TypeError.
unfoldable pub merge_names : Option Str → Option Str → Option (Option Str)
merge_names none r = some r
merge_names (some l) none = some (some l)
merge_names (some l) (some r) = if str_eq l r then some (some l) else none

unfoldable pub merge_timestamps : Option ℕ → Option ℕ → Option ℕ
merge_timestamps none r = r
merge_timestamps (some l) none = some l
merge_timestamps (some l) (some r) = if ltb l r then some l else some r

-- `__add__` of two results, after the report; `none` is the TypeError.
unfoldable pub concatenate : TestResult → TestResult → Option TestResult
concatenate t r = elim (merge_names t.test_module_name r.test_module_name) [
  | none ↦ none
  | some name ↦ some (record {
    requested = t.requested ++ r.requested;
    failed = t.failed ++ r.failed;
    executed = t.executed ++ r.executed;
    passed = t.passed ++ r.passed;
    skipped = t.skipped ++ r.skipped;
    error = t.error ++ r.error;
    test_module_name = name;
    test_module_timestamp = merge_timestamps t.test_module_timestamp r.test_module_timestamp;
    class_errors = t.class_errors ++ r.class_errors;
  })
]

-- `__add__` of two different results, with the store and the right operand that the report leaves.
module _ {X : Type 0} where
  unfoldable pub add :
      (ℕ → ℕ) → Store X → TestResult → TestResult → Store X × TestResult × Option TestResult
  unfolding report_non_executed_record concatenate
  add clock st t r =
      let reported = report_non_executed_record clock st r in
      (reported.0, reported.1, concatenate t reported.1)

-- The records of `jsonString`.
unfoldable pub json_records : TestResult → List ℕ
json_records t =
    merge_unique_keep_order (t.executed ∷ t.failed ∷ t.passed ∷ t.skipped ∷ t.error ∷ [])

-- `summaryDict`
pub record Summary : Type 0 where
  pub requested : ℕ
  pub executed : ℕ
  pub passed : ℕ
  pub failed : ℕ
  pub skipped : ℕ
  pub error : ℕ

unfoldable pub summary_dict : TestResult → Summary
summary_dict t = record {
  requested = length t.requested;
  executed = length t.executed;
  passed = length t.passed;
  failed = length t.failed;
  skipped = length t.skipped;
  error = length t.error;
}
