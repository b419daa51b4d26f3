-- ===== src/Host/Tests.antt =====
-- The theorems of runners/host at concrete inputs.
use test_vts.Base.{
  true, false, none, ◌+◌, ◌≡◌, refl, not, ◌&&◌, [], ◌∷◌, some, elem, length, nat_eq,
}
use test_vts.Base.Text.{Str, codes}
use test_vts.Host.Records.{new_record, test_fail, no_ending, message_text}
use test_vts.Host.Records.Result.{
  Store, TestResult, new_result, add_record, same_case, get_non_executed_records, add, summary_dict,
  merge_names, merge_timestamps,
}
use test_vts.Host.Requests.{set_requested}
use test_vts.Host.ExecOneTest.{
  Run, Flow, Procedure, ProcedureEnd, procedure_returned, procedure_aborted, failure, exec_one_test,
}
use test_vts.Host.Records.Tallies.{Reached, start, requests_set, added, Reached-summary}
use test_vts.Host.Records.Requested.{get_non_executed_records-add_record}
use test_vts.Host.Records.Merge.{add-summary}

-- Two test cases of one class; the first one has failed.
abbrev two_records : Store Str
two_records =
    test_fail 2 no_ending (new_record (codes "a") (some (codes "T")))
    ∷ new_record (codes "b") (some (codes "T"))
    ∷ []

abbrev requested_both : TestResult
requested_both = record new_result { requested = 0 ∷ 1 ∷ [] }

-- The two tests of a class are requested; then the first one is executed.
abbrev requested_run : Store Str × TestResult
requested_run =
    set_requested false (codes "test_a" ∷ codes "helper" ∷ codes "test_b" ∷ []) (some (codes "T"))
      [] new_result

requested_positions : requested_run.1.requested ≡ 0 ∷ 1 ∷ []
unfolding set_requested
requested_positions = refl

requested_run-Reached : Reached requested_run.0 requested_run.1
requested_run-Reached =
    requests_set false (codes "test_a" ∷ codes "helper" ∷ codes "test_b" ∷ []) (some (codes "T")) []
      new_result (start [])

abbrev one_run : TestResult
one_run = add_record requested_run.0 0 requested_run.1

one_run-Reached : Reached requested_run.0 one_run
one_run-Reached = added requested_run.0 0 requested_run.1 requested_run-Reached

Reached-summary_example :
    (summary_dict one_run).executed
    ≡ (summary_dict one_run).failed
      + (summary_dict one_run).passed
      + (summary_dict one_run).skipped
      + (summary_dict one_run).error
Reached-summary_example = Reached-summary requested_run.0 one_run one_run-Reached

get_non_executed_records-add_record_example :
    elem 1 (get_non_executed_records two_records (add_record two_records 0 requested_both)) ≡ (
      elem 1 (get_non_executed_records two_records requested_both)
      && not (same_case two_records 1 0))
get_non_executed_records-add_record_example =
    get_non_executed_records-add_record two_records 0 1 requested_both

abbrev joined : TestResult
joined = record new_result { requested = 0 ∷ 1 ∷ []; error = 0 ∷ 1 ∷ [] }

joins : (add (λ n. n) two_records new_result requested_both).2 ≡ some joined
unfolding add new_result merge_names merge_timestamps
joins = refl

add-summary_example :
    (summary_dict joined).error
    ≡ (summary_dict new_result).error
      + (summary_dict requested_both).error
      + length (get_non_executed_records two_records requested_both)
add-summary_example = (add-summary (λ n. n) two_records new_result requested_both joined joins).5

-- A run of one test case that fails, in the final run of its class.
abbrev fresh_run : Run Str
fresh_run = record { store = []; results = new_result; is_final_run = true }

abbrev quiet : Procedure → ProcedureEnd
quiet p = procedure_returned

abbrev aborting : Procedure → ProcedureEnd
aborting p = procedure_aborted

abbrev failed_run : Run Str × Flow
failed_run =
    exec_one_test none [] quiet quiet true (λ n. n) (codes "a") none false
      (failure (message_text (codes "no"))) fresh_run

-- The same after the tests have been requested.
abbrev requested_before : Run Str
requested_before = record {
  store = requested_run.0;
  results = requested_run.1;
  is_final_run = true;
}

abbrev failed_test : Run Str × Flow
failed_test =
    exec_one_test none [] quiet quiet true (λ n. n) (codes "test_a") (some (codes "T")) false
      (failure (message_text (codes "no"))) requested_before

abbrev aborted_run : Run Str × Flow
aborted_run =
    exec_one_test none [] aborting aborting true (λ n. n) (codes "a") none false
      (failure (message_text (codes "no"))) fresh_run
