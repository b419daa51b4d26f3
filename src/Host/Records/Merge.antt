-- ===== src/Host/Records/Merge.antt =====
-- runners/host/records.py: the report of what was not executed, and the sum of two results.
use mathlib.Core.List.{append_assoc, append-nil}
use test_vts.Base.{
  ap, sym, ℕ, ◌+◌, ◌≡◌, ◌∙◌, List, [], ◌∷◌, ◌++◌, some, arith, length, length-append,
}
use test_vts.Host.Records.Result.{
  Store, TestResult, get_non_executed_records, report, report_non_executed_record, concatenate, add,
  summary_dict,
}

module _ {X : Type 0} where
  report-result :
      (l : List ℕ) (clock : ℕ → ℕ) (st : Store X) (t : TestResult)
      → (report clock l st t).1 ≡ record t { error = t.error ++ l }
  unfolding report
  report-result [] clock st t =
      ap (λ (e : List ℕ). record t { error = e }) (sym (append-nil t.error))
  report-result (i ∷ l) clock st t =
      report-result l (λ n. clock (n + 2)) _ _
      ∙ ap (λ (e : List ℕ). record t { error = e }) (append_assoc t.error (i ∷ []) l)

  -- The report changes the records and appends those that were not executed to the errors; no other
  -- list changes.
  pub report_non_executed_record-result :
      (clock : ℕ → ℕ) (st : Store X) (t : TestResult)
      → (report_non_executed_record clock st t).1
        ≡ record t { error = t.error ++ get_non_executed_records st t }
  unfolding report_non_executed_record
  report_non_executed_record-result clock st t =
      report-result (get_non_executed_records st t) clock st t

  -- A sum adds up the summaries, and counts what was requested of the right operand and not executed
  -- as an error.
  pub add-summary :
      (clock : ℕ → ℕ) (st : Store X) (t r sum : TestResult)
      → (add clock st t r).2 ≡ some sum
      → ((summary_dict sum).requested ≡ (summary_dict t).requested + (summary_dict r).requested)
        × ((summary_dict sum).executed ≡ (summary_dict t).executed + (summary_dict r).executed)
        × ((summary_dict sum).passed ≡ (summary_dict t).passed + (summary_dict r).passed)
        × ((summary_dict sum).failed ≡ (summary_dict t).failed + (summary_dict r).failed)
        × ((summary_dict sum).skipped ≡ (summary_dict t).skipped + (summary_dict r).skipped)
        × ((summary_dict sum).error
            ≡ (summary_dict t).error
              + (summary_dict r).error
              + length (get_non_executed_records st r))
  unfolding add concatenate summary_dict
  add-summary clock st t r sum h =
      let reported = report_non_executed_record-result clock st r in
      ground (
        arith,
        reported,
        length-append t.requested r.requested,
        length-append t.executed r.executed,
        length-append t.passed r.passed,
        length-append t.failed r.failed,
        length-append t.skipped r.skipped,
        length-append t.error (r.error ++ get_non_executed_records st r),
        length-append r.error (get_non_executed_records st r),
      )
