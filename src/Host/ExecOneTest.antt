-- ===== src/Host/ExecOneTest.antt =====
-- runners/host/base_test.py: `execOneTest`, from what the test case does to its record. The body of
-- the `try` (the filters, the set-up, the test function, the tear-down), the procedure functions and
-- `Heal` are code of test scripts and of devices: what they do is an argument.
pub mod Recorded
pub mod Added
use test_vts.Base.{
  ℕ, ◌+◌, Bool, true, false, not, ◌&&◌, List, [], ◌∷◌, ◌++◌, Option, none, some, length, set,
  if◌then◌else◌,
}
use test_vts.Base.Text.{Str, codes}
use test_vts.Host.Records.{
  Ending, no_ending, TestResultRecord, new_record, test_begin, test_pass, test_fail, test_skip,
  test_error, add_error,
}
use test_vts.Host.Records.Result.{Store, TestResult, deref, remove_record, add_record}

-- How the body of the `try` ends. A verdict of `none` is None.
pub data Outcome (X : Type 0) : Type 0 where
  returned : Option Bool → Outcome X
  failure skipped passed other_error : Ending X → Outcome X
  abort_class abort_all timeout keyboard_interrupt adb_error : Ending X → Outcome X
  silent unhandled : Outcome X

pub data Procedure : Type 0 where
  on_fail on_pass on_skip on_silent on_exception : Procedure

-- What a procedure function does: return, raise TestAbortAll, raise a BaseException that is no
-- Exception, as KeyboardInterrupt, or raise another exception.
pub data ProcedureEnd : Type 0 where
  procedure_returned procedure_aborted procedure_interrupted : ProcedureEnd
  procedure_failed : Str → ProcedureEnd

-- What `execOneTest` does: return, or raise.
pub data Flow : Type 0 where
  goes_on raises_abort_class raises_abort_all raises_interrupt raises_unhandled : Flow

-- The loop over the devices before a test case is marked as timed out: a device has no shell, or
-- `DisableShell` returns or raises.
unfoldable pub disable_shells : List (Option Flow) → Flow
disable_shells [] = goes_on
disable_shells (none ∷ devices) = disable_shells devices
disable_shells (some goes_on ∷ devices) = disable_shells devices
disable_shells (some flow ∷ devices) = flow

pub record Run (X : Type 0) : Type 0 where
  pub store : Store X
  pub results : TestResult
  pub is_final_run : Bool

-- The run after a handler, the local variables `finished` and `is_silenced`, and what is raised.
pub record Handled (X : Type 0) : Type 0 where
  pub run : Run X
  pub finished : Bool
  pub is_silenced : Bool
  pub flow : Flow

abbrev pub procedure_name : Procedure → Str
procedure_name on_fail = codes "_onFail"
procedure_name on_pass = codes "_onPass"
procedure_name on_skip = codes "_onSkip"
procedure_name on_silent = codes "_onSilent"
procedure_name on_exception = codes "_onException"

-- The procedures that wait for the final run of a test case that is retried.
abbrev pub needs_final_run : Procedure → Bool
needs_final_run on_fail = true
needs_final_run on_exception = true
needs_final_run _ = false

module _ {X : Type 0} where
  -- A method call on the record `i`.
  unfoldable pub update : ℕ → (TestResultRecord X → TestResultRecord X) → Run X → Run X
  unfolding deref
  update i f r = record r { store = set r.store i (f (deref r.store i)) }

  -- The `try` of `_exec_procedure_func`.
  unfoldable pub run_procedure : ProcedureEnd → ℕ → Procedure → Run X → Run X × Flow
  unfolding update
  run_procedure procedure_returned i p r = (r, goes_on)
  run_procedure procedure_aborted i p r = (r, raises_abort_all)
  run_procedure procedure_interrupted i p r = (r, raises_interrupt)
  run_procedure (procedure_failed text) i p r =
      (update i (add_error (procedure_name p) text) r, goes_on)

  -- `_exec_procedure_func`, for a current record
  unfoldable pub exec_procedure : (Procedure → ProcedureEnd) → ℕ → Procedure → Run X → Run X × Flow
  unfolding run_procedure
  exec_procedure proc i p r =
      if needs_final_run p && not r.is_final_run then (r, goes_on) else run_procedure (proc p) i p r

  -- A handler that calls one procedure and then sets `finished`.
  unfoldable pub after_procedure : Bool → Bool → Run X × Flow → Handled X
  after_procedure finished is_silenced (r, goes_on) = record {
    run = r;
    finished = true;
    is_silenced = is_silenced;
    flow = goes_on;
  }
  after_procedure finished is_silenced (r, flow) = record {
    run = r;
    finished = finished;
    is_silenced = is_silenced;
    flow = flow;
  }

  -- A handler that marks a failure and passes the signal on.
  unfoldable pub abort : ℕ → ℕ → Ending X → Flow → Run X → Handled X
  unfolding update
  abort now i e flow r = record {
    run = record (update i (test_fail now e) r) { is_final_run = true };
    finished = true;
    is_silenced = false;
    flow = flow;
  }

  -- `_onException`, and `_onFail` unless it raised.
  unfoldable pub then_on_fail : (Procedure → ProcedureEnd) → ℕ → Run X × Flow → Run X × Flow
  unfolding exec_procedure
  then_on_fail proc i (r, goes_on) = exec_procedure proc i on_fail r
  then_on_fail proc i (r, flow) = (r, flow)

  unfoldable pub both_procedures : (Procedure → ProcedureEnd) → ℕ → Run X → Run X × Flow
  unfolding then_on_fail exec_procedure
  both_procedures proc i r = then_on_fail proc i (exec_procedure proc i on_exception r)

  -- The removal of a silent record, after its procedure.
  unfoldable pub remove_silent : ℕ → Run X × Flow → Run X × Flow
  remove_silent i (r, goes_on) =
      (record r { results = remove_record r.store i true r.results }, goes_on)
  remove_silent i (r, flow) = (r, flow)

  -- The `except` clauses and the `else` clause, for `finished` as the body leaves it.
  unfoldable pub handle :
      (Procedure → ProcedureEnd) → Bool → ℕ → ℕ → Bool → Outcome X → Run X → Handled X
  unfolding exec_procedure after_procedure abort both_procedures remove_silent update
  handle proc heals now i finished (returned (some false)) r =
      after_procedure true false
        (exec_procedure proc i on_fail (update i (test_fail now no_ending) r))
  handle proc heals now i finished (returned verdict) r =
      after_procedure true false
        (exec_procedure proc i on_pass (update i (test_pass now no_ending) r))
  handle proc heals now i finished (failure e) r =
      after_procedure finished false (exec_procedure proc i on_fail (update i (test_fail now e) r))
  handle proc heals now i finished (skipped e) r =
      after_procedure finished false (exec_procedure proc i on_skip (update i (test_skip now e) r))
  handle proc heals now i finished (passed e) r =
      after_procedure finished false (exec_procedure proc i on_pass (update i (test_pass now e) r))
  handle proc heals now i finished (other_error e) r =
      after_procedure finished false (both_procedures proc i (update i (test_error now e) r))
  handle proc heals now i finished (abort_class e) r = abort now i e raises_abort_class r
  handle proc heals now i finished (abort_all e) r = abort now i e raises_abort_all r
  handle proc heals now i finished (timeout e) r = abort now i e raises_abort_all r
  handle proc heals now i finished (keyboard_interrupt e) r = abort now i e raises_interrupt r
  handle proc heals now i finished (adb_error e) r =
      if heals
      then after_procedure finished false
          (exec_procedure proc i on_fail (update i (test_fail now e) r))
      else abort now i e raises_abort_all r
  handle proc heals now i finished silent r =
      after_procedure finished true (remove_silent i (exec_procedure proc i on_silent r))
  handle proc heals now i finished unhandled r = record {
    run = r;
    finished = finished;
    is_silenced = false;
    flow = raises_unhandled;
  }

  -- The end of the `finally` clause, unless a procedure raised in it.
  unfoldable pub record_result : ℕ → Bool → Flow → Run X × Flow → Run X × Flow
  record_result i is_silenced flow (r, goes_on) =
      if is_silenced
      then (r, flow)
      else (record r { results = add_record r.store i r.results }, flow)
  record_result i is_silenced flow (r, raised) = (r, raised)

  -- The `if` of the `finally` clause, for a test case that is not finished.
  unfoldable pub time_out : Flow → (Procedure → ProcedureEnd) → ℕ → ℕ → Run X → Run X × Flow
  unfolding both_procedures update
  time_out goes_on proc now i r = both_procedures proc i (update i (test_error now no_ending) r)
  time_out flow proc now i r = (r, flow)

  unfoldable pub finish :
      List (Option Flow) → (Procedure → ProcedureEnd) → ℕ → ℕ → Handled X → Run X × Flow
  unfolding time_out disable_shells record_result
  finish devices proc now i h =
      record_result i h.is_silenced h.flow (
        if h.finished then (h.run, goes_on) else time_out (disable_shells devices) proc now i h.run)

  -- `execOneTest`. `retry` is the verdict of the filter of a retry run, `devices` what disabling their
  -- shells does, `proc` and `late` what the procedures do in a handler and in the `finally` clause, `finished` whether the test function has
  -- returned.
  unfoldable pub exec_one_test :
      Option Bool
      → List (Option Flow)
      → (Procedure → ProcedureEnd)
      → (Procedure → ProcedureEnd)
      → Bool
      → (ℕ → ℕ)
      → Str
      → Option Str
      → Bool
      → Outcome X
      → Run X
      → Run X × Flow
  unfolding handle finish
  exec_one_test (some false) devices proc late heals clock name module_name finished outcome r =
      (r, goes_on)
  exec_one_test retry devices proc late heals clock name module_name finished outcome r =
      let i = length r.store in
      let begun = test_begin (clock 0) (new_record name module_name) in
      let started : Run X = record r { store = r.store ++ begun ∷ [] } in
      finish devices late (clock 2) i (handle proc heals (clock 1) i finished outcome started)
