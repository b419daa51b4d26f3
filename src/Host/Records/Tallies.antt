-- ===== src/Host/Records/Tallies.antt =====
-- runners/host/records.py: the executed records of a `TestResult` are counted once among the failed,
-- passed, skipped and erroneous ones.
use test_vts.Base.{
  ℕ, ◌+◌, ◌≡◌, refl, Bool, true, false, not, ◌&&◌, List, [], ◌∷◌, ◌++◌, Option, none, some, arith,
  length, if◌then◌else◌,
}
use test_vts.Base.Text.{Str}
use test_vts.Host.Records.{Token, pass, fail, skip, error, Ending, TestResultRecord}
use test_vts.Host.Records.Result.{
  Store, TestResult, new_result, fail_class, summary_dict, deref, same_case, remove_same,
  remove_record, file_record, add_record, pass_class, skip_class, set_test_module_keys,
}
use test_vts.Host.Requests.{set_requested, request_generated}

-- How many objects of a list satisfy a test.
abbrev pub count : (ℕ → Bool) → List ℕ → ℕ
count p [] = 0
count p (i ∷ l) = (if p i then 1 else 0) + count p l

count-append : (p : ℕ → Bool) (l m : List ℕ) → count p (l ++ m) ≡ count p l + count p m
count-append p [] m = omega arith
count-append p (i ∷ l) m = omega (arith, count-append p l m)

count_all : (l : List ℕ) → count (λ i. true) l ≡ length l
count_all [] = refl
count_all (i ∷ l) = omega (arith, count_all l)

-- For the test that holds everywhere, the numbers of the records; for the test for one object, that
-- it stands in one of the four lists as often as it has been executed.
pub record IsTallied (t : TestResult) : Type 0 where
  pub tally :
      (p : ℕ → Bool)
      → count p t.executed
        ≡ count p t.failed + count p t.passed + count p t.skipped + count p t.error

module _ {X : Type 0} (st : List (TestResultRecord X)) (rec : ℕ) where
  count-remove_same :
      (p : ℕ → Bool) (l : List ℕ)
      → count p (remove_same st rec l) ≡ count (λ i. p i && not (same_case st i rec)) l
  unfolding remove_same
  count-remove_same p [] = refl
  count-remove_same p (i ∷ l) = ground (arith, count-remove_same p l)

  -- `removeRecord` keeps the tallies.
  pub remove_record-IsTallied :
      (b : Bool) (t : TestResult) → IsTallied t → IsTallied (remove_record st rec b t)
  unfolding remove_record
  remove_record-IsTallied b t h = record {
    tally = λ p. omega (
      arith,
      count-remove_same p t.executed,
      count-remove_same p t.failed,
      count-remove_same p t.passed,
      count-remove_same p t.skipped,
      count-remove_same p t.error,
      h.tally (λ i. p i && not (same_case st i rec)),
    );
  }

  file_record-IsTallied :
      (token : Option Token) (t : TestResult)
      → IsTallied t
      → IsTallied (file_record token rec (record t { executed = t.executed ++ rec ∷ [] }))
  unfolding file_record
  file_record-IsTallied (some fail) t h = record {
    tally = λ p. omega (
      arith,
      h.tally p,
      count-append p t.executed (rec ∷ []),
      count-append p t.failed (rec ∷ []),
    );
  }
  file_record-IsTallied (some skip) t h = record {
    tally = λ p. omega (
      arith,
      h.tally p,
      count-append p t.executed (rec ∷ []),
      count-append p t.skipped (rec ∷ []),
    );
  }
  file_record-IsTallied (some pass) t h = record {
    tally = λ p. omega (
      arith,
      h.tally p,
      count-append p t.executed (rec ∷ []),
      count-append p t.passed (rec ∷ []),
    );
  }
  file_record-IsTallied (some error) t h = record {
    tally = λ p.
        omega (
          arith,
          h.tally p,
          count-append p t.executed (rec ∷ []),
          count-append p t.error (rec ∷ []),
        );
  }
  file_record-IsTallied none t h = record {
    tally = λ p.
        omega (
          arith,
          h.tally p,
          count-append p t.executed (rec ∷ []),
          count-append p t.error (rec ∷ []),
        );
  }

  -- `addRecord` keeps the tallies: what is executed stands as often in the four lists of outcomes.
  pub add_record-IsTallied : (t : TestResult) → IsTallied t → IsTallied (add_record st rec t)
  unfolding add_record
  add_record-IsTallied t h =
      file_record-IsTallied (deref st rec).result (remove_record st rec false t)
        (remove_record-IsTallied false t h)

-- The results that a run of a test class comes to, from an empty one, by the requests of base_test.py
-- and by the operations of `TestResult` that a run calls before the report of the tests that were not
-- executed. Between two of them the records may change in any way.
pub data Reached {X : Type 0} : Store X → TestResult → Type 0 where
  start : (st : Store X) → Reached st new_result
  touched : (st st' : Store X) (t : TestResult) → Reached st t → Reached st' t
  added :
      (st : Store X) (rec : ℕ) (t : TestResult) → Reached st t → Reached st (add_record st rec t)
  removed :
      (st : Store X) (rec : ℕ) (b : Bool) (t : TestResult)
      → Reached st t
      → Reached st (remove_record st rec b t)
  class_passed :
      (clock : ℕ → ℕ) (name : Str) (e : Ending X) (st : Store X) (t : TestResult)
      → Reached st t
      → Reached (pass_class clock name e st t).0 (pass_class clock name e st t).1
  class_skipped :
      (clock : ℕ → ℕ) (name reason : Str) (st : Store X) (t : TestResult)
      → Reached st t
      → Reached (skip_class clock name reason st t).0 (skip_class clock name reason st t).1
  class_failed :
      (name e : Str) (st : Store X) (t : TestResult)
      → Reached st t
      → Reached st (fail_class name e t)
  requests_set :
      (is_self_test : Bool) (names : List Str) (module_name : Option Str) (st : Store X)
      (t : TestResult)
      → Reached st t
      → Reached
          (set_requested is_self_test names module_name st t).0
          (set_requested is_self_test names module_name st t).1
  generated :
      (names : List Str) (module_name : Option Str) (st : Store X) (t : TestResult)
      → Reached st t
      → Reached
          (request_generated names module_name st t).0
          (request_generated names module_name st t).1
  keys_set :
      (name : Str) (start_timestamp : ℕ) (st : Store X) (t : TestResult)
      → Reached st t
      → Reached st (set_test_module_keys name start_timestamp t)

module _ {X : Type 0} where
  -- Requests leave the other lists alone.
  set_requested-IsTallied :
      (is_self_test : Bool) (names : List Str) (module_name : Option Str) (st : Store X)
      (t : TestResult)
      → IsTallied t
      → IsTallied (set_requested is_self_test names module_name st t).1
  unfolding set_requested
  set_requested-IsTallied true names module_name st t h = h
  set_requested-IsTallied false names module_name st t h = record { tally = λ p. h.tally p }

  request_generated-IsTallied :
      (names : List Str) (module_name : Option Str) (st : Store X) (t : TestResult)
      → IsTallied t
      → IsTallied (request_generated names module_name st t).1
  unfolding request_generated
  request_generated-IsTallied [] module_name st t h = h
  request_generated-IsTallied (name ∷ names) module_name st t h =
      request_generated-IsTallied names module_name _ _ (record { tally = λ p. h.tally p })

  Reached-IsTallied : (st : Store X) (t : TestResult) → Reached st t → IsTallied t
  unfolding new_result pass_class skip_class fail_class set_test_module_keys
  Reached-IsTallied st t (start _) = record { tally = λ p. refl }
  Reached-IsTallied st t (touched st' _ _ r) = Reached-IsTallied st' t r
  Reached-IsTallied st t (added _ rec u r) =
      add_record-IsTallied st rec u (Reached-IsTallied st u r)
  Reached-IsTallied st t (removed _ rec b u r) =
      remove_record-IsTallied st rec b u (Reached-IsTallied st u r)
  Reached-IsTallied st t (class_passed clock name e st' u r) =
      let h = Reached-IsTallied st' u r in
      let i = length st' in
      record {
        tally = λ p. omega (
          arith,
          h.tally p,
          count-append p u.executed (i ∷ []),
          count-append p u.passed (i ∷ []),
        );
      }
  Reached-IsTallied st t (class_skipped clock name reason st' u r) =
      let h = Reached-IsTallied st' u r in
      let i = length st' in
      record {
        tally = λ p. omega (
          arith,
          h.tally p,
          count-append p u.executed (i ∷ []),
          count-append p u.skipped (i ∷ []),
        );
      }
  Reached-IsTallied st t (class_failed name e _ u r) =
      let h = Reached-IsTallied st u r in record { tally = λ p. h.tally p }
  Reached-IsTallied st t (requests_set is_self_test names module_name st' u r) =
      set_requested-IsTallied is_self_test names module_name st' u (Reached-IsTallied st' u r)
  Reached-IsTallied st t (generated names module_name st' u r) =
      request_generated-IsTallied names module_name st' u (Reached-IsTallied st' u r)
  Reached-IsTallied st t (keys_set name start_timestamp _ u r) =
      let h = Reached-IsTallied st u r in record { tally = λ p. h.tally p }

  -- In every result that a run of a test class comes to, by the requests of its tests and the
  -- operations on the records, before a report of the tests that were not executed, the
  -- summary's number of executed records is the sum of the failed, passed, skipped and erroneous
  -- ones.
  pub Reached-summary :
      (st : Store X) (t : TestResult)
      → Reached st t
      → (summary_dict t).executed
        ≡ (summary_dict t).failed
          + (summary_dict t).passed
          + (summary_dict t).skipped
          + (summary_dict t).error
  unfolding summary_dict
  Reached-summary st t r =
      let h = Reached-IsTallied st t r in
      omega (
        arith,
        h.tally (λ i. true),
        count_all t.executed,
        count_all t.failed,
        count_all t.passed,
        count_all t.skipped,
        count_all t.error,
      )
