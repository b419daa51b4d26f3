-- ===== src/Host/Requests.antt =====
-- The tests that a test class of runners/host/base_test.py requests: the list that `run` makes, and
-- what `runGeneratedTests` appends to it.
use test_vts.Base.{ℕ, zero, suc, Bool, List, [], ◌∷◌, ◌++◌, Option, length, if◌then◌else◌}
use test_vts.Base.Text.{Str, codes, starts_with}
use test_vts.Host.Records.{TestResultRecord, new_record}
use test_vts.Host.Records.Result.{Store, TestResult}

-- `STR_TEST`
abbrev pub test_prefix : Str
test_prefix = codes "test"

-- So many positions, from one on.
abbrev positions : ℕ → ℕ → List ℕ
positions at zero = []
positions at (suc n) = at ∷ positions (suc at) n

module _ {X : Type 0} where
  -- The records of the tests whose names begin with the prefix.
  unfoldable pub requested_records : List Str → Option Str → List (TestResultRecord X)
  unfolding new_record
  requested_records [] module_name = []
  requested_records (name ∷ names) module_name =
      let rest = requested_records names module_name in
      if starts_with test_prefix name then new_record name module_name ∷ rest else rest

  -- The assignment to `requested` in `run`, which a self test of the framework leaves out. The new
  -- records stand at the end of the store.
  unfoldable pub set_requested :
      Bool → List Str → Option Str → Store X → TestResult → Store X × TestResult
  unfolding requested_records
  set_requested is_self_test names module_name st t =
      let made = requested_records names module_name in
      if is_self_test
      then (st, t)
      else (st ++ made, record t { requested = positions (length st) (length made) })

  -- The first loop of `runGeneratedTests`, of the generated names.
  unfoldable pub request_generated :
      List Str → Option Str → Store X → TestResult → Store X × TestResult
  unfolding new_record
  request_generated [] module_name st t = (st, t)
  request_generated (name ∷ names) module_name st t =
      request_generated names module_name (st ++ new_record name module_name ∷ [])
        (record t { requested = t.requested ++ length st ∷ [] })
