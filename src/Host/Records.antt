-- ===== src/Host/Records.antt =====
-- runners/host/records.py: the record of a test case, and the result of a test run. Records are
-- objects that the lists of a result share: they stand in a store, and a list holds positions.
pub mod Result
pub mod Tallies
pub mod Requested
pub mod Merge
use test_vts.Base.{
  ℕ, ◌+◌, Bool, true, false, List, [], ◌∷◌, ◌++◌, Option, none, some, is_empty, if◌then◌else◌,
}
use test_vts.Base.Text.{Str, codes, str_eq}

-- `TestResultEnums.TEST_RESULT_*`
pub data Token : Type 0 where
  pass fail skip error : Token

-- The `e` of a test's end: `None`, a TestSignal, another exception or a text, with its `str(e)`.
-- `X` is the type of the data that a user gives.
pub data Ending (X : Type 0) : Type 0 where
  no_ending : Ending X
  test_signal : Option Str → Option X → Ending X
  other_exception message_text : Str → Ending X

pub record TestResultRecord (X : Type 0) : Type 0 where
  pub test_name : Str
  pub test_class : Option Str
  pub begin_time : Option ℕ
  pub end_time : Option ℕ
  pub uid : Option Str
  pub result : Option Token
  pub extras : Option X
  pub details : Option Str
  pub extra_errors : List (Str × Str)
  pub tables : List (Str × X)

-- `d[key] = value` of a dictionary in the order of its keys' insertion
unfoldable pub put {ℓ} : {A : Type ℓ} → Str → A → List (Str × A) → List (Str × A)
put key value [] = (key, value) ∷ []
put key value ((k, v) ∷ d) =
    let rest = put key value d in if str_eq k key then (k, value) ∷ d else (k, v) ∷ rest

module _ {X : Type 0} where
  unfoldable pub new_record : Str → Option Str → TestResultRecord X
  new_record t_name t_class = record {
    test_name = t_name;
    test_class = t_class;
    begin_time = none;
    end_time = none;
    uid = none;
    result = none;
    extras = none;
    details = none;
    extra_errors = [];
    tables = [];
  }

  -- `'%s.%s' % (self.test_class, self.test_name)`
  unfoldable pub fullname : TestResultRecord X → Str
  fullname r = (elim r.test_class [ none ↦ codes "None" | some c ↦ c ]) ++ codes "." ++ r.test_name

  unfoldable pub is_same_test_case : TestResultRecord X → TestResultRecord X → Bool
  unfolding fullname
  is_same_test_case r record' = str_eq (fullname r) (fullname record')

  -- `now` is the reading of `utils.get_current_epoch_time()`.
  unfoldable pub test_begin : ℕ → TestResultRecord X → TestResultRecord X
  test_begin now r = record r { begin_time = some now }

  unfoldable pub set_ending : Ending X → TestResultRecord X → TestResultRecord X
  set_ending no_ending r = r
  set_ending (test_signal details extras) r = record r { details = details; extras = extras }
  set_ending (other_exception text) r = record r { details = some text }
  set_ending (message_text text) r = if is_empty text then r else record r { details = some text }

  -- `_testEnd`
  unfoldable pub test_end : ℕ → Token → Ending X → TestResultRecord X → TestResultRecord X
  unfolding set_ending
  test_end now result e r = set_ending e (record r { end_time = some now; result = some result })

  unfoldable pub test_pass : ℕ → Ending X → TestResultRecord X → TestResultRecord X
  unfolding test_end
  test_pass now e r = test_end now pass e r

  unfoldable pub test_fail : ℕ → Ending X → TestResultRecord X → TestResultRecord X
  unfolding test_end
  test_fail now e r = test_end now fail e r

  unfoldable pub test_skip : ℕ → Ending X → TestResultRecord X → TestResultRecord X
  unfolding test_end
  test_skip now e r = test_end now skip e r

  unfoldable pub test_error : ℕ → Ending X → TestResultRecord X → TestResultRecord X
  unfolding test_end
  test_error now e r = test_end now error e r

  -- `str(e)` is the text.
  unfoldable pub add_error : Str → Str → TestResultRecord X → TestResultRecord X
  unfolding put
  add_error tag text r = record r {
    result = some error;
    extra_errors = put tag text r.extra_errors;
  }

  unfoldable pub add_table : Str → X → TestResultRecord X → TestResultRecord X
  unfolding put
  add_table name rows r = record r { tables = put name rows r.tables }
