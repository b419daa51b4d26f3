-- ===== src/Host/Records/Requested.antt =====
-- runners/host/records.py: the requested tests that have not been executed, and their report.
use test_vts.Base.{
  ap, ℕ, ◌≡◌, refl, ◌∙◌, true, false, not, ◌&&◌, List, [], ◌∷◌, ◌++◌, arith, ◌==◌, elem, any,
  any-append, nat_eq, Bool-cases, inl, inr,
}
use test_vts.Base.Text.{str_eq_iff}
use test_vts.Host.Records.{is_same_test_case, fullname}
use test_vts.Host.Records.Result.{
  Store, TestResult, deref, same_case, remove_same, remove_record, file_record, add_record,
  found_in, non_executed, get_non_executed_records,
}

module _ {X : Type 0} (st : Store X) where
  -- Having the same full name is an equivalence.
  same_case_trans :
      (i j k : ℕ) → same_case st i j ≡ true → same_case st j k ≡ true → same_case st i k ≡ true
  unfolding same_case is_same_test_case
  same_case_trans i j k h h' =
      let a = fullname (deref st i) in
      let b = fullname (deref st j) in
      let c = fullname (deref st k) in
      (str_eq_iff a c).1 ((str_eq_iff a b).0 h ∙ (str_eq_iff b c).0 h')

  pub elem-remove_same :
      (rec j : ℕ) (l : List ℕ)
      → elem j (remove_same st rec l) ≡ (elem j l && not (same_case st j rec))
  unfolding remove_same
  elem-remove_same rec j [] = refl
  elem-remove_same rec j (i ∷ l) = elim (Bool-cases (j == i)) [
    | inl same ↦
        let e : j ≡ i = ground arith in
        let e' : same_case st j rec ≡ same_case st i rec = ap (λ k. same_case st k rec) e in
        ground (arith, e', elem-remove_same rec j l)
    | inr other ↦ ground (arith, elem-remove_same rec j l)
  ]

  elem-non_executed :
      (j : ℕ) (executed l : List ℕ)
      → elem j (non_executed st executed l) ≡ (elem j l && not (found_in st j executed))
  unfolding non_executed
  elem-non_executed j executed [] = refl
  elem-non_executed j executed (i ∷ l) = elim (Bool-cases (j == i)) [
    | inl same ↦
        let e : j ≡ i = ground arith in
        let e' : found_in st j executed ≡ found_in st i executed =
          ap (λ k. found_in st k executed) e in
        ground (arith, e', elem-non_executed j executed l)
    | inr other ↦ ground (arith, elem-non_executed j executed l)
  ]

  -- Taking away the records of one test case does not change whether another has been executed.
  any-remove_same :
      (rec j : ℕ) (l : List ℕ)
      → same_case st j rec ≡ false
      → any (same_case st j) (remove_same st rec l) ≡ any (same_case st j) l
  unfolding remove_same
  any-remove_same rec j [] h = refl
  any-remove_same rec j (i ∷ l) h = ground (arith, any-remove_same rec j l, same_case_trans j i rec)

  pub lists-add_record :
      (rec : ℕ) (t : TestResult)
      → ((add_record st rec t).requested ≡ remove_same st rec t.requested)
        × ((add_record st rec t).executed ≡ remove_same st rec t.executed ++ rec ∷ [])
  unfolding add_record remove_record file_record
  lists-add_record rec t = ground arith

  -- `addRecord` makes exactly the requested records of its own test case executed: a record is
  -- reported as not executed afterwards if it was before and has another name.
  pub get_non_executed_records-add_record :
      (rec j : ℕ) (t : TestResult)
      → elem j (get_non_executed_records st (add_record st rec t))
        ≡ (elem j (get_non_executed_records st t) && not (same_case st j rec))
  unfolding get_non_executed_records found_in
  get_non_executed_records-add_record rec j t =
      let u = add_record st rec t in
      elim (Bool-cases (same_case st j rec)) [
        | inl same ↦ ground (
          arith,
          lists-add_record rec t,
          elem-non_executed j u.executed u.requested,
          elem-remove_same rec j t.requested,
        )
        | inr other ↦ ground (
          arith,
          lists-add_record rec t,
          elem-non_executed j u.executed u.requested,
          elem-non_executed j t.executed t.requested,
          elem-remove_same rec j t.requested,
          any-append (same_case st j) (remove_same st rec t.executed) (rec ∷ []),
          any-remove_same rec j t.executed,
        )
      ]
