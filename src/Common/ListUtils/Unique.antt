-- ===== src/Common/ListUtils/Unique.antt =====
-- What removing duplicates keeps: list_utils.MergeUniqueKeepOrder and DeduplicateKeepOrder.
use mathlib.Core.List.{append-nil}
use test_vts.Base.{
  Distinct, ◌≡◌, refl, ap, ◌∙◌, true, not, ◌&&◌, List, [], ◌∷◌, ◌++◌, inl, inr, arith, Eq, elem,
  elem-append, beq_refl, Bool-cases,
}
use test_vts.Common.ListUtils.{chain, unique_from, merge_unique_keep_order, deduplicate_keep_order}

module _ {ℓ} {A : Type ℓ} ⦃e : Eq A⦄ where
  beq_swap : (a x : A) (seen : List A) → e.beq a x ≡ true → elem a seen ≡ elem x seen
  beq_swap a x seen h = ap (λ y. elem y seen) ((e.decides a x).0 h)

  pub elem-unique_from :
      (a : A) (seen xs : List A) → elem a (unique_from seen xs) ≡ (elem a xs && not (elem a seen))
  unfolding unique_from
  elem-unique_from a seen [] = refl
  elem-unique_from a seen (x ∷ xs) =
      ground
        (arith, elem-unique_from a seen xs, elem-unique_from a (x ∷ seen) xs, beq_swap a x seen)

  pub Distinct-unique_from : (seen xs : List A) → Distinct (unique_from seen xs)
  unfolding unique_from
  Distinct-unique_from seen [] = tt
  Distinct-unique_from seen (x ∷ xs) = elim (Bool-cases (elem x seen)) [
    | inl old ↦ rw old (Distinct-unique_from seen xs)
    | inr new ↦ rw new (
      elem-unique_from x (x ∷ seen) xs ∙ ground (arith, beq_refl x),
      Distinct-unique_from (x ∷ seen) xs,
    )
  ]

  -- `seen` is used as a set: only its membership test matters.
  pub unique_from-same :
      (s t xs : List A) → ((a : A) → elem a s ≡ elem a t) → unique_from s xs ≡ unique_from t xs
  unfolding unique_from
  unique_from-same s t [] h = refl
  unique_from-same s t (x ∷ xs) h = ground (
    arith,
    h x,
    unique_from-same s t xs h,
    unique_from-same (x ∷ s) (x ∷ t) xs (λ a. ground (arith, h a)),
  )

  in_middle : (a x : A) (s t : List A) → elem a (x ∷ s ++ t) ≡ elem a (s ++ x ∷ t)
  in_middle a x s t = ground (arith, elem-append a s t, elem-append a s (x ∷ t))

  kept_once :
      (x : A) (s t : List A) → elem x t ≡ true → (a : A) → elem a (s ++ t) ≡ elem a (x ∷ s ++ t)
  kept_once x s t h a = ground (arith, elem-append a s t, beq_swap a x t)

  pub unique_from-append :
      (s xs ys : List A) → unique_from s (xs ++ ys) ≡ unique_from s xs ++ unique_from (xs ++ s) ys
  unfolding unique_from
  unique_from-append s [] ys = refl
  unique_from-append s (x ∷ xs) ys = ground (
    arith,
    unique_from-append s xs ys,
    unique_from-append (x ∷ s) xs ys,
    λ (h : elem x s ≡ true). unique_from-same (xs ++ s) (x ∷ xs ++ s) ys (kept_once x xs s h),
    unique_from-same (x ∷ xs ++ s) (xs ++ x ∷ s) ys (λ a. in_middle a x xs s),
  )

  -- The result holds every element of the lists, and no element twice.
  pub merge_unique_keep_order-Distinct :
      (lists : List (List A))
      → Distinct (merge_unique_keep_order lists)
        × ((a : A) → elem a (merge_unique_keep_order lists) ≡ elem a (chain lists))
  unfolding merge_unique_keep_order
  merge_unique_keep_order-Distinct lists = (
    Distinct-unique_from [] (chain lists),
    λ a. ground (arith, elem-unique_from a [] (chain lists)),
  )

  pub deduplicate_unique : (xs : List A) → deduplicate_keep_order xs ≡ unique_from [] xs
  unfolding deduplicate_keep_order
  deduplicate_unique xs = rw append-nil
