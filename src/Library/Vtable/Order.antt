-- ===== src/Library/Vtable/Order.antt =====
-- utils/python/library/vtable/vtable_dumper.py: the order of the sorted lists.
use mathlib.Core.Path.{subst}
use test_vts.Base.{
  ap, ℕ, zero, suc, ◌≤◌, ◌≡◌, Bool-cases, inl, inr, some, List, [], ◌∷◌, arith, leb, get_elem?, set,
  All,
}
use test_vts.Library.Vtable.{insert, sort}

module _ {ℓ κ} {A : Type ℓ} (P : A → Type κ) where
  pub All-get_elem? : (l : List A) (i : ℕ) (a : A) → All P l → get_elem? l i ≡ some a → P a
  All-get_elem? [] i a h e = cc
  All-get_elem? (x ∷ l) zero a h e = let same : x ≡ a = cc in subst P same h.0
  All-get_elem? (x ∷ l) (suc i) a h e = All-get_elem? l i a h.1 e

  pub All-set : (l : List A) (i : ℕ) (a : A) → All P l → P a → All P (set l i a)
  All-set [] i a h p = tt
  All-set (x ∷ l) zero a h p = (p, h.1)
  All-set (x ∷ l) (suc i) a h p = (h.0, All-set l i a h.1 p)

  pub All-insert : (key : A → ℕ) (a : A) (l : List A) → P a → All P l → All P (insert key a l)
  unfolding insert
  All-insert key a [] p h = (p, tt)
  All-insert key a (b ∷ l) p h = elim (Bool-cases (leb (key a) (key b))) [
    | inl before ↦ rw before (p, h)
    | inr after ↦ rw after (h.0, All-insert key a l p h.1)
  ]

  pub All-sort : (key : A → ℕ) (l : List A) → All P l → All P (sort key l)
  unfolding sort
  All-sort key [] h = tt
  All-sort key (a ∷ l) h = All-insert key a (sort key l) h.0 (All-sort key l h.1)

module _ {ℓ} {A : Type ℓ} (key : A → ℕ) where
  abbrev pub Ordered : List A → Type 0
  Ordered [] = Unit
  Ordered (a ∷ l) = All (λ b. key a ≤ key b) l × Ordered l

  All-le : (m n : ℕ) (l : List A) → m ≤ n → All (λ b. n ≤ key b) l → All (λ b. m ≤ key b) l
  All-le m n [] h g = tt
  All-le m n (b ∷ l) h g = (let first = g.0 in omega (arith, first), All-le m n l h g.1)

  insert-Ordered : (a : A) (l : List A) → Ordered l → Ordered (insert key a l)
  unfolding insert
  insert-Ordered a [] h = (tt, tt)
  insert-Ordered a (b ∷ l) h = elim (Bool-cases (leb (key a) (key b))) [
    | inl before ↦
        let le : key a ≤ key b = ground arith in
        rw before ((le, All-le (key a) (key b) l le h.0), h)
    | inr after ↦
        rw after
          (All-insert (λ x. key b ≤ key x) key a l (ground arith) h.0, insert-Ordered a l h.1)
  ]

  pub sort-Ordered : (l : List A) → Ordered (sort key l)
  unfolding sort
  sort-Ordered [] = tt
  sort-Ordered (a ∷ l) = insert-Ordered a (sort key l) (sort-Ordered l)

  -- An element may be replaced by one of the same key.
  pub set-Ordered :
      (l : List A) (i : ℕ) (a b : A)
      → get_elem? l i ≡ some a
      → key b ≡ key a
      → Ordered l
      → Ordered (set l i b)
  set-Ordered [] i a b e s h = tt
  set-Ordered (x ∷ l) zero a b e s h =
      let same : x ≡ a = cc in
      let le : key b ≤ key x = omega (arith, s, ap key same) in
      (All-le (key b) (key x) l le h.0, h.1)
  set-Ordered (x ∷ l) (suc i) a b e s h =
      let above = All-get_elem? (λ y. key x ≤ key y) l i a h.0 e in
      (
        All-set (λ y. key x ≤ key y) l i b h.0 (omega (arith, above, s)),
        set-Ordered l i a b e s h.1,
      )
