-- ===== src/Base/Arrays.antt =====
-- Lists used as arrays, and sums over lists from which an element is taken.
use mathlib.Core.Path.{ap₂}
use test_vts.Base.{
  ◌∙◌, ℕ, zero, suc, ◌≡◌, ◌⊎◌, inl, inr, refl, ap, Bool-cases, true, false, ◌&&◌, List, [], ◌∷◌,
  arith, ◌==◌, ltb, length, get_or, set, is_empty, elem, remove, others, Distinct, nat_eq,
  if◌then◌else◌,
}
use test_vts.Base.Int.{ℤ, pos, ◌+ℤ◌, sum_by, int_laws}

module _ {ℓ} {A : Type ℓ} where
  pub get_or-set :
      (l : List A) (i j : ℕ) (v d : A)
      → get_or (set l i v) j d ≡ (if i == j && ltb i (length l) then v else get_or l j d)
  get_or-set [] i j v d = ground arith
  get_or-set (x ∷ l) zero zero v d = ground arith
  get_or-set (x ∷ l) zero (suc j) v d = ground arith
  get_or-set (x ∷ l) (suc i) zero v d = ground arith
  get_or-set (x ∷ l) (suc i) (suc j) v d = ground (arith, get_or-set l i j v d)

  pub get_or_outside : (l : List A) (i : ℕ) (d : A) → ltb i (length l) ≡ false → get_or l i d ≡ d
  get_or_outside [] i d h = refl
  get_or_outside (x ∷ l) zero d h = ground arith
  get_or_outside (x ∷ l) (suc i) d h = get_or_outside l i d (ground arith)

  pub length-set : (l : List A) (i : ℕ) (v : A) → length (set l i v) ≡ length l
  length-set [] i v = refl
  length-set (x ∷ l) zero v = refl
  length-set (x ∷ l) (suc i) v = ap suc (length-set l i v)

pub elem-remove : (a c : ℕ) (l : List ℕ) → elem c (remove a l) ≡ true → elem c l ≡ true
elem-remove a c [] h = h
elem-remove a c (x ∷ l) h = ground (arith, elem-remove a c l)

pub elem-remove_ne :
    (a c : ℕ) (l : List ℕ) → elem c l ≡ true → (c ≡ a) ⊎ (elem c (remove a l) ≡ true)
elem-remove_ne a c [] h = inr h
elem-remove_ne a c (x ∷ l) h = ground (arith, elem-remove_ne a c l)

pub elem-remove_self : (a : ℕ) (l : List ℕ) → Distinct l → elem a (remove a l) ≡ false
elem-remove_self a [] h = refl
elem-remove_self a (x ∷ l) h = ground (arith, h, elem-remove_self a l h.1)

pub Distinct-remove : (a : ℕ) (l : List ℕ) → Distinct l → Distinct (remove a l)
Distinct-remove a [] h = tt
Distinct-remove a (x ∷ l) h = elim (Bool-cases (x == a)) [
  | inl same ↦ rw same h.1
  | inr other ↦ rw other (ground (arith, elem-remove a x l, h.0), Distinct-remove a l h.1)
]

pub others_absent : (a : ℕ) (l : List ℕ) → elem a l ≡ false → others a l ≡ l
others_absent a [] h = refl
others_absent a (x ∷ l) h = ground (arith, others_absent a l)

-- In a list of distinct elements one summand can be split off.
pub sum_by-others :
    (f : ℕ → ℤ) (a : ℕ) (l : List ℕ)
    → Distinct l
    → elem a l ≡ true
    → sum_by f l ≡ f a +ℤ sum_by f (others a l)
unfolding sum_by
sum_by-others f a [] d h = cc
sum_by-others f a (x ∷ l) d h = elim (Bool-cases (x == a)) [
  | inl same ↦
      let e : x ≡ a = ground arith in
      let gone : others a l ≡ l = others_absent a l (rw e at (d.0)) in
      rw (same, gone) (ap (λ y. f y +ℤ sum_by f l) e)
  | inr other ↦
      let rest = sum_by-others f a l d.1 (ground arith) in rw other (rw rest (omega int_laws))
]

pub sum_by-remove_zero :
    (f : ℕ → ℤ) (a : ℕ) (l : List ℕ) → f a ≡ pos 0 → sum_by f (remove a l) ≡ sum_by f l
unfolding sum_by
sum_by-remove_zero f a [] z = refl
sum_by-remove_zero f a (x ∷ l) z = elim (Bool-cases (x == a)) [
  | inl same ↦ let e : f x ≡ pos 0 = ap f (ground arith) ∙ z in rw same (rw e (omega int_laws))
  | inr other ↦ rw other (ap (λ y. f x +ℤ y) (sum_by-remove_zero f a l z))
]

pub sum_by-same :
    (f g : ℕ → ℤ) (l : List ℕ) → ((a : ℕ) → elem a l ≡ true → f a ≡ g a) → sum_by f l ≡ sum_by g l
unfolding sum_by
sum_by-same f g [] h = refl
sum_by-same f g (x ∷ l) h =
    ap₂ ◌+ℤ◌ (h x (ground arith)) (sum_by-same f g l (λ a m. h a (ground arith)))

pub is_empty-remove : (a : ℕ) (l : List ℕ) → is_empty (remove a l) ≡ false → is_empty l ≡ false
is_empty-remove a [] h = h
is_empty-remove a (x ∷ l) h = refl
