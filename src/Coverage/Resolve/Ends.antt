-- ===== src/Coverage/Resolve/Ends.antt =====
-- The loop of `FunctionSummary.Resolve` in utils/python/coverage/function_summary.py ends.
use native.Mathlib.Decide.{dec_lt}
use native.Mathlib.Nat.{mod-eq_of_lt, mod_self}
use mathlib.Core.Path.{subst}
use test_vts.Base.{
  sym, ℕ, zero, suc, ◌+◌, ◌-◌, ◌%◌, ◌≤◌, ◌<◌, ◌≡◌, ◌≢◌, refl, ◌⊎◌, inl, inr, true, false, ◌&&◌,
  List, [], ◌∷◌, none, arith, ◌==◌, length, get_or, remove, elem, nat_eq, Bool-cases,
}
use test_vts.Coverage.Summary.{Function}
use test_vts.Coverage.Resolve.{resolve_arc, resolve_loop, resolve_fuel, unresolved_in, resolve}

pub elem-get_or : (l : List ℕ) (i d : ℕ) → i < length l → elem (get_or l i d) l ≡ true
elem-get_or [] i d h = absurd (omega arith)
elem-get_or (x ∷ l) zero d h = ground arith
elem-get_or (x ∷ l) (suc i) d h = ground (arith, elem-get_or l i d)

length-remove : (a : ℕ) (l : List ℕ) → elem a l ≡ true → length (remove a l) + 1 ≡ length l
length-remove a [] h = cc
length-remove a (x ∷ l) h = ground (arith, length-remove a l)

-- Enough fuel: for any state of the loop, or for what is left of a round over the `n` arcs in which
-- the last look has not resolved one.
abbrev IsEnough : ℕ → ℕ → ℕ → ℕ → Type 0
IsEnough fuel n index prev_length =
    (resolve_fuel n ≤ fuel)
    ⊎ ((m : ℕ) × (n ≡ suc m)
        × (prev_length ≡ n)
        × (0 < index)
        × (resolve_fuel m + (n - index) + 1 ≤ fuel))

round-position :
    (n index : ℕ)
    → index ≤ suc n
    → (index % suc n ≡ index) × (index ≤ n) ⊎ (index % suc n ≡ 0) × (index ≡ suc n)
round-position n index h = elim (dec_lt index (suc n)) [
  | yes lt ↦ inl (mod-eq_of_lt lt, omega arith)
  | no ge ↦ let e : index ≡ suc n = omega arith in inr (rw e (mod_self (suc n)), e)
]

-- What one look leaves, if it does not end the loop.
fuel-next :
    (fuel n i index prev_length : ℕ)
    → (i ≡ index) × (index ≤ n) ⊎ (i ≡ 0) × (index ≡ suc n)
    → IsEnough (suc fuel) (suc n) index prev_length
    → (i == 0 && suc n == prev_length) ≡ false
    → resolve_fuel n + (n - i) + 1 ≤ fuel
fuel-next fuel n i index prev_length (inl at) (inl any_state) more = omega arith
fuel-next fuel n i index prev_length (inr at) (inl any_state) more = omega arith
fuel-next fuel n i index prev_length (inl at) (inr (m, e, p, q, h)) more =
    let e' : m ≡ n = omega arith in
    let h' = subst (λ k. resolve_fuel k + (suc n - index) + 1 ≤ suc fuel) e' h in omega (arith, h')
fuel-next fuel n i index prev_length (inr at) (inr (m, e, p, q, h)) more = ground arith

loop-total :
    (fuel : ℕ) (f : Function) (unresolved : List ℕ) (n index prev_length : ℕ)
    → length unresolved ≡ n
    → index ≤ n
    → IsEnough fuel n index prev_length
    → resolve_loop fuel f unresolved index prev_length ≢ none
unfolding resolve_loop
loop-total zero f u n index prev size ok (inl h) = absurd (omega arith)
loop-total zero f u n index prev size ok (inr (m, e, p, q, h)) = absurd (omega arith)
loop-total (suc fuel) f [] n index prev size ok enough = λ h. cc
loop-total (suc fuel) f (x ∷ xs) n index prev size ok enough =
    let m = length xs in
    let i = index % suc m in
    let a = get_or (x ∷ xs) i x in
    let found : elem a (x ∷ xs) ≡ true = elem-get_or (x ∷ xs) i x (omega arith) in
    let shorter = length-remove a (x ∷ xs) found in
    let enough' = subst (λ k. IsEnough (suc fuel) k index prev) (sym size) enough in
    elim (Bool-cases (i == 0 && suc m == prev)) [
      | inl stop ↦ rw stop (λ h. cc)
      | inr more ↦
          let left =
            fuel-next fuel m i index prev (round-position m index (omega arith)) enough' more in
          elim (Bool-cases (resolve_arc f a).1) [
            | inl done ↦
                rw (more, done)
                  (loop-total fuel (resolve_arc f a).0 (remove a (x ∷ xs)) m i (suc m)
                    (omega (arith, shorter)) (omega arith) (inl (omega (arith, left))))
            | inr waits ↦
                rw (more, waits)
                  (loop-total fuel (resolve_arc f a).0 (x ∷ xs) (suc m) (i + 1) (suc m) refl
                    (omega arith) (inr (m, refl, refl, omega arith, omega (arith, left))))
          ]
    ]

-- `Resolve` returns, on every function and for every value of the counts.
pub resolve-total : (f : Function) → resolve f ≢ none
unfolding resolve
resolve-total f =
    let u = unresolved_in f f.blocks in
    ground (
      arith,
      loop-total (resolve_fuel (length u)) f u (length u) 0 (length u + 1) refl (omega arith)
          (inl (omega arith)),
    )
