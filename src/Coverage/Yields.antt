-- ===== src/Coverage/Yields.antt =====
-- utils/python/coverage: what holds of the value that a reader of a coverage file returns, if it
-- returns one.
use mathlib.Core.Path.{subst}
use test_vts.Base.{Bool, true, false, ◌≡◌, refl, if◌then◌else◌}
use test_vts.Coverage.Result.{Result, Error, ok-injective, ok, raise, ◌>>=◌}
use test_vts.Coverage.Stream.{Bytes}

abbrev pub Value {ℓ κ} : {A : Type ℓ} → (A → Type κ) → Result (A × Bytes) → Type κ
Value P (ok (a, rest)) = P a
Value P (raise e) = Unit

pub record Yields {ℓ κ} {A : Type ℓ} (P : A → Type κ) (r : Result (A × Bytes)) : Type κ where
  pub holds : Value P r

module _ {ℓ κ} {A : Type ℓ} (P : A → Type κ) where
  pub Yields-ok : (a : A) (s : Bytes) → P a → Yields P (ok (a, s))
  Yields-ok a s h = record { holds = h }

  pub Yields-raise : (e : Error) → Yields P (raise e)
  Yields-raise e = record { holds = tt }

  pub Yields-if :
      (b : Bool) (m n : Result (A × Bytes))
      → (b ≡ true → Yields P m)
      → (b ≡ false → Yields P n)
      → Yields P (if b then m else n)
  Yields-if true m n hm hn = hm refl
  Yields-if false m n hm hn = hn refl

  pub Yields-then {λ₁} :
      {B : Type λ₁} (r : Result B) (k : B → Result (A × Bytes))
      → ((b : B) → Yields P (k b))
      → Yields P (r >>= k)
  Yields-then (raise e) k h = record { holds = tt }
  Yields-then (ok b) k h = h b

  pub Yields-bind {λ₁ λ₂} :
      {B : Type λ₁} (Q : B → Type λ₂) (r : Result (B × Bytes)) (k : B × Bytes → Result (A × Bytes))
      → Yields Q r
      → ((b : B) (t : Bytes) → Q b → Yields P (k (b, t)))
      → Yields P (r >>= k)
  Yields-bind Q (raise e) k h g = record { holds = tt }
  Yields-bind Q (ok (b, t)) k h g = g b t h.holds

  pub of_Yields : (r : Result (A × Bytes)) (b : A × Bytes) → Yields P r → r ≡ ok b → P b.0
  of_Yields (raise e) b h p = cc
  of_Yields (ok c) b h p = subst (λ (x : A × Bytes). P x.0) (ok-injective c b p) h.holds
