-- ===== src/Library/Returns.antt =====
-- utils/python/library: what holds of a value that is returned, if one is.
use mathlib.Core.Path.{subst}
use test_vts.Base.{Bool, true, false, ◌≡◌, if◌then◌else◌}
use test_vts.Library.Result.{Result, ok, raise, ◌>>=◌, ok-injective}

abbrev Value {ℓ κ} : {A : Type ℓ} → (A → Type κ) → Result A → Type κ
Value P (ok a) = P a
Value P (raise e) = Unit

pub record Returns {ℓ κ} {A : Type ℓ} (P : A → Type κ) (r : Result A) : Type κ where
  pub holds : Value P r

module _ {ℓ κ} {A : Type ℓ} (P : A → Type κ) where
  pub Returns-ok : (a : A) → P a → Returns P (ok a)
  Returns-ok a h = record { holds = h }

  pub Returns-if :
      (b : Bool) (m n : Result A) → Returns P m → Returns P n → Returns P (if b then m else n)
  Returns-if true m n hm hn = hm
  Returns-if false m n hm hn = hn

  -- A step of which nothing needs to be known.
  pub Returns-then {λ₁} :
      {B : Type λ₁} (r : Result B) (k : B → Result A)
      → ((b : B) → Returns P (k b))
      → Returns P (r >>= k)
  Returns-then (raise e) k h = record { holds = tt }
  Returns-then (ok b) k h = h b

  pub Returns-bind {λ₁ λ₂} :
      {B : Type λ₁} (Q : B → Type λ₂) (r : Result B) (k : B → Result A)
      → Returns Q r
      → ((b : B) → Q b → Returns P (k b))
      → Returns P (r >>= k)
  Returns-bind Q (raise e) k h g = record { holds = tt }
  Returns-bind Q (ok b) k h g = g b h.holds

  pub of_Returns : (r : Result A) (a : A) → Returns P r → r ≡ ok a → P a
  of_Returns (raise e) a h p = cc
  of_Returns (ok b) a h p = subst P (ok-injective b a p) h.holds

pub ruleset returns_rules = (Returns-ok, Returns-if, Returns-then, Returns-bind)
