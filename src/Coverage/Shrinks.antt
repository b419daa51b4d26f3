-- ===== src/Coverage/Shrinks.antt =====
-- utils/python/coverage: the readers of parser.py take bytes from the stream and put none back, and
-- so does what is built of them.
use mathlib.Core.Path.{subst}
use test_vts.Base.{
  ap, ℕ, zero, suc, ◌*◌, ◌≤◌, ◌≡◌, ◌≢◌, Bool, true, false, [], ◌∷◌, arith, leb, length, drop,
  Bool-cases, inl, inr, if◌then◌else◌,
}
use test_vts.Base.Text.{Str}
use test_vts.Coverage.Result.{
  Result, ok, raise, ◌>>=◌, out_of_fuel, index_error, attribute_error, key_error, file_format,
  Error, ok-injective,
}
use test_vts.Coverage.Stream.{Bytes, Big, read_int, string_of, read_string, version_digit}

abbrev pub Within {ℓ} : {A : Type ℓ} → Bytes → Result (A × Bytes) → Type 0
Within s (ok (a, rest)) = length rest ≤ length s
Within s (raise e) = e ≢ out_of_fuel

-- A reader leaves no more than it was given, and does not run out of fuel.
pub record Shrinks {ℓ} {A : Type ℓ} (s : Bytes) (r : Result (A × Bytes)) : Type 0 where
  pub holds : Within s r

pub Shrinks-read_int : (big : Big) (s : Bytes) → Shrinks s (read_int big s)
unfolding read_int
Shrinks-read_int big [] = record { holds = λ h. cc }
Shrinks-read_int big (a ∷ []) = record { holds = λ h. cc }
Shrinks-read_int big (a ∷ b ∷ []) = record { holds = λ h. cc }
Shrinks-read_int big (a ∷ b ∷ c ∷ []) = record { holds = λ h. cc }
Shrinks-read_int big (a ∷ b ∷ c ∷ d ∷ s) = record { holds = omega arith }

module _ {ℓ} {A : Type ℓ} where
  pub Shrinks-ok : (s : Bytes) (a : A) → Shrinks s (ok (a, s))
  Shrinks-ok s a = record { holds = omega arith }

  pub Shrinks-index_error : (s : Bytes) → Shrinks {A = A} s (raise index_error)
  Shrinks-index_error s = record { holds = λ h. cc }

  pub Shrinks-attribute_error : (s : Bytes) → Shrinks {A = A} s (raise attribute_error)
  Shrinks-attribute_error s = record { holds = λ h. cc }

  pub Shrinks-key_error : (s : Bytes) → Shrinks {A = A} s (raise key_error)
  Shrinks-key_error s = record { holds = λ h. cc }

  pub Shrinks-file_format : (s : Bytes) → Shrinks {A = A} s (raise file_format)
  Shrinks-file_format s = record { holds = λ h. cc }

  pub Shrinks-if :
      (s : Bytes) (b : Bool) (m n : Result (A × Bytes))
      → Shrinks s m
      → Shrinks s n
      → Shrinks s (if b then m else n)
  Shrinks-if s true m n hm hn = hm
  Shrinks-if s false m n hm hn = hn

  weaken : (s t : Bytes) (r : Result (A × Bytes)) → length t ≤ length s → Shrinks t r → Shrinks s r
  weaken s t (raise e) h g = record { holds = g.holds }
  weaken s t (ok (a, rest)) h g = let k = g.holds in record { holds = omega (arith, k) }

-- Readers one after the other.
pub Shrinks-bind {ℓ κ} :
    {A : Type ℓ} {B : Type κ} (s : Bytes) (r : Result (A × Bytes))
    (k : A × Bytes → Result (B × Bytes))
    → Shrinks s r
    → ((a : A) (t : Bytes) → Shrinks t (k (a, t)))
    → Shrinks s (r >>= k)
Shrinks-bind s (raise e) k h g = record { holds = h.holds }
Shrinks-bind s (ok (a, t)) k h g = weaken s t (k (a, t)) h.holds (g a t)

pub version_digit-ne : (version : Str) → version_digit version ≢ raise out_of_fuel
unfolding version_digit
version_digit-ne [] = λ h. cc
version_digit-ne (a ∷ []) = λ h. cc
version_digit-ne (a ∷ b ∷ s) = ground arith

-- A step that reads nothing.
pub Shrinks-after {ℓ κ} :
    {A : Type ℓ} {B : Type κ} (s : Bytes) (r : Result A) (k : A → Result (B × Bytes))
    → r ≢ raise out_of_fuel
    → ((a : A) → Shrinks s (k a))
    → Shrinks s (r >>= k)
Shrinks-after s (raise e) k h g = record { holds = λ p. h (ap raise p) }
Shrinks-after s (ok n) k h g = g n

length-drop-le : (n : ℕ) (s : Bytes) → length (drop n s) ≤ length s
length-drop-le zero s = omega arith
length-drop-le (suc n) [] = omega arith
length-drop-le (suc n) (x ∷ s) = omega (arith, length-drop-le n s)

string_rest : (words : ℕ) (s : Bytes) → Shrinks s (string_of words s)
unfolding string_of
string_rest words s = elim (Bool-cases (leb (words * 4) (length s))) [
  | inl fits ↦ rw fits (record { holds = length-drop-le (words * 4) s })
  | inr short ↦ rw short (record { holds = λ h. cc })
]

pub Shrinks-read_string : (big : Big) (s : Bytes) → Shrinks s (read_string big s)
unfolding read_string
Shrinks-read_string big s = Shrinks-bind s (read_int big s) _ (Shrinks-read_int big s) string_rest

pub ruleset shrink_rules = (
  Shrinks-read_int, Shrinks-read_string, Shrinks-ok, Shrinks-index_error, Shrinks-attribute_error,
  Shrinks-key_error, Shrinks-file_format, Shrinks-if, Shrinks-bind, Shrinks-after, version_digit-ne,
)

module _ {ℓ} {A : Type ℓ} where
  pub Shrinks-eq_ok :
      (s : Bytes) (r : Result (A × Bytes)) (b : A × Bytes)
      → Shrinks s r
      → r ≡ ok b
      → length b.1 ≤ length s
  Shrinks-eq_ok s (raise e) b h p = cc
  Shrinks-eq_ok s (ok c) b h p =
      subst (λ (x : A × Bytes). length x.1 ≤ length s) (ok-injective c b p) h.holds

  pub Shrinks-eq_raise :
      (s : Bytes) (r : Result (A × Bytes)) (e : Error) → Shrinks s r → r ≡ raise e → e ≢ out_of_fuel
  Shrinks-eq_raise s (raise e') e h p = λ q. let k = h.holds in grind arith
  Shrinks-eq_raise s (ok r) e h p = cc
