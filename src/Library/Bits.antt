-- ===== src/Library/Bits.antt =====
-- utils/python/library: Python's bit operations on integers that are not negative, as arithmetic.
-- Where the operands have no digit in common, `|` adds them.
use Prim.Native.Nat.{bit_and, bit_or, bit_or-bitwise, digits, max}
use native.Mathlib.Numerals.{unary_clauses}
use test_vts.Base.{
  Bool, ap, arith, refl, suc, true, zero, ℕ, ◌%◌, ◌&&◌, ◌*◌, ◌+◌, ◌/◌, ◌<◌, ◌==◌, ◌^◌, ◌≡◌, ◌≤◌,
}

abbrev or_digits : ℕ → ℕ → ℕ → ℕ
or_digits n a b = digits (λ b. b) max n a b

enough_digits : (k l x y : ℕ) → x ≤ k → x ≤ l → or_digits k x y ≡ or_digits l x y
enough_digits zero zero x y hk hl = refl
enough_digits (suc k) zero zero y hk hl = refl
enough_digits zero (suc l) zero y hk hl = refl
enough_digits (suc k) (suc l) zero y hk hl = refl
enough_digits (suc k) zero (suc x) y hk hl = absurd (omega arith)
enough_digits zero (suc l) (suc x) y hk hl = absurd (omega arith)
enough_digits (suc k) (suc l) (suc x) y hk hl =
    let h : suc x / 2 ≤ k = omega arith in
    omega (arith, enough_digits k l (suc x / 2) (y / 2) h (omega arith))

zero-bit_or : (b : ℕ) → bit_or 0 b ≡ b
zero-bit_or b = bit_or-bitwise 0 b

-- The lowest digit of `x | y`, and the others.
lowest_digit : (x y : ℕ) → bit_or x y ≡ max (x % 2) (y % 2) + 2 * bit_or (x / 2) (y / 2)
lowest_digit zero y = omega (arith, zero-bit_or (y / 2), zero-bit_or y)
lowest_digit (suc x) y =
    let half : suc x / 2 ≤ x = omega arith in
    let count = enough_digits x (suc x / 2) (suc x / 2) (y / 2) half (omega arith) in
    omega (arith, count, bit_or-bitwise (suc x / 2) (y / 2), bit_or-bitwise (suc x) y)

double : (s b : ℕ) → b * 2 ^ suc s ≡ b * 2 ^ s * 2
double s b = simp unary_clauses (omega arith)

max_zero : (a : ℕ) → max a 0 ≡ a
max_zero zero = refl
max_zero (suc a) = simp unary_clauses refl

pub bit_or_shifted : (s a b : ℕ) → a < 2 ^ s → bit_or a (b * 2 ^ s) ≡ a + b * 2 ^ s
bit_or_shifted zero a b h =
    let e : a ≡ 0 = omega arith in
    omega (arith, ap (λ (x : ℕ). bit_or x (b * 1)) e, zero-bit_or (b * 1))
bit_or_shifted (suc s) a b h =
    let x : ℕ = b * 2 ^ s in
    let half : x * 2 / 2 ≡ x = omega arith in
    let even : x * 2 % 2 ≡ 0 = omega arith in
    let p : 2 ^ suc s ≡ 2 ^ s * 2 = omega (arith, double s 1) in
    let a_half : a / 2 < 2 ^ s = omega (arith, p) in
    rw (double s b) (
      omega (
        arith,
        lowest_digit a (x * 2),
        ap (λ (y : ℕ). bit_or (a / 2) y) half,
        ap (λ (y : ℕ). max (a % 2) y) even,
        max_zero (a % 2),
        bit_or_shifted s (a / 2) b a_half,
      ))

-- A property of every byte, checked by evaluation.
module _ (f g : ℕ → ℕ) where
  agree_below : ℕ → Bool
  agree_below zero = true
  agree_below (suc n) = f n == g n && agree_below n

  agree_below_at : (n : ℕ) → agree_below n ≡ true → (i : ℕ) → i < n → f i ≡ g i
  unfolding agree_below
  agree_below_at zero e i h = absurd (omega arith)
  agree_below_at (suc n) e i h = ground (arith, agree_below_at n (ground arith) i)

pub low_seven : (b : ℕ) → b < 256 → bit_and b 0x7f ≡ b % 128
unfolding agree_below
low_seven = agree_below_at _ _ 256 refl

pub bit_seven : (b : ℕ) → b < 256 → bit_and b 0x80 ≡ b / 128 * 128
unfolding agree_below
bit_seven = agree_below_at _ _ 256 refl

pub bit_six : (b : ℕ) → b < 256 → bit_and b 0x40 ≡ b / 64 % 2 * 64
unfolding agree_below
bit_six = agree_below_at _ _ 256 refl
