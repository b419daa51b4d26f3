-- ===== src/Library/Sleb128/Bounds.antt =====
-- utils/python/library/elf/utils.py: what `DecodeSLEB128` returns is bounded by the bytes it takes.
use mathlib.Core.Path.{subst}
use test_vts.Base.{
  ℕ, suc, ◌+◌, ◌-◌, ◌*◌, ◌%◌, ◌^◌, ◌≤◌, ◌<◌, ◌≡◌, List, [], ◌∷◌, arith, ltb, inl, inr, Bool-cases,
  drop, length, length-drop, All-drop, All,
}
use test_vts.Base.Int.{ℤ, pos, negsuc, ◌-ℤ◌, pos_part, neg_part}
use test_vts.Library.Result.{Result, ok, raise, ok-injective}
use test_vts.Library.Sleb128.Rounds.{
  shift_seven, sign_extend_sign, last_byte, inner_byte, value_below,
}
use test_vts.Library.Sleb128.{sign_extend, decode_loop, decode_sleb128}

abbrev pub IsByte : ℕ → Type 0
IsByte b = b < 256

-- `v` is an integer of `width` bits in two's complement.
abbrev pub HasWidth : ℕ → ℤ → Type 0
HasWidth width v = (pos_part v * 2 < 2 ^ width) × (neg_part v * 2 ≤ 2 ^ width)

-- What the loop returns, `num` bytes and `shift` bits after it began.
abbrev Bounded : List ℕ → ℕ → ℕ → Result (ℤ × ℕ) → Type 0
Bounded data_left shift num (raise e) = Unit
Bounded data_left shift num (ok (v, n)) =
    (m : ℕ) × (n ≡ num + suc m) × (m < length data_left) × HasWidth (shift + 7 * suc m) v

pos_minus_pos : (a b : ℕ) → a < b → pos a -ℤ pos b ≡ negsuc (b - a - 1)
unfolding ◌-ℤ◌
pos_minus_pos a b h = ground arith

low_values : (byte value p : ℕ) → byte < 64 → value < p → (value + byte * p) * 2 < 128 * p
low_values byte value p hb hv = grind arith

high_values :
    (byte value p : ℕ)
    → 64 ≤ byte
    → byte < 128
    → value < p
    → (value + byte * p < 128 * p) × (128 * p ≤ (value + byte * p) * 2)
high_values byte value p hl hb hv = grind arith

sign_extend-HasWidth :
    (byte value shift : ℕ)
    → byte < 128
    → value < 2 ^ shift
    → HasWidth (shift + 7) (sign_extend byte (value + byte * 2 ^ shift) (shift + 7))
sign_extend-HasWidth byte value shift hb hv =
    let v : ℕ = value + byte * 2 ^ shift in
    elim (Bool-cases (ltb byte 64))
      as (λ x. HasWidth (shift + 7) (sign_extend byte v (shift + 7))) [
        | inl plus ↦
            rw (sign_extend_sign byte v (shift + 7) hb, plus, shift_seven shift)
              (low_values byte value (2 ^ shift) (ground arith) hv, omega arith)
        | inr minus ↦
            let (below, above) = high_values byte value (2 ^ shift) (ground arith) hb hv in
            rw
              (
                sign_extend_sign byte v (shift + 7) hb,
                minus,
                shift_seven shift,
                pos_minus_pos v (128 * 2 ^ shift) below,
              )
              (omega (arith, below, above), omega (arith, below, above))
      ]

Bounded-next :
    (b : ℕ) (data_left : List ℕ) (shift num : ℕ) (r : Result (ℤ × ℕ))
    → Bounded data_left (shift + 7) (suc num) r
    → Bounded (b ∷ data_left) shift num r
Bounded-next b l shift num (raise e) h = tt
Bounded-next b l shift num (ok (v, n)) (m, e, below, width) = (
  suc m,
  omega (arith, e),
  omega arith,
  let same : shift + 7 + 7 * suc m ≡ shift + 7 * suc (suc m) = omega arith in rw same at width,
)

decode_loop-Bounded :
    (data_left : List ℕ) (value shift num : ℕ)
    → All IsByte data_left
    → value < 2 ^ shift
    → Bounded data_left shift num (decode_loop data_left value shift num)
decode_loop-Bounded [] value shift num hb hv = unfold decode_loop in tt
decode_loop-Bounded (b ∷ l) value shift num hb hv =
    elim (Bool-cases (ltb b 128))
      as (λ x. Bounded (b ∷ l) shift num (decode_loop (b ∷ l) value shift num)) [
        | inl last ↦
            rw (last_byte b value shift num l (ground arith) hv)
              (0, omega arith, omega arith, sign_extend-HasWidth b value shift (ground arith) hv)
        | inr more ↦ rw (inner_byte b value shift num l (ground arith) (hb.0) hv) (
            Bounded-next b l shift num _ (
              decode_loop-Bounded l (value + b % 128 * 2 ^ shift) (shift + 7) (suc num) (hb.1)
                (value_below b value shift hv)))
      ]

Bounded-eq :
    (data_left : List ℕ) (shift num : ℕ) (r : Result (ℤ × ℕ)) (v : ℤ) (n : ℕ)
    → Bounded data_left shift num r
    → r ≡ ok (v, n)
    → Bounded data_left shift num (ok (v, n))
Bounded-eq l shift num (raise e) v n h p = cc
Bounded-eq l shift num (ok a) v n h p =
    subst (λ x. Bounded l shift num (ok x)) (ok-injective a (v, n) p) h

-- What DecodeSLEB128 returns of a string of bytes: it consumes at least one byte and none past the
-- end of the data, and an integer read from n bytes is one of 7 n bits in two's complement.
pub decode_sleb128-HasWidth :
    (bytes : List ℕ) (begin_offset : ℕ) (v : ℤ) (n : ℕ)
    → All IsByte bytes
    → decode_sleb128 bytes begin_offset ≡ ok (v, n)
    → (0 < n) × (begin_offset + n ≤ length bytes) × HasWidth (7 * n) v
unfolding decode_sleb128
decode_sleb128-HasWidth bytes begin_offset v n hb h =
    let (m, e, below, width) =
      Bounded-eq _ 0 0 _ v n
        (decode_loop-Bounded (drop begin_offset bytes) 0 0 0 (All-drop IsByte begin_offset bytes hb)
          (omega arith))
        h in
    let n_eq : 0 + 7 * suc m ≡ 7 * n = omega (arith, e) in
    (omega (arith, e), omega (arith, e, below, length-drop begin_offset bytes), rw n_eq at width)
