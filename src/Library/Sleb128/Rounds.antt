-- ===== src/Library/Sleb128/Rounds.antt =====
-- utils/python/library/elf/utils.py: one round of the loop of `DecodeSLEB128`, in arithmetic.
use native.Mathlib.Numerals.{unary_clauses}
use Prim.Native.Nat.{bit_and, bit_or}
use test_vts.Base.{
  ℕ, suc, ◌+◌, ◌*◌, ◌%◌, ◌^◌, ◌≤◌, ◌<◌, ◌≡◌, refl, ap, true, false, ◌∙◌, List, ◌∷◌, arith, ltb,
  ◌==◌, if◌then◌else◌,
}
use test_vts.Base.Int.{pos, ◌-ℤ◌}
use test_vts.Library.Result.{ok}
use test_vts.Library.Bits.{bit_or_shifted, low_seven, bit_seven, bit_six}
use test_vts.Library.Sleb128.{sign_extend, decode_loop}

pub shift_seven : (s : ℕ) → 2 ^ (s + 7) ≡ 128 * 2 ^ s
shift_seven s = simp unary_clauses (omega arith)

-- `value |= (byte & 0x7F) << shift`
pub add_group :
    (byte value shift : ℕ)
    → byte < 256
    → value < 2 ^ shift
    → bit_or value (bit_and byte 0x7f * 2 ^ shift) ≡ value + byte % 128 * 2 ^ shift
add_group byte value shift hb hv =
    ap (λ (g : ℕ). bit_or value (g * 2 ^ shift)) (low_seven byte hb)
    ∙ bit_or_shifted shift value (byte % 128) hv

pub sign_extend_sign :
    (byte value shift : ℕ)
    → byte < 128
    → sign_extend byte value shift
      ≡ (if ltb byte 64 then pos value else pos value -ℤ pos (2 ^ shift))
unfolding sign_extend
sign_extend_sign byte value shift hb = ground (arith, bit_six byte)

pub last_byte :
    (byte value shift num : ℕ) (rest : List ℕ)
    → byte < 128
    → value < 2 ^ shift
    → decode_loop (byte ∷ rest) value shift num
      ≡ ok (sign_extend byte (value + byte * 2 ^ shift) (shift + 7), suc num)
unfolding decode_loop
last_byte byte value shift num rest hb hv =
    let same : byte % 128 ≡ byte = omega arith in
    let top : (bit_and byte 0x80 == 0) ≡ true = ground (arith, bit_seven byte) in
    rw (top, add_group byte value shift (omega arith) hv, same) refl

pub inner_byte :
    (byte value shift num : ℕ) (rest : List ℕ)
    → 128 ≤ byte
    → byte < 256
    → value < 2 ^ shift
    → decode_loop (byte ∷ rest) value shift num
      ≡ decode_loop rest (value + byte % 128 * 2 ^ shift) (shift + 7) (suc num)
unfolding decode_loop
inner_byte byte value shift num rest hl hb hv =
    let top : (bit_and byte 0x80 == 0) ≡ false = ground (arith, bit_seven byte) in
    rw (top, add_group byte value shift hb hv) refl

pub value_below :
    (byte value shift : ℕ) → value < 2 ^ shift → value + byte % 128 * 2 ^ shift < 2 ^ (shift + 7)
value_below byte value shift hv = grind (arith, shift_seven shift)
