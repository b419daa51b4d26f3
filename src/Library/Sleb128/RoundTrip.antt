-- ===== src/Library/Sleb128/RoundTrip.antt =====
-- utils/python/library/elf/utils.py: `DecodeSLEB128` reads back what an encoder of SLEB128 writes.
use native.Mathlib.Numerals.{unary_clauses}
use mathlib.Core.Path.{ap₂}
use test_vts.Base.{
  ℕ, zero, suc, ◌+◌, ◌-◌, ◌*◌, ◌/◌, ◌%◌, ◌^◌, ◌≤◌, ◌<◌, ◌≡◌, refl, ap, ◌∙◌, List, [], ◌∷◌, ◌++◌,
  arith, ltb, drop, drop-length-append, length, true, false, if◌then◌else◌,
}
use test_vts.Base.Int.{ℤ, pos, negsuc, ◌-ℤ◌, pos_part, neg_part, int_laws}
use test_vts.Library.Result.{ok}
use test_vts.Library.Sleb128.Rounds.{
  shift_seven, sign_extend_sign, last_byte, inner_byte, value_below,
}
use test_vts.Library.Sleb128.{decode_loop, decode_sleb128}

-- The seven-bit groups of `w`, the lowest first: `k` of them with the top bit set, and a last one.
abbrev pub groups : ℕ → ℕ → List ℕ
groups zero w = w % 128 ∷ []
groups (suc k) w = (w % 128 + 128) ∷ groups k (w / 128)

-- An integer of `suc k` groups in two's complement.
abbrev pub encode : ℕ → ℤ → List ℕ
encode k (pos n) = groups k n
encode k (negsuc n) = groups k (128 ^ suc k - 1 - n)

-- `suc k` groups hold `v`.
abbrev pub Fits : ℕ → ℤ → Type 0
Fits k v = (pos_part v < 64 * 128 ^ k) × (neg_part v ≤ 64 * 128 ^ k)

power : (k : ℕ) → 128 ^ suc k ≡ 128 * 128 ^ k
power k = simp unary_clauses (omega arith)

-- The number that `suc k` groups stand for, when `acc` was read before and the next bit is `shift`.
abbrev meaning : ℕ → ℕ → ℕ → ℕ → ℤ
meaning k w acc shift =
    if ltb w (64 * 128 ^ k)
    then pos (acc + w * 2 ^ shift)
    else pos (acc + w * 2 ^ shift) -ℤ pos (128 ^ suc k * 2 ^ shift)

power_shift : (k s : ℕ) → 128 ^ suc k * 2 ^ (s + 7) ≡ 128 ^ suc (suc k) * 2 ^ s
power_shift k s = rw (shift_seven s, power (suc k)) (grind arith)

split_group : (w s : ℕ) → w % 128 * 2 ^ s + w / 128 * 2 ^ (s + 7) ≡ w * 2 ^ s
split_group w s =
    let parts : w % 128 + 128 * (w / 128) ≡ w = omega arith in
    rw (shift_seven s) (grind (arith, ap (λ (x : ℕ). x * 2 ^ s) parts))

meaning_step :
    (k w acc shift : ℕ)
    → meaning k (w / 128) (acc + w % 128 * 2 ^ shift) (shift + 7) ≡ meaning (suc k) w acc shift
meaning_step k w acc shift =
    let value : acc + w % 128 * 2 ^ shift + w / 128 * 2 ^ (shift + 7) ≡ acc + w * 2 ^ shift =
      omega (arith, split_group w shift) in
    let same : ltb (w / 128) (64 * 128 ^ k) ≡ ltb w (64 * 128 ^ suc k) = ground (arith, power k) in
    rw (value, same, power_shift k shift) refl

decode_loop-groups :
    (k w acc shift num : ℕ) (rest : List ℕ)
    → w < 128 ^ suc k
    → acc < 2 ^ shift
    → decode_loop (groups k w ++ rest) acc shift num ≡ ok (meaning k w acc shift, num + suc k)
decode_loop-groups zero w acc shift num rest hw ha =
    let same : w % 128 ≡ w = omega arith in
    let wide : 2 ^ (shift + 7) ≡ 128 * 2 ^ shift = shift_seven shift in
    rw
      (
        same,
        last_byte w acc shift num rest (omega arith) ha,
        sign_extend_sign w (acc + w * 2 ^ shift) (shift + 7) (omega arith),
        wide,
      )
      (ap (λ (n : ℕ). ok (meaning 0 w acc shift, n)) (omega arith))
decode_loop-groups (suc k) w acc shift num rest hw ha =
    let low : (w % 128 + 128) % 128 ≡ w % 128 = omega arith in
    let left : w / 128 < 128 ^ suc k = omega (arith, power (suc k)) in
    let below = value_below w acc shift ha in
    inner_byte (w % 128 + 128) acc shift num (groups k (w / 128) ++ rest) (omega arith)
      (omega arith) ha
    ∙ rw
        (
          low,
          decode_loop-groups k (w / 128) (acc + w % 128 * 2 ^ shift) (shift + 7) (suc num) rest left
              below,
          meaning_step k w acc shift,
        )
        (ap (λ (n : ℕ). ok (meaning (suc k) w acc shift, n)) (omega arith))

decode_loop-encode :
    (k : ℕ) (v : ℤ) (rest : List ℕ)
    → Fits k v
    → decode_loop (encode k v ++ rest) 0 0 0 ≡ ok (v, suc k)
decode_loop-encode k (pos n) rest h =
    let small : ltb n (64 * 128 ^ k) ≡ true = ground (arith, h.0) in
    decode_loop-groups k n 0 0 0 rest (omega (arith, power k, h.0)) (omega arith)
    ∙ rw small (ap₂ (λ (x m : ℕ). ok (pos x, m)) (omega arith) (omega arith))
decode_loop-encode k (negsuc n) rest h =
    let w : ℕ = 128 ^ suc k - 1 - n in
    let large : ltb w (64 * 128 ^ k) ≡ false = ground (arith, power k, h.1) in
    decode_loop-groups k w 0 0 0 rest (omega (arith, power k)) (omega arith)
    ∙ rw large (ap₂ (λ (x : ℤ) (m : ℕ). ok (x, m)) (omega (int_laws, power k, h.1)) (omega arith))

length-groups : (k w : ℕ) → length (groups k w) ≡ suc k
length-groups zero w = refl
length-groups (suc k) w = ap suc (length-groups k (w / 128))

pub length-encode : (k : ℕ) (v : ℤ) → length (encode k v) ≡ suc k
length-encode k (pos n) = length-groups k n
length-encode k (negsuc n) = length-groups k (128 ^ suc k - 1 - n)

pub decode_sleb128-encode_at :
    (k : ℕ) (v : ℤ) (bytes rest : List ℕ) (cur : ℕ)
    → Fits k v
    → drop cur bytes ≡ encode k v ++ rest
    → decode_sleb128 bytes cur ≡ ok (v, suc k)
unfolding decode_sleb128
decode_sleb128-encode_at k v bytes rest cur h e = rw e (decode_loop-encode k v rest h)

-- DecodeSLEB128 reads back an integer from the groups that an encoder of SLEB128 writes for it, at
-- any position in the data and before any bytes, and returns their number; the encoder may use any
-- number of groups that is large enough for the integer.
pub decode_sleb128-encode :
    (k : ℕ) (v : ℤ) (before rest : List ℕ)
    → Fits k v
    → decode_sleb128 (before ++ (encode k v ++ rest)) (length before) ≡ ok (v, suc k)
decode_sleb128-encode k v before rest h =
    decode_sleb128-encode_at k v _ rest _ h (drop-length-append before (encode k v ++ rest))
