-- ===== src/Library/Sleb128.antt =====
-- utils/python/library/elf/utils.py: `DecodeSLEB128`.

mod Rounds
pub mod Bounds
pub mod RoundTrip
use Prim.Native.Nat.{bit_and, bit_or}
use test_vts.Base.{ℕ, suc, ◌+◌, ◌*◌, ◌^◌, List, [], ◌∷◌, ◌==◌, drop, if◌then◌else◌}
use test_vts.Base.Int.{ℤ, pos, ◌-ℤ◌}
use test_vts.Library.Result.{Result, ok, raise, index_error}

-- `if byte & 0x40: value |= (-1) << shift`. The value is less than `1 << shift`, so that the bits of
-- `(-1) << shift` lie above it and are added by the `|`.
unfoldable pub sign_extend : ℕ → ℕ → ℕ → ℤ
sign_extend byte value shift =
    if bit_and byte 0x40 == 0 then pos value else pos value -ℤ pos (2 ^ shift)

-- The list is `data[cur:]`, and `num` counts the bytes that are consumed.
unfoldable pub decode_loop : List ℕ → ℕ → ℕ → ℕ → Result (ℤ × ℕ)
decode_loop [] value shift num = raise index_error
decode_loop (byte ∷ data_left) value shift num =
    let value' = bit_or value (bit_and byte 0x7f * 2 ^ shift) in
    let more = decode_loop data_left value' (shift + 7) (suc num) in
    if bit_and byte 0x80 == 0 then ok (sign_extend byte value' (shift + 7), suc num) else more

unfoldable pub decode_sleb128 : List ℕ → ℕ → Result (ℤ × ℕ)
decode_sleb128 bytes begin_offset = decode_loop (drop begin_offset bytes) 0 0 0
