-- ===== src/Coverage/Stream.antt =====
-- utils/python/coverage/parser.py: the stream of a GCNO or GCDA file. The stream is the list of the
-- bytes that are left; a read returns the value and the rest. A failed read is caught only where no
-- byte is read any more, so what it leaves in the stream does not matter.
pub mod RoundTrip
use test_vts.Base.{
  ℕ, zero, suc, ◌+◌, ◌-◌, ◌*◌, ◌/◌, ◌%◌, ◌^◌, ◌≡◌, refl, Bool, true, false, List, [], ◌∷◌, ◌==◌,
  ltb, leb, length, take, drop, if◌then◌else◌, ◌&&◌,
}
use test_vts.Base.Text.{Str, codes}
use test_vts.Coverage.Result.{Result, ok, raise, ◌>>=◌, file_format, struct_error, value_error}

abbrev pub Bytes : Type 0
Bytes = List ℕ

-- The byte order: `true` for the format '>', `false` for '<'.
abbrev pub Big : Type 0
Big = Bool

-- `struct.unpack(format + 'I', …)` of four bytes
unfoldable pub word : Big → ℕ → ℕ → ℕ → ℕ → ℕ
word true a b c d = ((a * 256 + b) * 256 + c) * 256 + d
word false a b c d = ((d * 256 + c) * 256 + b) * 256 + a

unfoldable pub read_int : Big → Bytes → Result (ℕ × Bytes)
unfolding word
read_int big (a ∷ b ∷ c ∷ d ∷ rest) = ok (word big a b c d, rest)
read_int big _ = raise file_format

-- `(hi << 32) | lo`, for a 32-bit `lo`
unfoldable pub read_int64 : Big → Bytes → Result (ℕ × Bytes)
read_int64 big s = do
  (lo, s₁) ← read_int big s
  (hi, s₂) ← read_int big s₁
  ok (hi * 2 ^ 32 + lo, s₂)

-- `rstrip('\x00')`
unfoldable pub rstrip_nul : Str → Str
rstrip_nul [] = []
rstrip_nul (c ∷ s) =
    let t = rstrip_nul s in elim t [ [] ↦ if c == 0 then [] else c ∷ [] | d ∷ r ↦ c ∷ d ∷ r ]

-- The string itself, once its number of words is read.
unfoldable pub string_of : ℕ → Bytes → Result (Str × Bytes)
unfolding rstrip_nul
string_of words s =
    if leb (words * 4) (length s)
    then ok (rstrip_nul (take (words * 4) s), drop (words * 4) s)
    else raise file_format

unfoldable pub read_string : Big → Bytes → Result (Str × Bytes)
read_string big s = do (words, s₁) ← read_int big s; string_of words s₁

pub record Stream : Type 0 where
  pub big : Big
  pub version : Str
  pub checksum : ℕ
  pub bytes : Bytes

-- `struct.unpack('<ssss', stream.read(4))`, outside of a `try`
unfoldable pub read_version : Bytes → Result (Str × Bytes)
read_version (a ∷ b ∷ c ∷ d ∷ rest) = ok (a ∷ b ∷ c ∷ d ∷ [], rest)
read_version _ = raise struct_error

-- `struct.unpack('>I', struct.pack('<I', tag))[0]`
unfoldable pub swap_bytes : ℕ → ℕ
swap_bytes t = word true (t % 256) (t / 256 % 256) (t / 65536 % 256) (t / 16777216 % 256)

-- `__init__`
unfoldable pub init : ℕ → Bytes → Result Stream
unfolding read_int read_version swap_bytes
init magic s = do
  (tag, s₁) ← read_int false s
  (version, s₂) ← read_version s₁
  (checksum, s₃) ← read_int false s₂
  if tag == magic
      then ok (record { big = false; version = version; checksum = checksum; bytes = s₃ })
      else if swap_bytes tag == magic
      then ok (record { big = true; version = version; checksum = checksum; bytes = s₃ })
      else raise file_format

-- `int(self.version[1])`
unfoldable pub version_digit : Str → Result ℕ
version_digit (a ∷ b ∷ s) = if leb b'0' b && leb b b'9' then ok (b - 48) else raise value_error
version_digit _ = raise value_error
