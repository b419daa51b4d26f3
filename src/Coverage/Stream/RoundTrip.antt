-- ===== src/Coverage/Stream/RoundTrip.antt =====
-- Reading back what was written: utils/python/coverage/parser.py against writers of the format.
use mathlib.Core.List.{append_assoc}
use test_vts.Base.{
  ℕ, zero, suc, ◌+◌, ◌*◌, ◌/◌, ◌%◌, ◌^◌, ◌<◌, ◌≡◌, ◌≢◌, refl, ap, ◌∙◌, true, false, [], ◌∷◌, ◌++◌,
  arith, length, length-append, take-length-append, drop-length-append,
}
use test_vts.Base.Text.{Str}
use test_vts.Coverage.Result.{ok}
use test_vts.Coverage.Stream.{
  Bytes, Big, word, read_int, read_int64, rstrip_nul, string_of, read_string, swap_bytes, init,
}

-- A 32-bit word in a byte order.
unfoldable pub write_int : Big → ℕ → Bytes
write_int true w = w / 16777216 % 256 ∷ w / 65536 % 256 ∷ w / 256 % 256 ∷ w % 256 ∷ []
write_int false w = w % 256 ∷ w / 256 % 256 ∷ w / 65536 % 256 ∷ w / 16777216 % 256 ∷ []

-- `ReadInt` reads back a 32-bit word that is written in the stream's byte order, and leaves what
-- follows.
pub read_int-write_int :
    (big : Big) (w : ℕ) (rest : Bytes)
    → w < 2 ^ 32
    → read_int big (write_int big w ++ rest) ≡ ok (w, rest)
unfolding read_int write_int
read_int-write_int true w rest h = ap (λ n. ok (n, rest)) (omega arith)
read_int-write_int false w rest h = ap (λ n. ok (n, rest)) (omega arith)

-- The same bytes read in the other order.
read_int-other :
    (w : ℕ) (rest : Bytes) → read_int false (write_int true w ++ rest) ≡ ok (swap_bytes w, rest)
unfolding read_int write_int swap_bytes
read_int-other w rest = ap (λ n. ok (n, rest)) (omega arith)

bytes_of_word :
    (a b c d : ℕ)
    → a < 256
    → b < 256
    → c < 256
    → d < 256
    → (word true a b c d % 256 ≡ d)
      × (word true a b c d / 256 % 256 ≡ c)
      × (word true a b c d / 65536 % 256 ≡ b)
      × (word true a b c d / 16777216 % 256 ≡ a)
unfolding word
bytes_of_word a b c d ha hb hc hd = omega arith

word_of_bytes :
    (w : ℕ)
    → w < 2 ^ 32
    → word false (w % 256) (w / 256 % 256) (w / 65536 % 256) (w / 16777216 % 256) ≡ w
unfolding word
word_of_bytes w h = omega arith

word-reverse : (a b c d : ℕ) → word true d c b a ≡ word false a b c d
unfolding word
word-reverse a b c d = refl

-- Reversing the bytes of a 32-bit word twice gives the word.
pub swap_bytes-swap_bytes : (w : ℕ) → w < 2 ^ 32 → swap_bytes (swap_bytes w) ≡ w
unfolding swap_bytes
swap_bytes-swap_bytes w h =
    let (ed, ec, eb, ea) =
      bytes_of_word (w % 256) (w / 256 % 256) (w / 65536 % 256) (w / 16777216 % 256) (omega arith)
        (omega arith) (omega arith) (omega arith) in
    rw (ea, eb, ec, ed) (word-reverse _ _ _ _ ∙ word_of_bytes w h)

unfoldable pub write_int64 : Big → ℕ → Bytes
write_int64 big w = write_int big (w % 2 ^ 32) ++ write_int big (w / 2 ^ 32)

-- `ReadInt64` reads back a 64-bit number whose low word is written first, and leaves what follows.
pub read_int64-write_int64 :
    (big : Big) (w : ℕ) (rest : Bytes)
    → w < 2 ^ 64
    → read_int64 big (write_int64 big w ++ rest) ≡ ok (w, rest)
unfolding read_int64 write_int64
read_int64-write_int64 big w rest h =
    rw
      (
        append_assoc (write_int big (w % 2 ^ 32)) (write_int big (w / 2 ^ 32)) rest,
        read_int-write_int big (w % 2 ^ 32) (write_int big (w / 2 ^ 32) ++ rest) (omega arith),
        read_int-write_int big (w / 2 ^ 32) rest (omega arith),
      )
      (ap (λ n. ok (n, rest)) (omega arith))

abbrev pub zeros : ℕ → Bytes
zeros zero = []
zeros (suc n) = 0 ∷ zeros n

length-zeros : (n : ℕ) → length (zeros n) ≡ n
length-zeros zero = refl
length-zeros (suc n) = ap suc (length-zeros n)

rstrip_nul-zeros : (n : ℕ) → rstrip_nul (zeros n) ≡ []
unfolding rstrip_nul
rstrip_nul-zeros zero = refl
rstrip_nul-zeros (suc n) = ground (arith, rstrip_nul-zeros n)

rstrip_nul-append : (s : Str) (n : ℕ) → rstrip_nul (s ++ zeros n) ≡ rstrip_nul s
unfolding rstrip_nul
rstrip_nul-append [] n = rstrip_nul-zeros n
rstrip_nul-append (c ∷ s) n = ground (arith, rstrip_nul-append s n)

-- A string of `words` words, padded with NUL bytes.
unfoldable pub write_string : Big → ℕ → Str → ℕ → Bytes
write_string big words s pad = write_int big words ++ (s ++ zeros pad)

-- `ReadString` reads back a string that is padded with NUL bytes to the number of words written
-- before it, if it does not itself end in NUL, and leaves what follows.
pub read_string-write_string :
    (big : Big) (words : ℕ) (s : Str) (pad : ℕ) (rest : Bytes)
    → words < 2 ^ 32
    → words * 4 ≡ length s + pad
    → rstrip_nul s ≡ s
    → read_string big (write_string big words s pad ++ rest) ≡ ok (s, rest)
unfolding read_string string_of write_string
read_string-write_string big words s pad rest h size trimmed =
    let body = s ++ zeros pad in
    let e : words * 4 ≡ length body =
      omega (arith, length-append s (zeros pad), length-zeros pad) in
    rw
      (
        append_assoc (write_int big words) body rest,
        read_int-write_int big words (body ++ rest) h,
        e,
        take-length-append body rest,
        drop-length-append body rest,
        rstrip_nul-append s pad,
        trimmed,
      )
      (ground (arith, length-append body rest))

-- The head of a file: the magic number, the version and the checksum, in one byte order.
unfoldable pub write_header : Big → ℕ → Str → ℕ → Bytes → Bytes
write_header big magic version checksum rest =
    write_int big magic ++ (version ++ (write_int big checksum ++ rest))

-- What the constructor stores as the checksum: it is read before the byte order is known.
abbrev pub stored_checksum : Big → ℕ → ℕ
stored_checksum true checksum = swap_bytes checksum
stored_checksum false checksum = checksum

-- The constructor finds the byte order of the file from a magic number that is no palindrome, and
-- stands behind the header. The checksum comes out right in a little-endian file only.
pub init-write_header :
    (big : Big) (magic a b c d checksum : ℕ) (rest : Bytes)
    → magic < 2 ^ 32
    → swap_bytes magic ≢ magic
    → checksum < 2 ^ 32
    → init magic (write_header big magic (a ∷ b ∷ c ∷ d ∷ []) checksum rest)
      ≡ ok (record {
        big = big;
        version = a ∷ b ∷ c ∷ d ∷ [];
        checksum = stored_checksum big checksum;
        bytes = rest;
      })
unfolding init write_header
init-write_header false magic a b c d checksum rest hm asym hc =
    rw
      (
        read_int-write_int false magic (a ∷ b ∷ c ∷ d ∷ (write_int false checksum ++ rest)) hm,
        read_int-write_int false checksum rest hc,
      )
      (ground arith)
init-write_header true magic a b c d checksum rest hm asym hc =
    rw
      (
        read_int-other magic (a ∷ b ∷ c ∷ d ∷ (write_int true checksum ++ rest)),
        read_int-other checksum rest,
      )
      (ground (arith, swap_bytes-swap_bytes magic hm))
