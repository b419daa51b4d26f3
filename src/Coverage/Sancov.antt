-- ===== src/Coverage/Sancov.antt =====
-- utils/python/coverage/sancov_parser.py: the offsets in a file of the sanitizer's coverage. The
-- native formats 'L' and 'I' are those of a little-endian host with a `long` of 64 bits. What a
-- failed call leaves in the object is not modelled.
use mathlib.Core.Path.{ap₂}
use native.Mathlib.Nat.{mul_comm, mul-suc}
use test_vts.Base.{
  ℕ, zero, suc, ◌+◌, ◌-◌, ◌*◌, ◌/◌, ◌^◌, ◌<◌, ◌≡◌, refl, ap, ◌∙◌, Bool, true, false, List, [], ◌∷◌,
  ◌++◌, Option, none, some, All, arith, ◌==◌, ltb, length, length-append, take, drop, if◌then◌else◌,
}
use test_vts.Coverage.Result.{Result, ok, raise, ◌>>=◌, file_format, struct_error}
use test_vts.Library.Structs.Fields.{little_endian}
use test_vts.Library.Structs.Pack.{
  write_le, length-write_le, little_endian-write_le, take-write_le, drop-write_le,
}

abbrev pub magic32 : ℕ
magic32 = 0xC0BFFFFFFFFFFF32

abbrev pub magic64 : ℕ
magic64 = 0xC0BFFFFFFFFFFF64

-- The file with the position in it, and the attributes; `bitness` is none for -1.
pub record SancovParser : Type 0 where
  pub sancov_file : List ℕ
  pub position : ℕ
  pub bitness : Option ℕ
  pub size : ℕ

unfoldable pub init : List ℕ → SancovParser
init sancov_file = record { sancov_file = sancov_file; position = 0; bitness = none; size = 0 }

-- The branches on the magic number.
unfoldable pub bitness_of : ℕ → Result ℕ
bitness_of magic =
    if magic == magic64 then ok 64 else if magic == magic32 then ok 32 else raise file_format

unfoldable pub get_bitness : SancovParser → Result (ℕ × SancovParser)
unfolding bitness_of
get_bitness p = elim p.bitness [
  | some bits ↦ ok (bits, p)
  | none ↦ if ltb (length p.sancov_file) 8 then raise file_format else (do
    bits ← bitness_of (little_endian (take 8 p.sancov_file))
    ok (bits, record p { position = 8; bitness = some bits; size = length p.sancov_file - 8 }))
]

-- `struct.unpack_from` of so many integers of `width` bytes
unfoldable pub read_words : ℕ → ℕ → List ℕ → List ℕ
read_words width zero buffer = []
read_words width (suc count) buffer =
    little_endian (take width buffer) ∷ read_words width count (drop width buffer)

unfoldable pub unpack_from : ℕ → ℕ → List ℕ → Result (List ℕ)
unfolding read_words
unpack_from width count buffer =
    if ltb (length buffer) (count * width)
    then raise struct_error
    else ok (read_words width count buffer)

unfoldable pub parse : SancovParser → Result (List ℕ × SancovParser)
unfolding get_bitness unpack_from
parse p = do
  (bits, p') ← get_bitness p
  let buffer = take p'.size (drop p'.position p'.sancov_file)
  offsets ← unpack_from (bits / 8) (p'.size * 8 / bits) buffer
  ok (offsets, record p' { position = p'.position + length buffer })

-- `ParseSancovFile`, of the bytes of the file; `_bitness` is set when `Parse` returns.
unfoldable pub parse_sancov_file : List ℕ → Result (Option ℕ × List ℕ)
unfolding parse init
parse_sancov_file bytes = do (offsets, p) ← parse (init bytes); ok (p.bitness, offsets)

abbrev pub magic_of : Bool → ℕ
magic_of true = magic64
magic_of false = magic32

abbrev pub width_of : Bool → ℕ
width_of true = 8
width_of false = 4

abbrev pub write_offsets : ℕ → List ℕ → List ℕ → List ℕ
write_offsets width [] rest = rest
write_offsets width (v ∷ vs) rest = write_le width v ++ write_offsets width vs rest

suc_times : (n w : ℕ) → suc n * w ≡ w + n * w
suc_times n w = mul_comm (suc n) w ∙ mul-suc w n ∙ omega (arith, mul_comm n w)

length-write_offsets :
    (width : ℕ) (vs rest : List ℕ)
    → length (write_offsets width vs rest) ≡ length vs * width + length rest
length-write_offsets width [] rest = omega arith
length-write_offsets width (v ∷ vs) rest = omega (
  arith,
  suc_times (length vs) width,
  length-append (write_le width v) (write_offsets width vs rest),
  length-write_le width v,
  length-write_offsets width vs rest,
)

read_words-write_offsets :
    (width : ℕ) (vs rest : List ℕ)
    → All (λ v. v < 256 ^ width) vs
    → read_words width (length vs) (write_offsets width vs rest) ≡ vs
unfolding read_words
read_words-write_offsets width [] rest h = refl
read_words-write_offsets width (v ∷ vs) rest (hv, hvs) =
    let more = write_offsets width vs rest in
    rw (take-write_le width v more, drop-write_le width v more)
      (ap₂ (λ x xs. x ∷ xs) (little_endian-write_le width v hv)
        (read_words-write_offsets width vs rest hvs))

take_all : (xs : List ℕ) → take (length xs) xs ≡ xs
take_all [] = refl
take_all (x ∷ xs) = ap (λ l. x ∷ l) (take_all xs)

module _ (bits width magic : ℕ) (vs rest : List ℕ) (known : bitness_of magic ≡ ok bits)
    (small : magic < 256 ^ 8) (bytes : bits / 8 ≡ width)
    (count : (length vs * width + length rest) * 8 / bits ≡ length vs)
    (fit : All (λ v. v < 256 ^ width) vs) where
  parse_sancov_file-of :
      parse_sancov_file (write_le 8 magic ++ write_offsets width vs rest) ≡ ok (some bits, vs)
  unfolding parse_sancov_file parse init get_bitness unpack_from
  parse_sancov_file-of =
      let words = write_offsets width vs rest in
      let file = write_le 8 magic ++ words in
      let n = length vs * width + length rest in
      let long : ltb (length file) 8 ≡ false =
        ground (arith, length-append (write_le 8 magic) words, length-write_le 8 magic) in
      let size : length file - 8 ≡ length words =
        omega (arith, length-append (write_le 8 magic) words, length-write_le 8 magic) in
      let head : little_endian (take 8 file) ≡ magic =
        ap little_endian (take-write_le 8 magic words) ∙ little_endian-write_le 8 magic small in
      let body : take (length file - 8) (drop 8 file) ≡ words =
        ap (λ k. take k (drop 8 file)) size
        ∙ ap (λ l. take (length words) l) (drop-write_le 8 magic words)
        ∙ take_all words in
      let rounds : (length file - 8) * 8 / bits ≡ length vs =
        ap (λ k. k * 8 / bits) (size ∙ length-write_offsets width vs rest) ∙ count in
      let enough : ltb (length words) (length vs * width) ≡ false =
        ground (arith, length-write_offsets width vs rest) in
      rw
        (long, head, known, body, bytes, rounds, enough, read_words-write_offsets width vs rest fit)
        refl

-- ParseSancovFile returns the bitness and the offsets of a file with the magic number of that
-- bitness and offsets that fit in it. A rest that is shorter than an offset is passed over.
pub parse_sancov_file-write_offsets :
    (wide : Bool) (vs rest : List ℕ)
    → All (λ v. v < 256 ^ width_of wide) vs
    → length rest < width_of wide
    → parse_sancov_file (write_le 8 (magic_of wide) ++ write_offsets (width_of wide) vs rest)
      ≡ ok (some (8 * width_of wide), vs)
unfolding bitness_of
parse_sancov_file-write_offsets true vs rest fit short =
    parse_sancov_file-of 64 8 magic64 vs rest refl (omega arith) refl (omega arith) fit
parse_sancov_file-write_offsets false vs rest fit short =
    parse_sancov_file-of 32 4 magic32 vs rest refl (omega arith) refl (omega arith) fit
