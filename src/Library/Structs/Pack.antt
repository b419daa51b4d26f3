-- ===== src/Library/Structs/Pack.antt =====
-- utils/python/library/elf/structs.py: a writer of structures, which `from_buffer_copy` reads back.
use native.Mathlib.Numerals.{unary_clauses}
use test_vts.Base.{
  ℕ, zero, suc, ◌+◌, ◌*◌, ◌/◌, ◌%◌, ◌^◌, ◌<◌, ◌≡◌, refl, ap, ◌∙◌, List, [], ◌∷◌, ◌++◌, arith,
  length, length-append, take, drop, drop-drop,
}
use mathlib.Core.Path.{ap₂}
use test_vts.Library.Structs.Fields.{Layout, Values, sizeof, little_endian, unpack}

-- `w` bytes, the lowest first
abbrev pub write_le : ℕ → ℕ → List ℕ
write_le zero v = []
write_le (suc w) v = v % 256 ∷ write_le w (v / 256)

pub length-write_le : (w v : ℕ) → length (write_le w v) ≡ w
length-write_le zero v = refl
length-write_le (suc w) v = ap suc (length-write_le w (v / 256))

power : (w : ℕ) → 256 ^ suc w ≡ 256 * 256 ^ w
power w = simp unary_clauses (omega arith)

pub little_endian-write_le : (w v : ℕ) → v < 256 ^ w → little_endian (write_le w v) ≡ v
little_endian-write_le zero v h = omega arith
little_endian-write_le (suc w) v h =
    let rest : v / 256 < 256 ^ w = omega (arith, power w) in
    omega (arith, little_endian-write_le w (v / 256) rest)

-- The fields before `rest`.
abbrev pub pack : (ws : Layout) → Values ws → List ℕ → List ℕ
pack [] vs rest = rest
pack (w ∷ ws) (v, vs) rest = write_le w v ++ pack ws vs rest

-- Every value fits in its field.
abbrev pub FitIn : (ws : Layout) → Values ws → Type 0
FitIn [] vs = Unit
FitIn (w ∷ ws) (v, vs) = (v < 256 ^ w) × FitIn ws vs

pub take-write_le : (w v : ℕ) (rest : List ℕ) → take w (write_le w v ++ rest) ≡ write_le w v
take-write_le zero v rest = refl
take-write_le (suc w) v rest = ap (λ l. v % 256 ∷ l) (take-write_le w (v / 256) rest)

pub drop-write_le : (w v : ℕ) (rest : List ℕ) → drop w (write_le w v ++ rest) ≡ rest
drop-write_le zero v rest = refl
drop-write_le (suc w) v rest = drop-write_le w (v / 256) rest

pub unpack-pack :
    (ws : Layout) (vs : Values ws) (rest : List ℕ) → FitIn ws vs → unpack ws (pack ws vs rest) ≡ vs
unpack-pack [] vs rest h = refl
unpack-pack (w ∷ ws) (v, vs) rest (hv, hvs) =
    rw (take-write_le w v (pack ws vs rest), drop-write_le w v (pack ws vs rest))
      (ap₂ (λ (x : ℕ) (y : Values ws). (x, y)) (little_endian-write_le w v hv)
        (unpack-pack ws vs rest hvs))

pub length-pack :
    (ws : Layout) (vs : Values ws) (rest : List ℕ)
    → length (pack ws vs rest) ≡ sizeof ws + length rest
length-pack [] vs rest = omega arith
length-pack (w ∷ ws) (v, vs) rest = omega (
  arith,
  length-append (write_le w v) (pack ws vs rest),
  length-write_le w v,
  length-pack ws vs rest,
)

take-append-length : (m : ℕ) (xs ys : List ℕ) → take (length xs + m) (xs ++ ys) ≡ xs ++ take m ys
take-append-length m [] ys = ap (λ (k : ℕ). take k ys) (omega arith)
take-append-length m (x ∷ xs) ys =
    let e : suc (length xs) + m ≡ suc (length xs + m) = omega arith in
    ap (λ (k : ℕ). take k (x ∷ xs ++ ys)) e ∙ ap (λ l. x ∷ l) (take-append-length m xs ys)

pub take-pack :
    (ws : Layout) (vs : Values ws) (rest : List ℕ)
    → take (sizeof ws) (pack ws vs rest) ≡ pack ws vs []
take-pack [] vs rest = refl
take-pack (w ∷ ws) (v, vs) rest =
    let e : w + sizeof ws ≡ length (write_le w v) + sizeof ws =
      omega (arith, length-write_le w v) in
    ap (λ (k : ℕ). take k (write_le w v ++ pack ws vs rest)) e
    ∙ take-append-length (sizeof ws) (write_le w v) (pack ws vs rest)
    ∙ ap (λ l. write_le w v ++ l) (take-pack ws vs rest)

pub drop-pack :
    (ws : Layout) (vs : Values ws) (rest : List ℕ) → drop (sizeof ws) (pack ws vs rest) ≡ rest
drop-pack [] vs rest = refl
drop-pack (w ∷ ws) (v, vs) rest =
    drop-drop w (sizeof ws) (write_le w v ++ pack ws vs rest)
    ∙ rw (drop-write_le w v (pack ws vs rest)) (drop-pack ws vs rest)
