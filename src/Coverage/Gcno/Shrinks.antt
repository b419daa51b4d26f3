-- ===== src/Coverage/Gcno/Shrinks.antt =====
-- The readers of utils/python/coverage/gcno_parser.py take bytes from the stream and put none back.
use test_vts.Base.{
  ℕ, zero, suc, ◌+◌, ◌<◌, ◌≡◌, Bool, [], ◌∷◌, Option, none, some, arith, length, Option-cases, inl,
  inr,
}
use test_vts.Base.Text.{Str}
use test_vts.Coverage.Stream.{Bytes, Big}
use test_vts.Coverage.Summary.{Function}
use test_vts.Coverage.Gcno.{
  find_tag, read_section, read_function, read_blocks, section_blocks, read_arcs, section_arcs,
  read_lines, section_lines,
}
use test_vts.Coverage.Shrinks.{Shrinks, shrink_rules, Shrinks-read_int}

pub find_tag-lt :
    (big : Big) (known : ℕ → Bool) (s : Bytes) (tag : ℕ) (rest : Bytes)
    → find_tag big known s ≡ some (tag, rest)
    → length rest < length s
unfolding find_tag
find_tag-lt big known [] tag rest e = cc
find_tag-lt big known (a ∷ []) tag rest e = cc
find_tag-lt big known (a ∷ b ∷ []) tag rest e = cc
find_tag-lt big known (a ∷ b ∷ c ∷ []) tag rest e = cc
find_tag-lt big known (a ∷ b ∷ c ∷ d ∷ s) tag rest e =
    ground (arith, find_tag-lt big known s tag rest)

-- A section takes at least four bytes.
pub read_section-lt :
    (big : Big) (known : ℕ → Bool) (s : Bytes) (tag len : ℕ) (rest : Bytes)
    → read_section big known s ≡ some (tag, len, rest)
    → length rest < length s
unfolding read_section
read_section-lt big known s tag len rest e = elim (Option-cases (find_tag big known s)) [
  | inl missing ↦ ground arith
  | inr ((t, s₁), found) ↦
      ground (arith, find_tag-lt big known s t s₁ found, (Shrinks-read_int big s₁).holds)
]

pub Shrinks-read_function :
    (big : Big) (version : Str) (s : Bytes) → Shrinks s (read_function big version s)
unfolding read_function
Shrinks-read_function big version s = search shrink_rules depth 30

Shrinks-read_blocks :
    (big : Big) (left index : ℕ) (s : Bytes) → Shrinks s (read_blocks big left index s)
unfolding read_blocks
Shrinks-read_blocks big zero index s = search shrink_rules depth 30
Shrinks-read_blocks big (suc left) index s =
    search (shrink_rules, Shrinks-read_blocks big left (index + 1)) depth 30

Shrinks-read_lines : (big : Big) (left : ℕ) (s : Bytes) → Shrinks s (read_lines big left s)
unfolding read_lines
Shrinks-read_lines big zero s = search shrink_rules depth 30
Shrinks-read_lines big (suc left) s = search (shrink_rules, Shrinks-read_lines big left) depth 30

Shrinks-read_arcs :
    (big : Big) (left src : ℕ) (f : Function) (s : Bytes) → Shrinks s (read_arcs big left src f s)
unfolding read_arcs
Shrinks-read_arcs big zero src f s = search shrink_rules depth 30
Shrinks-read_arcs big (suc left) src f s =
    search (shrink_rules, Shrinks-read_arcs big left src) depth 30

pub Shrinks-section_blocks :
    (big : Big) (len : ℕ) (func : Option Function) (s : Bytes)
    → Shrinks s (section_blocks big len func s)
unfolding section_blocks
Shrinks-section_blocks big len none s = search (shrink_rules, Shrinks-read_blocks big) depth 30
Shrinks-section_blocks big len (some f) s = search (shrink_rules, Shrinks-read_blocks big) depth 30

pub Shrinks-section_arcs :
    (big : Big) (len : ℕ) (func : Option Function) (s : Bytes)
    → Shrinks s (section_arcs big len func s)
unfolding section_arcs
Shrinks-section_arcs big len none s = search shrink_rules depth 30
Shrinks-section_arcs big len (some f) s = search (shrink_rules, Shrinks-read_arcs big) depth 30

pub Shrinks-section_lines :
    (big : Big) (len : ℕ) (func : Option Function) (s : Bytes)
    → Shrinks s (section_lines big len func s)
unfolding section_lines
Shrinks-section_lines big len none s = search (shrink_rules, Shrinks-read_lines big) depth 30
Shrinks-section_lines big len (some f) s = search (shrink_rules, Shrinks-read_lines big) depth 30
