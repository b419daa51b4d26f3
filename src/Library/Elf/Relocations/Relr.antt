-- ===== src/Library/Elf/Relocations/Relr.antt =====
-- utils/python/library/elf_parser.py: `_DecodeAndroidRelr` against the meaning of the words of a RELR
-- section.
use native.Mathlib.Numerals.{unary_clauses}
use native.Mathlib.Nat.{div-div-eq-div-mul}
use test_vts.Base.{
  ℕ, suc, ◌+◌, ◌-◌, ◌*◌, ◌/◌, ◌%◌, ◌^◌, ◌<◌, ◌≡◌, refl, ap, sym, ◌∙◌, Bool, true, false, List, [],
  ◌∷◌, ◌++◌, arith, ◌==◌, length, if◌then◌else◌,
}
use test_vts.Library.Result.{ok}
use test_vts.Library.Structs.{Shdr, Rel}
use test_vts.Library.Structs.Layouts.{Class, class32, class64}
use test_vts.Library.Structs.Pack.{write_le}
use test_vts.Library.Elf.{File, ElfParser, seek}
use test_vts.Library.Elf.Image.{seek_read_int-write_le}
use test_vts.Library.Elf.Relocations.{
  create_elf_rel, addr_size, range_length, bitmap_loop, relr_entry_rels, relr_loop,
  decode_android_relr,
}

-- A word is the address of a relocation, which is even, or says of each of the next addresses whether
-- it has one.
pub data RelrWord : Type 0 where
  address : ℕ → RelrWord
  bitmap : List Bool → RelrWord

abbrev pub bits : List Bool → ℕ
bits [] = 0
bits (b ∷ flags) = (if b then 1 else 0) + 2 * bits flags

abbrev pub word_of : RelrWord → ℕ
word_of (address half) = 2 * half
word_of (bitmap flags) = 1 + 2 * bits flags

abbrev pub WellFormed : Class → RelrWord → Type 0
WellFormed c (address half) = 2 * half < 256 ^ addr_size c
WellFormed c (bitmap flags) = length flags ≡ addr_size c * 8 - 1

abbrev pub flagged : Class → List Bool → ℕ → List Rel
flagged c [] base = []
flagged c (true ∷ flags) base = create_elf_rel c base 0 ∷ flagged c flags (base + addr_size c)
flagged c (false ∷ flags) base = flagged c flags (base + addr_size c)

-- The relocations of the words, where the next address is `base`.
abbrev pub relr_rels : Class → List RelrWord → ℕ → List Rel
relr_rels c [] base = []
relr_rels c (address half ∷ ws) base =
    create_elf_rel c (2 * half) 0 ∷ relr_rels c ws (2 * half + addr_size c)
relr_rels c (bitmap flags ∷ ws) base =
    flagged c flags base ++ relr_rels c ws (base + length flags * addr_size c)

-- The words stand in the file from `offset` on.
abbrev pub WordsAt : File → Class → ℕ → List RelrWord → Type 0
WordsAt f c offset [] = Unit
WordsAt f c offset (w ∷ ws) =
    ((rest : List ℕ) × (seek f offset ≡ write_le (addr_size c) (word_of w) ++ rest))
    × WellFormed c w
    × WordsAt f c (offset + addr_size c) ws

double : (i : ℕ) → 2 ^ suc i ≡ 2 ^ i * 2
double i = simp unary_clauses (omega arith)

addr_size-pos : (c : Class) → 0 < addr_size c
addr_size-pos class32 = omega arith
addr_size-pos class64 = omega arith

halve : (e i : ℕ) → e / 2 ^ suc i ≡ e / 2 ^ i / 2
halve e i = ap (λ (k : ℕ). e / k) (double i) ∙ sym (div-div-eq-div-mul e (2 ^ i) 2)

next_address : (n base step : ℕ) → base + step + n * step ≡ base + suc n * step
next_address n base step = grind arith

bitmap_loop-flagged :
    (c : Class) (e : ℕ) (flags : List Bool) (idx base : ℕ)
    → e / 2 ^ idx ≡ bits flags
    → bitmap_loop c e (length flags) idx base
      ≡ (flagged c flags base, base + length flags * addr_size c)
unfolding bitmap_loop
bitmap_loop-flagged c e [] idx base h = ap (λ (b : ℕ). ([], b)) (grind arith)
bitmap_loop-flagged c e (true ∷ flags) idx base h =
    let bit : (e / 2 ^ idx % 2 == 1) ≡ true = ground arith in
    let left : e / 2 ^ suc idx ≡ bits flags = omega (arith, halve e idx) in
    rw
      (
        bit,
        bitmap_loop-flagged c e flags (suc idx) (base + addr_size c) left,
        next_address (length flags) base (addr_size c),
      )
      refl
bitmap_loop-flagged c e (false ∷ flags) idx base h =
    let bit : (e / 2 ^ idx % 2 == 1) ≡ false = ground arith in
    let left : e / 2 ^ suc idx ≡ bits flags = omega (arith, halve e idx) in
    rw
      (
        bit,
        bitmap_loop-flagged c e flags (suc idx) (base + addr_size c) left,
        next_address (length flags) base (addr_size c),
      )
      refl

-- The bits of the flags fit in the word.
bits_below : (flags : List Bool) → bits flags < 2 ^ length flags
bits_below [] = omega arith
bits_below (true ∷ flags) = omega (arith, double (length flags), bits_below flags)
bits_below (false ∷ flags) = omega (arith, double (length flags), bits_below flags)

word_of-lt : (c : Class) (w : RelrWord) → WellFormed c w → word_of w < 256 ^ addr_size c
word_of-lt c (address half) h = h
word_of-lt class32 (bitmap flags) h = omega (arith, bits_below flags, ap (λ (n : ℕ). 2 ^ n) h)
word_of-lt class64 (bitmap flags) h = omega (arith, bits_below flags, ap (λ (n : ℕ). 2 ^ n) h)

entry_address :
    (c : Class) (half base : ℕ)
    → relr_entry_rels c (addr_size c) (2 * half) base
      ≡ (create_elf_rel c (2 * half) 0 ∷ [], 2 * half + addr_size c)
unfolding relr_entry_rels
entry_address c half base = let even : (2 * half % 2 == 0) ≡ true = ground arith in rw even refl

entry_bitmap :
    (c : Class) (flags : List Bool) (base : ℕ)
    → length flags ≡ addr_size c * 8 - 1
    → relr_entry_rels c (addr_size c) (1 + 2 * bits flags) base
      ≡ (flagged c flags base, base + length flags * addr_size c)
unfolding relr_entry_rels
entry_bitmap c flags base h =
    let odd : ((1 + 2 * bits flags) % 2 == 0) ≡ false = ground arith in
    rw (odd, ← h) (bitmap_loop-flagged c (1 + 2 * bits flags) flags 1 base (omega arith))

relr_loop-WordsAt :
    (p : ElfParser) (ws : List RelrWord) (offset base : ℕ)
    → WordsAt p.file p.class offset ws
    → relr_loop p (addr_size p.class) (length ws) offset base ≡ ok (relr_rels p.class ws base)
unfolding relr_loop
relr_loop-WordsAt p [] offset base h = refl
relr_loop-WordsAt p (address half ∷ ws) offset base ((rest, at), fit, more) =
    let c = p.class in
    let read =
      seek_read_int-write_le p.file offset (addr_size c) (2 * half) rest (addr_size-pos c) fit at in
    rw
      (
        read,
        entry_address c half base,
        relr_loop-WordsAt p ws (offset + addr_size c) (2 * half + addr_size c) more,
      )
      refl
relr_loop-WordsAt p (bitmap flags ∷ ws) offset base ((rest, at), fit, more) =
    let c = p.class in
    let fits = word_of-lt c (bitmap flags) fit in
    let read =
      seek_read_int-write_le p.file offset (addr_size c) (1 + 2 * bits flags) rest (addr_size-pos c)
        fits at in
    rw
      (
        read,
        entry_bitmap c flags base fit,
        relr_loop-WordsAt p ws (offset + addr_size c) (base + length flags * addr_size c) more,
      )
      refl

entries_of : (c : Class) (n : ℕ) → range_length (n * addr_size c) (addr_size c) ≡ n
entries_of class32 n = omega arith
entries_of class64 n = omega arith

-- _DecodeAndroidRelr yields exactly the relocations that the words of the section stand for, in their
-- order: an even word is the address of one, and an odd word says of each of the addresses that
-- follow the last one whether it has a relocation, both in 32-bit and in 64-bit files. The entry size
-- of the section is that of an address.
pub decode_android_relr-relr_rels :
    (p : ElfParser) (rel : Shdr) (ws : List RelrWord)
    → rel.sh_entsize ≡ addr_size p.class
    → rel.sh_size ≡ length ws * addr_size p.class
    → WordsAt p.file p.class rel.sh_offset ws
    → decode_android_relr p rel ≡ ok (relr_rels p.class ws 0)
unfolding decode_android_relr
decode_android_relr-relr_rels p rel ws he hs h =
    let some_size : (addr_size p.class == 0) ≡ false = ground (arith, addr_size-pos p.class) in
    rw (he, hs, some_size, entries_of p.class (length ws))
      (relr_loop-WordsAt p ws rel.sh_offset 0 h)
