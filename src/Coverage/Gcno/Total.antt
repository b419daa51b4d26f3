-- ===== src/Coverage/Gcno/Total.antt =====
-- The loops of utils/python/coverage/gcno_parser.py end.
use test_vts.Base.{
  ℕ, zero, suc, ◌+◌, ◌≤◌, ◌<◌, ◌≡◌, ◌≢◌, Bool, true, false, [], Option, none, some, arith, length,
  Option-cases, inl, inr, if◌then◌else◌,
}
use test_vts.Base.Text.{Str}
use test_vts.Coverage.Result.{Result, Result-cases, ok, raise, ◌>>=◌, out_of_fuel, Error}
use test_vts.Coverage.Stream.{Bytes, Big, init}
use test_vts.Coverage.Summary.{Function, FileSummary}
use test_vts.Coverage.Gcno.{
  magic, read_section, is_tag, section, parse_loop, parse, parse_gcno_file, new_parser,
}
use test_vts.Coverage.Shrinks.{Shrinks}
use test_vts.Coverage.Gcno.Shrinks.{
  read_section-lt, Shrinks-read_function, Shrinks-section_blocks, Shrinks-section_arcs,
  Shrinks-section_lines,
}

-- The same of a section, which also returns the functions read before it.
abbrev Left : Bytes → Result (FileSummary × Function × Bytes) → Type 0
Left s (ok (files, f, rest)) = length rest ≤ length s
Left s (raise e) = e ≢ out_of_fuel

record Leaves (s : Bytes) (r : Result (FileSummary × Function × Bytes)) : Type 0 where
  holds : Left s r

Leaves-after :
    (s : Bytes) (files : FileSummary) (r : Result (Function × Bytes))
    → Shrinks s r
    → Leaves s (r >>= λ (f, rest). ok (files, f, rest))
Leaves-after s files (raise e) h = record { holds = h.holds }
Leaves-after s files (ok (f, rest)) h = record { holds = h.holds }

Leaves-ok :
    (s : Bytes) (r : Result (FileSummary × Function × Bytes)) (files : FileSummary) (f : Function)
    (rest : Bytes)
    → Leaves s r
    → r ≡ ok (files, f, rest)
    → length rest ≤ length s
Leaves-ok s (raise e) files f rest h p = cc
Leaves-ok s (ok (files', f', rest')) files f rest h p = let k = h.holds in ground (arith, k)

Leaves-raise :
    (s : Bytes) (r : Result (FileSummary × Function × Bytes)) (e : Error)
    → Leaves s r
    → r ≡ raise e
    → e ≢ out_of_fuel
Leaves-raise s (raise e') e h p = λ q. let k = h.holds in grind arith
Leaves-raise s (ok r) e h p = cc

Leaves-if :
    (s : Bytes) (b : Bool) (m n : Result (FileSummary × Function × Bytes))
    → Leaves s m
    → Leaves s n
    → Leaves s (if b then m else n)
Leaves-if s true m n hm hn = hm
Leaves-if s false m n hm hn = hn

Leaves-section :
    (big : Big) (version : Str) (tag len : ℕ) (files : FileSummary) (func : Option Function)
    (s : Bytes)
    → Leaves s (section big version tag len files func s)
unfolding section
Leaves-section big version tag len files func s =
    search
      (
        Leaves-if, Leaves-after, Shrinks-read_function, Shrinks-section_blocks,
        Shrinks-section_arcs, Shrinks-section_lines,
      )
      depth 20

parse_loop-total :
    (fuel : ℕ) (big : Big) (version : Str) (files : FileSummary) (func : Option Function)
    (s : Bytes)
    → length s < fuel
    → parse_loop fuel big version files func s ≢ raise out_of_fuel
unfolding parse_loop
parse_loop-total zero big version files func s h = absurd (omega arith)
parse_loop-total (suc fuel) big version files func s h =
    elim (Option-cases (read_section big is_tag s)) [
      | inl ended ↦ elim (Option-cases func) [
        | inl missing ↦ ground arith
        | inr (f, known) ↦ ground arith
      ]
      | inr ((tag, len, s₁), found) ↦
          let step = Leaves-section big version tag len files func s₁ in
          elim (Result-cases (section big version tag len files func s₁)) [
            | inl ((files', f, s₂), done) ↦
                let rest = parse_loop-total fuel big version files' (some f) s₂ (
                  omega (
                    arith,
                    read_section-lt big is_tag s tag len s₁ found,
                    Leaves-ok s₁ _ files' f s₂ step done,
                  )) in
                ground arith
            | inr (e, failed) ↦ let ne = Leaves-raise s₁ _ e step failed in ground arith
          ]
    ]

pub init-ne : (tag : ℕ) (s : Bytes) → init tag s ≢ raise out_of_fuel
unfolding init
init-ne tag s = ground arith

-- `ParseGcnoFile` returns or raises on every file: as much fuel as the file has bytes is enough for
-- its loop over the sections, each of which takes at least four bytes of the file.
pub parse_gcno_file-total : (s : Bytes) → parse_gcno_file s ≢ raise out_of_fuel
unfolding parse_gcno_file new_parser parse
parse_gcno_file-total s = elim (Result-cases (init magic s)) [
  | inl (p, opened) ↦
      let rest =
        parse_loop-total (length p.bytes + 1) p.big p.version [] none p.bytes (omega arith) in
      ground arith
  | inr (e, failed) ↦ let ne = init-ne magic s in ground arith
]
