-- ===== src/Coverage/Gcno/Graph/Files.antt =====
-- Every function that the parser of utils/python/coverage/gcno_parser.py returns is well formed.
use mathlib.Core.Path.{subst}
use test_vts.Base.{
  ℕ, zero, suc, ◌+◌, ◌≡◌, Bool, true, false, [], ◌∷◌, Option, none, some, arith, ◌==◌, length, All,
  Bool-cases, Option-cases, inl, inr, if◌then◌else◌,
}
use test_vts.Base.Text.{Str}
use test_vts.Coverage.Result.{Result, Result-cases, ok-injective, ok, raise, ◌>>=◌}
use test_vts.Coverage.Stream.{Bytes, Big, init}
use test_vts.Coverage.Summary.{Function, FileSummary, insert}
use test_vts.Coverage.Gcno.{
  section_blocks, section_arcs, section_lines, store, section, read_section, is_tag, parse_loop,
  new_parser, parse, parse_gcno_file, magic,
}
use test_vts.Coverage.Yields.{Yields, Yields-raise, Yields-then}
use test_vts.Coverage.Gcno.Graph.{IsWired}
use test_vts.Coverage.Gcno.Graph.Wire.{
  IsWired-read_function, IsWired-section_blocks, IsWired-section_arcs, IsWired-section_lines,
}

-- Of a dictionary of functions, and of the function being read.
abbrev pub AllWired : FileSummary → Type 0
AllWired files = All (λ (entry : ℕ × Function). IsWired entry.1) files

abbrev Current : Option Function → Type 0
Current none = Unit
Current (some f) = IsWired f

AllWired-insert :
    (ident : ℕ) (f : Function) (files : FileSummary)
    → IsWired f
    → AllWired files
    → AllWired (insert ident f files)
unfolding insert
AllWired-insert ident f [] w h = (w, tt)
AllWired-insert ident f ((i, g) ∷ files) w h = elim (Bool-cases (i == ident)) [
  | inl same ↦ rw same (w, h.1)
  | inr other ↦ rw other (h.0, AllWired-insert ident f files w h.1)
]

AllWired-store :
    (func : Option Function) (files : FileSummary)
    → Current func
    → AllWired files
    → AllWired (store func files)
unfolding store
AllWired-store none files w h = h
AllWired-store (some f) files w h = AllWired-insert f.ident f files w h

-- What a section returns.
abbrev Both : Result (FileSummary × Function × Bytes) → Type 0
Both (ok (files, f, rest)) = AllWired files × IsWired f
Both (raise e) = Unit

record Wires (r : Result (FileSummary × Function × Bytes)) : Type 0 where
  holds : Both r

Wires-after :
    (files : FileSummary) (r : Result (Function × Bytes))
    → AllWired files
    → Yields IsWired r
    → Wires (r >>= λ (f, rest). ok (files, f, rest))
Wires-after files (raise e) h w = record { holds = tt }
Wires-after files (ok (f, rest)) h w = record { holds = (h, w.holds) }

Wires-if :
    (b : Bool) (m n : Result (FileSummary × Function × Bytes))
    → Wires m
    → Wires n
    → Wires (if b then m else n)
Wires-if true m n hm hn = hm
Wires-if false m n hm hn = hn

-- Without a function, these sections raise.
none-section_blocks :
    (big : Big) (len : ℕ) (s : Bytes) → Yields IsWired (section_blocks big len none s)
unfolding section_blocks
none-section_blocks big len s = search (Yields-then, Yields-raise) depth 20

none-section_arcs : (big : Big) (len : ℕ) (s : Bytes) → Yields IsWired (section_arcs big len none s)
unfolding section_arcs
none-section_arcs big len s = search (Yields-then, Yields-raise) depth 20

none-section_lines :
    (big : Big) (len : ℕ) (s : Bytes) → Yields IsWired (section_lines big len none s)
unfolding section_lines
none-section_lines big len s = search (Yields-then, Yields-raise) depth 20

Wires-section :
    (big : Big) (version : Str) (tag len : ℕ) (files : FileSummary) (func : Option Function)
    (s : Bytes)
    → Current func
    → AllWired files
    → Wires (section big version tag len files func s)
unfolding section
Wires-section big version tag len files none s w h =
    let stored = AllWired-store none files w h in
    search
      (
        Wires-if, Wires-after, IsWired-read_function, none-section_blocks, none-section_arcs,
        none-section_lines, stored,
      )
      depth 20
Wires-section big version tag len files (some f) s w h =
    let stored = AllWired-store (some f) files w h in
    search
      (
        Wires-if, Wires-after, IsWired-read_function, IsWired-section_blocks, IsWired-section_arcs,
        IsWired-section_lines, stored,
      )
      depth 20

of_Wires :
    (r : Result (FileSummary × Function × Bytes)) (b : FileSummary × Function × Bytes)
    → Wires r
    → r ≡ ok b
    → AllWired b.0 × IsWired b.1
of_Wires (raise e) b w h = cc
of_Wires (ok c) b w h =
    subst (λ (x : FileSummary × Function × Bytes). AllWired x.0 × IsWired x.1) (ok-injective c b h)
      w.holds

parse_loop-AllWired :
    (fuel : ℕ) (big : Big) (version : Str) (files : FileSummary) (func : Option Function)
    (s : Bytes) (result : FileSummary)
    → Current func
    → AllWired files
    → parse_loop fuel big version files func s ≡ ok result
    → AllWired result
unfolding parse_loop
parse_loop-AllWired zero big version files func s result w h e = cc
parse_loop-AllWired (suc fuel) big version files func s result w h e =
    elim (Option-cases (read_section big is_tag s)) [
      | inl ended ↦
          let last : store func files ≡ result = ground arith in
          subst AllWired last (AllWired-store func files w h)
      | inr ((tag, len, s₁), found) ↦
          elim (Result-cases (section big version tag len files func s₁)) [
            | inl (b, done) ↦
                let kept =
                  of_Wires _ b (Wires-section big version tag len files func s₁ w h) done in
                parse_loop-AllWired fuel big version b.0 (some b.1) b.2 result kept.1 kept.0
                  (ground arith)
            | inr (x, failed) ↦ absurd (ground arith)
          ]
    ]

-- In every function that `ParseGcnoFile` returns, an arc stands exactly once in the exits of its
-- source block and once in the entries of its destination block, and in no other block; no count is
-- resolved, and all counts are 0.
pub parse_gcno_file-AllWired :
    (s : Bytes) (files : FileSummary) → parse_gcno_file s ≡ ok files → AllWired files
unfolding parse_gcno_file new_parser parse
parse_gcno_file-AllWired s files e = elim (Result-cases (init magic s)) [
  | inl (p, opened) ↦
      parse_loop-AllWired (length p.bytes + 1) p.big p.version [] none p.bytes files tt tt
        (ground arith)
  | inr (x, failed) ↦ absurd (ground arith)
]
