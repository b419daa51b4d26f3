-- ===== src/Coverage/Gcda/Total.antt =====
-- The loops of utils/python/coverage/gcda_parser.py end.
use test_vts.Base.{
  ℕ, zero, suc, ◌+◌, ◌<◌, ◌≢◌, List, [], ◌∷◌, none, arith, length, Option-cases, inl, inr,
}
use test_vts.Base.Text.{Str}
use test_vts.Coverage.Result.{Result-cases, raise, out_of_fuel}
use test_vts.Coverage.Stream.{Bytes, Big, init, read_int64}
use test_vts.Coverage.Summary.{Block, Function, FileSummary}
use test_vts.Coverage.Resolve.Ends.{resolve-total}
use test_vts.Coverage.Gcno.{read_section}
use test_vts.Coverage.Gcno.Shrinks.{read_section-lt}
use test_vts.Coverage.Gcno.Total.{init-ne}
use test_vts.Coverage.Shrinks.{Shrinks, shrink_rules, Shrinks-eq_ok, Shrinks-eq_raise}
use test_vts.Coverage.Gcda.{
  Current, magic, is_tag, find_function, current, words_read, skip_name, skip_header, read_function,
  read_count, read_arc_counts, read_block_counts, read_counts, skip_ints, resolved, State,
  section_counter, section, parse_loop, parse_gcda_file,
}

module _ (big : Big) where
  Shrinks-skip_header :
      (version : Str) (len : ℕ) (s : Bytes) → Shrinks s (skip_header big version len s)
  unfolding skip_header words_read skip_name
  Shrinks-skip_header version len s = search shrink_rules depth 30

  find_function-ne :
      (ident : ℕ) (files : FileSummary) → find_function ident files ≢ raise out_of_fuel
  unfolding find_function
  find_function-ne ident files = ground arith

  Shrinks-read_function :
      (version : Str) (len : ℕ) (files : FileSummary) (s : Bytes)
      → Shrinks s (read_function big version len files s)
  unfolding read_function
  Shrinks-read_function version len files s =
      search (shrink_rules, Shrinks-skip_header, find_function-ne) depth 30

  Shrinks-read_int64 : (s : Bytes) → Shrinks s (read_int64 big s)
  unfolding read_int64
  Shrinks-read_int64 s = search shrink_rules depth 30

  Shrinks-read_count : (a : ℕ) (f : Function) (s : Bytes) → Shrinks s (read_count big a f s)
  unfolding read_count
  Shrinks-read_count a f s = search (shrink_rules, Shrinks-read_int64) depth 30

  Shrinks-read_arc_counts :
      (ids : List ℕ) (f : Function) (s : Bytes) → Shrinks s (read_arc_counts big ids f s)
  unfolding read_arc_counts
  Shrinks-read_arc_counts [] f s = search shrink_rules depth 30
  Shrinks-read_arc_counts (a ∷ ids) f s =
      search (shrink_rules, Shrinks-read_count, Shrinks-read_arc_counts ids) depth 30

  Shrinks-read_block_counts :
      (bs : List Block) (f : Function) (s : Bytes) → Shrinks s (read_block_counts big bs f s)
  unfolding read_block_counts
  Shrinks-read_block_counts [] f s = search shrink_rules depth 30
  Shrinks-read_block_counts (b ∷ bs) f s =
      search (shrink_rules, Shrinks-read_arc_counts, Shrinks-read_block_counts bs) depth 30

  Shrinks-skip_ints : (left : ℕ) (s : Bytes) → Shrinks s (skip_ints big left s)
  unfolding skip_ints
  Shrinks-skip_ints zero s = search shrink_rules depth 30
  Shrinks-skip_ints (suc left) s = search (shrink_rules, Shrinks-skip_ints left) depth 30

  current-ne : (func : Current) → current func ≢ raise out_of_fuel
  unfolding current
  current-ne func = ground arith

  resolved-ne : (f : Function) → resolved f ≢ raise out_of_fuel
  unfolding resolved
  resolved-ne f = ground (arith, resolve-total f)

  Shrinks-section_counter : (st : State) (s : Bytes) → Shrinks s (section_counter big st s)
  unfolding section_counter read_counts
  Shrinks-section_counter st s =
      search (shrink_rules, Shrinks-read_block_counts, current-ne, resolved-ne) depth 30

  Shrinks-section :
      (version : Str) (tag len : ℕ) (st : State) (s : Bytes)
      → Shrinks s (section big version tag len st s)
  unfolding section
  Shrinks-section version tag len st s =
      search (shrink_rules, Shrinks-read_function, Shrinks-section_counter, Shrinks-skip_ints) depth
        30

  parse_loop-total :
      (fuel : ℕ) (version : Str) (st : State) (s : Bytes)
      → length s < fuel
      → parse_loop fuel big version st s ≢ raise out_of_fuel
  unfolding parse_loop
  parse_loop-total zero version st s h = absurd (omega arith)
  parse_loop-total (suc fuel) version st s h = elim (Option-cases (read_section big is_tag s)) [
    | inl ended ↦ ground arith
    | inr ((tag, len, s₁), found) ↦
        let step = Shrinks-section version tag len st s₁ in
        elim (Result-cases (section big version tag len st s₁)) [
          | inl (b, done) ↦
              let rest = parse_loop-total fuel version b.0 b.1 (
                omega (
                  arith,
                  read_section-lt big is_tag s tag len s₁ found,
                  Shrinks-eq_ok s₁ _ b step done,
                )) in
              ground arith
          | inr (e, failed) ↦ let ne = Shrinks-eq_raise s₁ _ e step failed in ground arith
        ]
  ]

-- `ParseGcdaFile` returns or raises on every file and for every summary: as much fuel as the file has
-- bytes is enough for its loop over the sections, and the `Resolve` that it calls returns.
pub parse_gcda_file-total :
    (s : Bytes) (files : FileSummary) → parse_gcda_file s files ≢ raise out_of_fuel
unfolding parse_gcda_file
parse_gcda_file-total s files = elim (Result-cases (init magic s)) [
  | inl (p, opened) ↦
      let start : State = record { files = files; func = none } in
      let rest =
        parse_loop-total p.big (length p.bytes + 1) p.version start p.bytes (omega arith) in
      ground arith
  | inr (e, failed) ↦ let ne = init-ne magic s in ground arith
]
