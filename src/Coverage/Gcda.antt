-- ===== src/Coverage/Gcda.antt =====
-- utils/python/coverage/gcda_parser.py: the parser of GCDA files, which adds the measured counts to
-- the functions of a GCNO file and resolves the others.
pub mod Total
pub mod Counts
pub mod Blocks
use test_vts.Base.{
  ℕ, zero, suc, ◌+◌, ◌-◌, ◌<◌, Bool, true, false, not, ◌&&◌, ◌||◌, List, [], ◌∷◌, Option, none,
  some, ◌==◌, ltb, length, if◌then◌else◌,
}
use test_vts.Base.Int.{pos}
use test_vts.Base.Text.{Str}
use test_vts.Coverage.Result.{
  Result, ok, raise, ◌>>=◌, file_format, key_error, attribute_error, out_of_fuel,
}
use test_vts.Coverage.Stream.{Bytes, Big, read_int, read_int64, read_string, version_digit, init}
use test_vts.Coverage.Summary.{Block, Function, FileSummary, lookup, insert}
use test_vts.Coverage.Resolve.{arc, set_count, resolve}
use test_vts.Coverage.Gcno.{read_section}

abbrev pub magic : ℕ
magic = 0x67636461

abbrev pub tag_function : ℕ
tag_function = 0x01000000

abbrev pub tag_counter : ℕ
tag_counter = 0x01a10000

abbrev pub tag_object : ℕ
tag_object = 0xa1000000

abbrev pub tag_program : ℕ
tag_program = 0xa3000000

abbrev pub is_tag : ℕ → Bool
is_tag tag = tag == tag_function || tag == tag_counter || tag == tag_object || tag == tag_program

-- `func` is the object of the dictionary; its ident goes with it, so that it can be written back.
abbrev pub Current : Type 0
Current = Option (ℕ × Function)

-- `self.file_summary.functions[ident]`
unfoldable pub find_function : ℕ → FileSummary → Result Function
find_function ident files = elim (lookup ident files) [ none ↦ raise key_error | some f ↦ ok f ]

-- The use of `func`, which is `None` before the first function.
unfoldable pub current : Current → Result (ℕ × Function)
current none = raise attribute_error
current (some found) = ok found

-- `if not arc.fake and not arc.on_tree`
unfoldable pub is_counted : Function → ℕ → Bool
is_counted f a = not (arc f a).fake && not (arc f a).on_tree

module _ (big : Big) where
  -- `words_read`, and the checksum that is skipped from version 5 on
  unfoldable pub words_read : Str → Bytes → Result (ℕ × Bytes)
  words_read version s = do
    digit ← version_digit version
    if ltb 4 digit then (do (_, s₁) ← read_int big s; ok (4, s₁)) else ok (3, s)

  unfoldable pub skip_name : Bool → Bytes → Result (Unit {0} × Bytes)
  skip_name has_name s =
      if has_name then (do (_, s₁) ← read_string big s; ok (tt, s₁)) else ok (tt, s)

  unfoldable pub skip_header : Str → ℕ → Bytes → Result (Unit {0} × Bytes)
  unfolding words_read skip_name
  skip_header version len s = do
    (_, s₁) ← read_int big s
    (words, s₂) ← words_read version s₁
    skip_name (ltb words len) s₂

  unfoldable pub read_function : Str → ℕ → FileSummary → Bytes → Result ((ℕ × Function) × Bytes)
  unfolding skip_header find_function
  read_function version len files s = do
    (ident, s₁) ← read_int big s
    f ← find_function ident files
    (_, s₂) ← skip_header version len s₁
    ok ((ident, f), s₂)

  unfoldable pub read_count : ℕ → Function → Bytes → Result (Function × Bytes)
  unfolding is_counted
  read_count a f s =
      if is_counted f a
      then (do (count, s₁) ← read_int64 big s; ok (set_count f a (pos count), s₁))
      else ok (f, s)

  unfoldable pub read_arc_counts : List ℕ → Function → Bytes → Result (Function × Bytes)
  unfolding read_count
  read_arc_counts [] f s = ok (f, s)
  read_arc_counts (a ∷ ids) f s = do (f₁, s₁) ← read_count a f s; read_arc_counts ids f₁ s₁

  unfoldable pub read_block_counts : List Block → Function → Bytes → Result (Function × Bytes)
  unfolding read_arc_counts
  read_block_counts [] f s = ok (f, s)
  read_block_counts (b ∷ bs) f s = do
    (f₁, s₁) ← read_arc_counts b.exit_arcs f s
    read_block_counts bs f₁ s₁

  -- `ReadCounts`; no list of arcs changes while it runs.
  unfoldable pub read_counts : Function → Bytes → Result (Function × Bytes)
  unfolding read_block_counts
  read_counts f s = read_block_counts f.blocks f s

  unfoldable pub skip_ints : ℕ → Bytes → Result (Unit {0} × Bytes)
  skip_ints zero s = ok (tt, s)
  skip_ints (suc left) s = do (_, s₁) ← read_int big s; skip_ints left s₁

-- `if not func.Resolve(): raise`
unfoldable pub resolved : Function → Result Function
resolved f = elim (resolve f) [
  | none ↦ raise out_of_fuel
  | some (g, true) ↦ ok g
  | some (g, false) ↦ raise file_format
]

-- The functions and the current one.
pub record State : Type 0 where
  pub files : FileSummary
  pub func : Current

unfoldable pub section_counter : Big → State → Bytes → Result (State × Bytes)
unfolding resolved current
section_counter big st s = do
  (ident, f) ← current st.func
  (f₁, s₁) ← read_counts big f s
  g ← resolved f₁
  ok (record { files = insert ident g st.files; func = some (ident, g) }, s₁)

-- What one section does.
unfoldable pub section : Big → Str → ℕ → ℕ → State → Bytes → Result (State × Bytes)
unfolding section_counter
section big version tag len st s =
    if tag == tag_function
    then (do
      (found, s₁) ← read_function big version len st.files s
      ok (record st { func = some found }, s₁))
    else if tag == tag_counter
    then section_counter big st s
    else if tag == tag_object
    then ok (st, s)
    else do (_, s₁) ← read_int big s; (_, s₂) ← skip_ints big (len - 1) s₁; ok (st, s₂)

-- The outer `while True`, with fuel for the sections.
unfoldable pub parse_loop : ℕ → Big → Str → State → Bytes → Result FileSummary
parse_loop zero big version st s = raise out_of_fuel
parse_loop (suc fuel) big version st s = elim (read_section big is_tag s) [
  | none ↦ ok st.files
  | some (tag, len, s₁) ↦ elim (section big version tag len st s₁) [
    | raise e ↦ raise e
    | ok (st', s₂) ↦ parse_loop fuel big version st' s₂
  ]
]

-- `ParseGcdaFile`, of the bytes of the file
unfoldable pub parse_gcda_file : Bytes → FileSummary → Result FileSummary
parse_gcda_file s files = do
  p ← init magic s
  parse_loop (length p.bytes + 1) p.big p.version (record { files = files; func = none }) p.bytes
