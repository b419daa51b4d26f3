-- ===== src/Coverage/Gcno.antt =====
-- utils/python/coverage/gcno_parser.py: the parser of GCNO files, over the stream of parser.py.
pub mod Shrinks
pub mod Total
pub mod Graph
use test_vts.Base.{
  ℕ, zero, suc, ◌+◌, ◌-◌, ◌/◌, ◌<◌, Bool, true, false, not, ◌||◌, List, [], ◌∷◌, ◌++◌, Option, none,
  some, ◌==◌, ltb, length, get_or, get_elem?, set, if◌then◌else◌,
}
use test_vts.Base.Text.{Str}
use test_vts.Coverage.Result.{
  Result, ok, raise, ◌>>=◌, file_format, index_error, attribute_error, out_of_fuel,
}
use test_vts.Coverage.Stream.{Bytes, Big, Stream, word, read_int, read_string, version_digit, init}
use test_vts.Coverage.Summary.{
  Arc, Block, Function, FileSummary, new_arc, new_block, new_function, insert,
}
use test_vts.Coverage.Resolve.{no_block}

abbrev pub magic : ℕ
magic = 0x67636e6f

abbrev pub tag_function : ℕ
tag_function = 0x01000000

abbrev pub tag_blocks : ℕ
tag_blocks = 0x01410000

abbrev pub tag_arcs : ℕ
tag_arcs = 0x01430000

abbrev pub tag_lines : ℕ
tag_lines = 0x01450000

abbrev pub is_tag : ℕ → Bool
is_tag tag = tag == tag_function || tag == tag_blocks || tag == tag_arcs || tag == tag_lines

-- The inner `while True`: words are skipped up to one that `known` accepts. `none` is the
-- FileFormatError at the end of the stream.
unfoldable pub find_tag : Big → (ℕ → Bool) → Bytes → Option (ℕ × Bytes)
unfolding word
find_tag big known (a ∷ b ∷ c ∷ d ∷ rest) =
    let later = find_tag big known rest in
    if known (word big a b c d) then some (word big a b c d, rest) else later
find_tag big known _ = none

-- The body of the `try`: a tag and the length behind it.
unfoldable pub read_section : Big → (ℕ → Bool) → Bytes → Option (ℕ × ℕ × Bytes)
read_section big known s = elim (find_tag big known s) [
  | none ↦ none
  | some (tag, s₁) ↦ elim (read_int big s₁) [ raise e ↦ none | ok (len, s₂) ↦ some (tag, len, s₂) ]
]

module _ (big : Big) where
  -- `if int(self.version[1]) > 4: self.ReadInt()`
  unfoldable pub skip_checksum : Str → Bytes → Result (Unit {0} × Bytes)
  skip_checksum version s = do
    digit ← version_digit version
    if ltb 4 digit then (do (_, s₁) ← read_int big s; ok (tt, s₁)) else ok (tt, s)

  unfoldable pub read_function : Str → Bytes → Result (Function × Bytes)
  unfolding skip_checksum
  read_function version s = do
    (ident, s₁) ← read_int big s
    (_, s₂) ← read_int big s₁
    (_, s₃) ← skip_checksum version s₂
    (name, s₄) ← read_string big s₃
    (source_file_name, s₅) ← read_string big s₄
    (first_line_number, s₆) ← read_int big s₅
    ok (new_function ident name source_file_name first_line_number, s₆)

  -- The blocks are numbered from the start of the section.
  unfoldable pub read_blocks : ℕ → ℕ → Bytes → Result (List Block × Bytes)
  read_blocks zero index s = ok ([], s)
  read_blocks (suc left) index s = do
    (flag, s₁) ← read_int big s
    (blocks, s₂) ← read_blocks left (index + 1) s₁
    ok (new_block index flag ∷ blocks, s₂)

  -- The calls on `func` raise AttributeError if no function has been read.
  unfoldable pub section_blocks : ℕ → Option Function → Bytes → Result (Function × Bytes)
  unfolding read_blocks
  section_blocks len func s = do
    (blocks, s₁) ← read_blocks len 0 s
    elim func [
      | none ↦ raise attribute_error
      | some f ↦ ok (record f { blocks = f.blocks ++ blocks }, s₁)
    ]

-- `src_block.exit_arcs.append(arc)`, `dst_block.entry_arcs.append(arc)` for a new arc
unfoldable pub add_exit : ℕ → ℕ → List Block → List Block
add_exit b a blocks =
    let block = get_or blocks b no_block in
    set blocks b (record block { exit_arcs = block.exit_arcs ++ a ∷ [] })

unfoldable pub add_entry : ℕ → ℕ → List Block → List Block
add_entry b a blocks =
    let block = get_or blocks b no_block in
    set blocks b (record block { entry_arcs = block.entry_arcs ++ a ∷ [] })

unfoldable pub add_arc : ℕ → ℕ → ℕ → Function → Function
unfolding add_exit add_entry
add_arc src dst flag f = record f {
  arcs = f.arcs ++ new_arc src dst flag ∷ [];
  blocks = add_entry dst (length f.arcs) (add_exit src (length f.arcs) f.blocks);
}

module _ (big : Big) where
  unfoldable pub read_arcs : ℕ → ℕ → Function → Bytes → Result (Function × Bytes)
  read_arcs zero src f s = ok (f, s)
  read_arcs (suc left) src f s = do
    (dst, s₁) ← read_int big s
    if ltb dst (length f.blocks)
        then (do (flag, s₂) ← read_int big s₁; read_arcs left src (add_arc src dst flag f) s₂)
        else raise index_error

  unfoldable pub section_arcs : ℕ → Option Function → Bytes → Result (Function × Bytes)
  section_arcs len func s = do
    (src, s₁) ← read_int big s
    elim func [
      | none ↦ raise attribute_error
      | some f ↦
          if ltb src (length f.blocks)
          then read_arcs ((len - 1) / 2) src f s₁
          else raise index_error
    ]

  -- Line numbers; a zero is no line.
  unfoldable pub read_lines : ℕ → Bytes → Result (List ℕ × Bytes)
  read_lines zero s = ok ([], s)
  read_lines (suc left) s = do
    (line, s₁) ← read_int big s
    (lines, s₂) ← read_lines left s₁
    ok (if line == 0 then lines else line ∷ lines, s₂)

  -- `int(math.ceil(len(src) * 1.0 / 4)) + 1`
  abbrev pub source_words : Str → ℕ
  source_words src = (length src + 3) / 4 + 1

  unfoldable pub section_lines : ℕ → Option Function → Bytes → Result (Function × Bytes)
  unfolding read_lines
  section_lines len func s = do
    (block_number, s₁) ← read_int big s
    (_, s₂) ← read_int big s₁
    (src, s₃) ← read_string big s₂
    (lines, s₄) ← read_lines (len - source_words src - 3) s₃
    elim func [
      | none ↦ raise attribute_error
      | some f ↦
          if ltb block_number (length f.blocks)
          then ok (
            record f {
              blocks =
                  set f.blocks block_number
                    (record (get_or f.blocks block_number no_block) { lines = lines });
            },
            s₄,
          )
          else raise index_error
    ]

-- `if func: self.file_summary.functions[func.ident] = func`
unfoldable pub store : Option Function → FileSummary → FileSummary
store none files = files
store (some f) files = insert f.ident f files

-- What one section does to the functions read and to the current function.
unfoldable pub section :
    Big
    → Str
    → ℕ
    → ℕ
    → FileSummary
    → Option Function
    → Bytes
    → Result (FileSummary × Function × Bytes)
section big version tag len files func s =
    if tag == tag_function
    then (do (f, s₁) ← read_function big version s; ok (store func files, f, s₁))
    else if tag == tag_blocks
    then (do (f, s₁) ← section_blocks big len func s; ok (files, f, s₁))
    else if tag == tag_arcs
    then (do (f, s₁) ← section_arcs big len func s; ok (files, f, s₁))
    else do (f, s₁) ← section_lines big len func s; ok (files, f, s₁)

-- The outer `while True`, with fuel for the sections.
unfoldable pub parse_loop :
    ℕ → Big → Str → FileSummary → Option Function → Bytes → Result FileSummary
parse_loop zero big version files func s = raise out_of_fuel
parse_loop (suc fuel) big version files func s = elim (read_section big is_tag s) [
  | none ↦ elim func [ none ↦ raise file_format | some f ↦ ok (store (some f) files) ]
  | some (tag, len, s₁) ↦ elim (section big version tag len files func s₁) [
    | raise e ↦ raise e
    | ok (files', f, s₂) ↦ parse_loop fuel big version files' (some f) s₂
  ]
]

-- The parser object; `Parse` sets `parsed` only where it returns.
pub record Parser : Type 0 where
  pub stream : Stream
  pub file_summary : FileSummary
  pub parsed : Bool

unfoldable pub new_parser : Bytes → Result Parser
new_parser s = do
  stream ← init magic s
  ok (record { stream = stream; file_summary = []; parsed = false })

unfoldable pub parse : Parser → Result FileSummary
parse p =
    if p.parsed
    then ok p.file_summary
    else parse_loop (length p.stream.bytes + 1) p.stream.big p.stream.version p.file_summary none
        p.stream.bytes

-- `ParseGcnoFile`, of the bytes of the file
unfoldable pub parse_gcno_file : Bytes → Result FileSummary
unfolding new_parser parse
parse_gcno_file s = do p ← new_parser s; parse p
