-- ===== src/Coverage/Summary.antt =====
-- utils/python/coverage: arc_summary.py, block_summary.py, function_summary.py, file_summary.py. The
-- objects of a function stand in two arrays: an arc is a position in `arcs`, a block a position in
-- `blocks`, and the lists of arcs of a block hold positions, so that what two lists share is shared.
use test_vts.Base.{ℕ, ◌/◌, ◌%◌, Bool, false, List, [], ◌∷◌, Option, none, some, ◌==◌, if◌then◌else◌}
use test_vts.Base.Int.{ℤ, pos}
use test_vts.Base.Text.{Str}

pub record Arc : Type 0 where
  pub src_block : ℕ
  pub dst_block : ℕ
  pub on_tree : Bool
  pub fake : Bool
  pub fallthrough : Bool
  pub resolved : Bool
  pub count : ℤ

-- `bool(flag & (1 << k))` for the three flags GCOV_ARC_ON_TREE, GCOV_ARC_FAKE, GCOV_ARC_FALLTHROUGH
abbrev pub flag_bit : ℕ → Bool
flag_bit n = n % 2 == 1

unfoldable pub new_arc : ℕ → ℕ → ℕ → Arc
new_arc src_block dst_block flag = record {
  src_block = src_block;
  dst_block = dst_block;
  on_tree = flag_bit flag;
  fake = flag_bit (flag / 2);
  fallthrough = flag_bit (flag / 4);
  resolved = false;
  count = pos 0;
}

pub record Block : Type 0 where
  pub index : ℕ
  pub flag : ℕ
  pub entry_arcs : List ℕ
  pub exit_arcs : List ℕ
  pub count : ℤ
  pub lines : List ℕ

unfoldable pub new_block : ℕ → ℕ → Block
new_block index flag = record {
  index = index;
  flag = flag;
  entry_arcs = [];
  exit_arcs = [];
  count = pos 0;
  lines = [];
}

pub record Function : Type 0 where
  pub blocks : List Block
  pub arcs : List Arc
  pub ident : ℕ
  pub name : Str
  pub src_file_name : Str
  pub first_line_number : ℕ

unfoldable pub new_function : ℕ → Str → Str → ℕ → Function
new_function ident name src_file_name first_line_number = record {
  blocks = [];
  arcs = [];
  ident = ident;
  name = name;
  src_file_name = src_file_name;
  first_line_number = first_line_number;
}

-- `FileSummary.functions`: a dictionary from idents to functions
abbrev pub FileSummary : Type 0
FileSummary = List (ℕ × Function)

unfoldable pub lookup : ℕ → FileSummary → Option Function
lookup ident [] = none
lookup ident ((i, f) ∷ rest) = if i == ident then some f else lookup ident rest

unfoldable pub insert : ℕ → Function → FileSummary → FileSummary
insert ident f [] = (ident, f) ∷ []
insert ident f ((i, g) ∷ rest) =
    if i == ident then (ident, f) ∷ rest else (i, g) ∷ insert ident f rest
