-- ===== src/Archive.antt =====
-- utils/python/archive/archive_parser.py: the class `Archive`. Contents are byte strings. A method
-- returns what it reads and the new object, or raises ValueError.
pub mod Dictionaries
pub mod Files
pub mod Members
pub mod Names
mod Tests
use test_vts.Base.{
  ℕ, zero, suc, ◌+◌, ◌-◌, Bool, true, false, not, Option, none, some, List, [], ◌∷◌, ◌++◌, ◌==◌, Eq,
  ltb, length, take, drop, nat_eq, if◌then◌else◌,
}
use test_vts.Base.Int.{ℤ, pos, negsuc, ◌+ℤ◌}
use test_vts.Base.Text.{Str, codes, starts_with, ends_with, str_eq, str_eq_instance}
use test_vts.Common.ListUtils.Text.{strip, split}
use test_vts.Library.Result.{Result, ok, raise, ◌>>=◌, value_error, out_of_fuel}
use test_vts.Library.Ar.{int}

-- Dictionaries are lists in the order of their keys' insertion. The cursor is an integer, since the
-- size of a content may be negative.
pub record Archive : Type 0 where
  pub files : List (Str × Str)
  pub content : Str
  pub cursor : ℤ
  pub string_table : List (ℕ × Str)

abbrev pub global_sig : Str
global_sig = codes "!<arch>\n"

abbrev pub string_table_id : Str
string_table_id = codes "//"

abbrev pub string_table_terminator : Str
string_table_terminator = codes "/\n"

abbrev pub sym_table_id : Str
sym_table_id = codes "__.SYMDEF"

abbrev pub file_id_terminator : Str
file_id_terminator = codes "/"

abbrev pub end_tag : Str
end_tag = codes "`\n"

unfoldable pub init : Str → Archive
init file_content = record { files = []; content = file_content; cursor = pos 0; string_table = [] }

-- `d[key] = value`
module _ {K : Type 0} ⦃e : Eq K⦄ where
  unfoldable pub assign : K → Str → List (K × Str) → List (K × Str)
  assign key value [] = (key, value) ∷ []
  assign key value ((k, v) ∷ d) =
      let rest = assign key value d in if e.beq k key then (k, value) ∷ d else (k, v) ∷ rest

-- The entry of a key, for `offset not in self._string_table` and the look-up after it.
unfoldable pub look_up : ℕ → List (ℕ × Str) → Option Str
look_up key [] = none
look_up key ((k, v) ∷ d) = let rest = look_up key d in if k == key then some v else rest

-- A bound of a slice, counted from the front.
unfoldable pub from_front : ℤ → Str → ℕ
from_front (pos n) s = n
from_front (negsuc n) s = length s - suc n

-- `s[first : last]`
unfoldable pub slice : ℤ → ℤ → Str → Str
unfolding from_front
slice first last s = take (from_front last s - from_front first s) (drop (from_front first s) s)

unfoldable pub is_past : ℤ → ℕ → Bool
is_past (pos n) size = ltb size n
is_past (negsuc n) size = false

unfoldable pub is_before : ℤ → ℕ → Bool
is_before (pos n) size = ltb n size
is_before (negsuc n) size = true

unfoldable pub read_bytes : ℤ → Archive → Result (Str × Archive)
unfolding slice is_past
read_bytes n a =
    if is_past (a.cursor +ℤ n) (length a.content)
    then raise value_error
    else ok (slice a.cursor (a.cursor +ℤ n) a.content, record a { cursor = a.cursor +ℤ n })

-- The loop over the names of a string table.
unfoldable pub store_names : ℕ → List Str → List (ℕ × Str) → List (ℕ × Str)
unfolding assign
store_names acc [] table = table
store_names acc (string ∷ names) table =
    store_names (acc + (length string + length string_table_terminator)) names
      (assign acc string table)

unfoldable pub store_file : Str → Str → Archive → Archive
unfolding assign
store_file name content a = record a { files = assign name content a.files }

unfoldable pub named_at : ℤ → List (ℕ × Str) → Result Str
unfolding look_up
named_at (pos offset) table = elim (look_up offset table) [
  | none ↦ raise value_error
  | some name ↦ ok name
]
named_at (negsuc n) table = raise value_error

-- `ReadFile` from the test of the name on.
unfoldable pub store_content : Str → Str → Archive → Result Archive
unfolding store_names store_file named_at
store_content name content a =
    if str_eq name string_table_id
    then (let names = split string_table_terminator 0 content in
        ok (record a { string_table = store_names 0 (names.0 ∷ names.1) a.string_table }))
    else if str_eq name sym_table_id
    then ok a
    else if ends_with file_id_terminator name
    then ok (store_file (take (length name - length file_id_terminator) name) content a)
    else if starts_with file_id_terminator name
    then (do
      offset ← int (drop (length file_id_terminator) name)
      name' ← named_at offset a.string_table
      ok (store_file name' content a))
    else ok (store_file name content a)

unfoldable pub check_tag : Str → Archive → Result Archive
check_tag tag a = if str_eq tag end_tag then ok a else raise value_error

unfoldable pub read_file : Archive → Result Archive
unfolding read_bytes store_content check_tag
read_file a = do
  name ← read_bytes (pos 16) a
  timestamp ← read_bytes (pos 12) name.1
  owner ← read_bytes (pos 6) timestamp.1
  group ← read_bytes (pos 6) owner.1
  mode ← read_bytes (pos 8) group.1
  size ← read_bytes (pos 10) mode.1
  content_size ← int size.0
  tag ← read_bytes (pos 2) size.1
  checked ← check_tag tag.0 tag.1
  content ← read_bytes content_size checked
  store_content (strip name.0) content.0 content.1

-- The loop of `Parse`. A member of a negative size may lead it back, so it may run for ever.
unfoldable pub parse_loop : ℕ → Archive → Result Archive
unfolding read_file is_before
parse_loop zero a = raise out_of_fuel
parse_loop (suc fuel) a = elim (is_before a.cursor (length a.content)) [
  | false ↦ ok a
  | true ↦ do a' ← read_file a; parse_loop fuel a'
]

unfoldable pub check_sig : Str → Archive → Result Archive
check_sig sig a = if str_eq sig global_sig then ok a else raise value_error

unfoldable pub parse : ℕ → Archive → Result Archive
unfolding parse_loop check_sig read_bytes
parse fuel a = do
  sig ← read_bytes (pos (length global_sig)) a
  checked ← check_sig sig.0 sig.1
  parse_loop fuel checked
