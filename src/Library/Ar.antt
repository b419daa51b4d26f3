-- ===== src/Library/Ar.antt =====
-- utils/python/library/ar_parser.py: ELF objects in an archive. A file is the list of its bytes; that
-- it cannot be opened or read is not modelled. What the generator yields is returned as a list.
pub mod Members
pub mod Endless
use test_vts.Base.{
  ℕ, zero, suc, ◌+◌, ◌-◌, ◌*◌, ◌%◌, Bool, true, false, not, ◌&&◌, ◌||◌, Option, none, some, List,
  [], ◌∷◌, ◌++◌, ◌==◌, leb, take, drop, length, elem, if◌then◌else◌,
}
use test_vts.Base.Int.{ℤ, pos, negsuc, ◌+ℤ◌, ◌-ℤ◌}
use test_vts.Base.Text.{Str, str_eq, str_eq_instance, codes}
use test_vts.Library.Result.{Result, ok, raise, ◌>>=◌, ar_error, value_error, out_of_fuel}
use test_vts.Library.Consts.{symtab_name, strtab_name}
use test_vts.Library.Elf.{init}
use test_vts.Library.Elf.Symbols.{list_global_symbols}

-- `rstrip(" ")`
unfoldable pub rstrip_space : Str → Str
rstrip_space [] = []
rstrip_space (c ∷ s) =
    let t = rstrip_space s in elim t [ [] ↦ if c == b' ' then [] else c ∷ [] | d ∷ r ↦ c ∷ d ∷ r ]

-- The whitespace that `int` strips.
abbrev pub is_space : ℕ → Bool
is_space c = c == 32 || (leb 9 c && leb c 13)

unfoldable pub lstrip : Str → Str
lstrip [] = []
lstrip (c ∷ s) = if is_space c then lstrip s else c ∷ s

-- The digits to the end of the text or to trailing whitespace.
unfoldable pub int_digits : ℕ → Str → Option ℕ
int_digits n [] = some n
int_digits n (c ∷ s) =
    if leb b'0' c && leb c b'9'
    then int_digits (n * 10 + (c - 48)) s
    else elim (lstrip (c ∷ s)) [ [] ↦ some n | d ∷ t ↦ none ]

-- At least one digit.
unfoldable pub int_unsigned : Str → Option ℕ
int_unsigned [] = none
int_unsigned (c ∷ s) = if leb b'0' c && leb c b'9' then int_digits 0 (c ∷ s) else none

unfoldable pub int_signed : Str → Option ℤ
int_signed [] = none
int_signed (c ∷ s) =
    if c == b'-'
    then elim (int_unsigned s) [ none ↦ none | some n ↦ some (pos 0 -ℤ pos n) ]
    else if c == b'+'
    then elim (int_unsigned s) [ none ↦ none | some n ↦ some (pos n) ]
    else elim (int_unsigned (c ∷ s)) [ none ↦ none | some n ↦ some (pos n) ]

-- `int(text)`
unfoldable pub int : Str → Result ℤ
int text = elim (int_signed (lstrip text)) [ none ↦ raise value_error | some v ↦ ok v ]

abbrev pub special_names : List Str
special_names = codes "/" ∷ codes "//" ∷ codes "/SYM64/" ∷ []

-- `ar.seek(obj_offset + obj_offset % 2)`; a negative position is an IOError.
unfoldable pub next_header : ℤ → Result ℕ
next_header (pos obj_offset) = ok (obj_offset + obj_offset % 2)
next_header (negsuc n) = raise ar_error

-- The offset of a member that is not a string table.
unfoldable pub yielded : Str → ℕ → List ℕ
yielded obj_name obj_offset = if elem obj_name special_names then [] else obj_offset ∷ []

-- The loop of `_IterateArchive`, from the position `at` on.
unfoldable pub iterate_from : ℕ → List ℕ → ℕ → Result (List ℕ)
iterate_from zero ar at = raise out_of_fuel
iterate_from (suc fuel) ar at =
    let header = take 60 (drop at ar) in
    elim (length header == 60) [
      | false ↦ ok []
      | true ↦ do
        obj_size ← int (rstrip_space (take 10 (drop 48 header)))
        next ← next_header (pos (at + 60) +ℤ obj_size)
        rest ← iterate_from fuel ar next
        ok (yielded (rstrip_space (take 16 header)) (at + 60) ++ rest)
    ]

-- `_IterateArchive`, with at most `fuel` headers
unfoldable pub iterate_archive : ℕ → List ℕ → Result (List ℕ)
iterate_archive fuel ar =
    if not (str_eq (take 8 ar) (codes "!<arch>" ++ 10 ∷ []))
    then raise ar_error
    else iterate_from fuel ar 8

-- The body of the loop of `ListGlobalSymbols`, at what the generator yields for a header.
unfoldable pub symbols_at : List ℕ → List ℕ → Result (List Str)
symbols_at ar [] = ok []
symbols_at ar (offset ∷ offsets) = do
  parser ← init ar offset
  symbols ← list_global_symbols false symtab_name strtab_name parser
  rest ← symbols_at ar offsets
  ok (symbols ++ rest)

-- The loop of `ListGlobalSymbols` and that of `_IterateArchive`, which takes turns with it: an object
-- is parsed before the position of the next header is known.
unfoldable pub symbols_from : ℕ → List ℕ → ℕ → Result (List Str)
unfolding symbols_at
symbols_from zero ar at = raise out_of_fuel
symbols_from (suc fuel) ar at =
    let header = take 60 (drop at ar) in
    elim (length header == 60) [
      | false ↦ ok []
      | true ↦ do
        obj_size ← int (rstrip_space (take 10 (drop 48 header)))
        symbols ← symbols_at ar (yielded (rstrip_space (take 16 header)) (at + 60))
        next ← next_header (pos (at + 60) +ℤ obj_size)
        rest ← symbols_from fuel ar next
        ok (symbols ++ rest)
    ]

-- `ListGlobalSymbols`, with at most `fuel` headers
unfoldable pub list_global_symbols_of_archive : ℕ → List ℕ → Result (List Str)
unfolding symbols_from
list_global_symbols_of_archive fuel ar =
    if not (str_eq (take 8 ar) (codes "!<arch>" ++ 10 ∷ []))
    then raise ar_error
    else symbols_from fuel ar 8
