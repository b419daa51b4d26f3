-- ===== src/Library/Elf.antt =====
-- utils/python/library/elf_parser.py: `ElfParser`, its reads of the file and its constructor. A file
-- is the list of its bytes; that it cannot be opened or read is not modelled, and neither are offsets
-- that are too large for a seek. A read leaves no position behind that a later read depends on.
pub mod Sections
pub mod Relocations
pub mod Symbols
pub mod Strings
pub mod Image
use test_vts.Base.{
  ℕ, zero, suc, ◌+◌, ◌*◌, Bool, true, false, ◌||◌, not, Option, none, some, List, [], ◌∷◌, ◌++◌,
  ◌==◌, ltb, take, drop, length, get_elem?, if◌then◌else◌,
}
use test_vts.Base.Text.{Str, str_eq}
use test_vts.Library.Result.{
  Result, ok, raise, ◌>>=◌, elf_error, index_error, struct_error, out_of_fuel,
}
use test_vts.Library.Consts.{
  ei_class, ei_data, ei_nident, elf_magic_number, elfclass32, elfclass64, elfdata2lsb,
}
use test_vts.Library.Structs.{Ehdr, Shdr}
use test_vts.Library.Structs.Fields.{Layout, Values, sizeof, unpack, little_endian}
use test_vts.Library.Structs.Layouts.{
  Class, class32, class64, ehdr_fields, ehdr_of, shdr_fields, shdr_of,
}

-- `_file` and `_begin_offset`
pub record File : Type 0 where
  pub contents : List ℕ
  pub begin_offset : ℕ

pub record ElfParser : Type 0 where
  pub file : File
  pub class : Class
  pub ehdr : Ehdr
  pub shdr : List Shdr

-- `_file.seek(_begin_offset + offset)`: the bytes from there on
abbrev pub seek : File → ℕ → List ℕ
seek f offset = drop (f.begin_offset + offset) f.contents

-- `_SeekRead`
unfoldable pub seek_read : File → ℕ → ℕ → Result (List ℕ)
seek_read f offset read_size =
    if ltb (length f.contents) (offset + read_size)
    then raise elf_error
    else ok (take read_size (seek f offset))

-- `_SeekRead8`, `_SeekRead16`, `_SeekRead32` and `_SeekRead64`, of `size` bytes
unfoldable pub seek_read_int : ℕ → File → ℕ → Result ℕ
seek_read_int size f offset = do
  bytes ← seek_read f offset size
  if length bytes == size then ok (little_endian bytes) else raise struct_error

abbrev pub next_index : Option ℕ → Option ℕ
next_index none = none
next_index (some i) = some (suc i)

-- `buf.find('\0')`
unfoldable pub find_nul : List ℕ → Option ℕ
find_nul [] = none
find_nul (c ∷ buf) = if c == 0 then some 0 else next_index (find_nul buf)

abbrev pub buf_size : ℕ
buf_size = 16

-- What `_SeekReadString` does with a piece of the string, by what the search in it found.
unfoldable pub after_piece : Option ℕ → List ℕ → Str → Result Str → Result Str
after_piece (some end_index) buf ret more = ok (ret ++ take end_index buf)
after_piece none buf ret more = if not (length buf == buf_size) then raise elf_error else more

-- The loop of `_SeekReadString`, over the bytes from the position in the file on.
unfoldable pub read_string_loop : ℕ → List ℕ → Str → Result Str
read_string_loop zero bytes_left ret = raise out_of_fuel
read_string_loop (suc fuel) bytes_left ret =
    let buf = take buf_size bytes_left in
    after_piece (find_nul buf) buf ret
      (read_string_loop fuel (drop buf_size bytes_left) (ret ++ buf))

unfoldable pub seek_read_string : File → ℕ → Result Str
seek_read_string f offset = read_string_loop (suc (length f.contents)) (seek f offset) []

-- `_SeekReadStruct`
unfoldable pub seek_read_struct : File → ℕ → (ws : Layout) → Result (Values ws)
seek_read_struct f offset ws = do
  raw_bytes ← seek_read f offset (sizeof ws)
  if ltb (length raw_bytes) (sizeof ws) then raise elf_error else ok (unpack ws raw_bytes)

-- The checks of `e_ident` in `__init__`.
unfoldable pub file_class : List ℕ → Result Class
file_class e_ident =
    if not (str_eq (take 4 e_ident) elf_magic_number)
    then raise elf_error
    else elim (get_elem? e_ident ei_class) [
      | none ↦ raise index_error
      | some c ↦
          if not (c == elfclass32 || c == elfclass64)
          then raise elf_error
          else elim (get_elem? e_ident ei_data) [
            | none ↦ raise index_error
            | some d ↦
                if not (d == elfdata2lsb)
                then raise elf_error
                else ok (if c == elfclass32 then class32 else class64)
          ]
    ]

unfoldable pub read_shdr : Class → File → ℕ → Result Shdr
read_shdr c f offset = do fields ← seek_read_struct f offset (shdr_fields c); ok (shdr_of c fields)

-- The section headers from `offset` on, `n` of them.
unfoldable pub read_shdrs : Class → File → ℕ → ℕ → ℕ → Result (List Shdr)
read_shdrs c f zero offset entsize = ok []
read_shdrs c f (suc n) offset entsize = do
  sh ← read_shdr c f offset
  rest ← read_shdrs c f n (offset + entsize) entsize
  ok (sh ∷ rest)

-- `__init__`
unfoldable pub init : List ℕ → ℕ → Result ElfParser
init contents begin_offset = do
  let f : File = record { contents = contents; begin_offset = begin_offset }
  e_ident ← seek_read f 0 ei_nident
  c ← file_class e_ident
  fields ← seek_read_struct f 0 (ehdr_fields c)
  let header = ehdr_of c fields
  shdrs ← read_shdrs c f header.e_shnum header.e_shoff header.e_shentsize
  ok (record { file = f; class = c; ehdr = header; shdr = shdrs })
