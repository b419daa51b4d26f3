-- ===== src/Library/Elf/Image.antt =====
-- utils/python/library/elf_parser.py: the constructor of `ElfParser` reads back the headers of an ELF
-- file that a writer of the format lays out.
use test_vts.Base.{
  ℕ, ◌+◌, ◌^◌, ◌<◌, ◌≡◌, refl, ap, ◌∙◌, true, false, map, List, [], ◌∷◌, ◌++◌, arith, ltb, ◌==◌,
  take, drop, length, length-append, length-drop,
}
use test_vts.Library.Result.{ok}
use test_vts.Library.Structs.Fields.{Layout, Values, sizeof}
use test_vts.Library.Structs.Layouts.{
  Class, class32, class64, ehdr_fields, ehdr_of, shdr_fields, shdr_of,
}
use test_vts.Library.Structs.Pack.{
  take-write_le, write_le, pack, FitIn, unpack-pack, length-pack, take-pack, length-write_le,
  little_endian-write_le,
}
use test_vts.Library.Elf.{
  File, seek, seek_read, seek_read_int, seek_read_struct, read_shdr, read_shdrs, file_class, init,
}

-- A structure that stands in the file is read.
pub seek_read_struct-pack :
    (f : File) (offset : ℕ) (ws : Layout) (vs : Values ws) (rest : List ℕ)
    → 0 < sizeof ws
    → FitIn ws vs
    → seek f offset ≡ pack ws vs rest
    → seek_read_struct f offset ws ≡ ok vs
unfolding seek_read_struct seek_read
seek_read_struct-pack f offset ws vs rest hs hv h =
    let inside : ltb (length f.contents) (offset + sizeof ws) ≡ false = ground (
      arith,
      length-drop (f.begin_offset + offset) f.contents,
      ap length h,
      length-pack ws vs rest,
    ) in
    let whole : ltb (length (pack ws vs [])) (sizeof ws) ≡ false =
      ground (arith, length-pack ws vs []) in
    rw (inside, h, take-pack ws vs rest, whole) (ap ok (unpack-pack ws vs [] hv))

-- An integer of `size` bytes that stands in the file is read.
pub seek_read_int-write_le :
    (f : File) (offset size v : ℕ) (rest : List ℕ)
    → 0 < size
    → v < 256 ^ size
    → seek f offset ≡ write_le size v ++ rest
    → seek_read_int size f offset ≡ ok v
unfolding seek_read_int seek_read
seek_read_int-write_le f offset size v rest hs hv h =
    let inside : ltb (length f.contents) (offset + size) ≡ false = ground (
      arith,
      length-drop (f.begin_offset + offset) f.contents,
      ap length h,
      length-append (write_le size v) rest,
      length-write_le size v,
    ) in
    let whole : (length (write_le size v) == size) ≡ true =
      ground (arith, length-write_le size v) in
    rw (inside, h, take-write_le size v rest, whole) (ap ok (little_endian-write_le size v hv))

-- The section headers stand in the file from `offset` on, `entsize` bytes apart.
abbrev pub SectionsAt : File → (c : Class) → ℕ → ℕ → List (Values (shdr_fields c)) → Type 0
SectionsAt f c offset entsize [] = Unit
SectionsAt f c offset entsize (sh ∷ shs) =
    ((rest : List ℕ) × (seek f offset ≡ pack (shdr_fields c) sh rest))
    × FitIn (shdr_fields c) sh
    × SectionsAt f c (offset + entsize) entsize shs

shdr_size : (c : Class) → 0 < sizeof (shdr_fields c)
shdr_size class32 = omega arith
shdr_size class64 = omega arith

ehdr_size : (c : Class) → 16 < sizeof (ehdr_fields c)
ehdr_size class32 = omega arith
ehdr_size class64 = omega arith

read_shdrs-SectionsAt :
    (f : File) (c : Class) (offset entsize : ℕ) (shs : List (Values (shdr_fields c)))
    → SectionsAt f c offset entsize shs
    → read_shdrs c f (length shs) offset entsize ≡ ok (map (shdr_of c) shs)
unfolding read_shdrs read_shdr
read_shdrs-SectionsAt f c offset entsize [] h = refl
read_shdrs-SectionsAt f c offset entsize (sh ∷ shs) ((rest, at), fit, more) =
    let first = seek_read_struct-pack f offset (shdr_fields c) sh rest (shdr_size c) fit at in
    rw (first, read_shdrs-SectionsAt f c (offset + entsize) entsize shs more) refl

-- The constructor of ElfParser reads back the ELF header and the section headers that stand in the
-- file, in a 32-bit and in a 64-bit file, at any begin offset: if the identification is that of the
-- class and the headers stand where e_shoff and e_shentsize say, the parser has exactly these.
pub init-SectionsAt :
    (contents : List ℕ) (begin_offset : ℕ) (c : Class) (header : Values (ehdr_fields c))
    (shs : List (Values (shdr_fields c))) (rest : List ℕ)
    → drop begin_offset contents ≡ pack (ehdr_fields c) header rest
    → FitIn (ehdr_fields c) header
    → file_class (write_le 16 (header.0)) ≡ ok c
    → (ehdr_of c header).e_shnum ≡ length shs
    → SectionsAt
        (record { contents = contents; begin_offset = begin_offset })
        c
        (ehdr_of c header).e_shoff
        (ehdr_of c header).e_shentsize
        shs
    → init contents begin_offset
      ≡ ok (record {
        file = record { contents = contents; begin_offset = begin_offset };
        class = c;
        ehdr = ehdr_of c header;
        shdr = map (shdr_of c) shs;
      })
unfolding init seek_read
init-SectionsAt contents begin_offset c header shs rest h fit class num at =
    let f : File = record { contents = contents; begin_offset = begin_offset } in
    let here : seek f 0 ≡ pack (ehdr_fields c) header rest =
      ap (λ (k : ℕ). drop k contents) (omega arith) ∙ h in
    let inside : ltb (length contents) 16 ≡ false = ground (
      arith,
      length-drop begin_offset contents,
      ap length h,
      length-pack (ehdr_fields c) header rest,
      ehdr_size c,
    ) in
    let ident : take 16 (seek f 0) ≡ write_le 16 header.0 =
      ap (λ l. take 16 l) here
      ∙ take-write_le 16 (header.0) (pack (drop 1 (ehdr_fields c)) (header.1) rest) in
    rw
      (
        inside,
        ident,
        class,
        seek_read_struct-pack f 0 (ehdr_fields c) header rest (omega (arith, ehdr_size c)) fit here,
        num,
        read_shdrs-SectionsAt f c _ _ shs at,
      )
      refl
