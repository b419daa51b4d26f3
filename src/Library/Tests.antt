-- ===== src/Library/Tests.antt =====
-- The theorems of utils/python/library at concrete inputs, and small runs.
use native.Mathlib.Numerals.{unary_clauses}
use test_vts.Base.{
  ℕ, zero, suc, ◌+◌, ◌*◌, ◌^◌, ◌≤◌, ◌<◌, ◌≡◌, ◌≢◌, ◌↔◌, refl, true, false, none, some, List, [],
  ◌∷◌, ◌++◌, map, arith, All, get_elem?, drop,
}
use test_vts.Base.Int.{ℤ, pos, negsuc, ◌+ℤ◌, ◌-ℤ◌}
use test_vts.Base.Text.{Str, codes}
use test_vts.Library.Result.{ok, raise, out_of_fuel}
use test_vts.Library.Sleb128.{decode_loop, decode_sleb128, sign_extend}
use test_vts.Library.Sleb128.RoundTrip.{encode, Fits, decode_sleb128-encode}
use test_vts.Library.Sleb128.Bounds.{HasWidth, decode_sleb128-HasWidth}
use test_vts.Library.Structs.{Shdr, Rel}
use test_vts.Library.Structs.Fields.{Values}
use test_vts.Library.Structs.Layouts.{
  class32, class64, ehdr_fields, ehdr_of, shdr_fields, shdr_of, sym_of, get_symbol, get_rel_type,
  get_binding, get_type, rel_of,
}
use test_vts.Library.Structs.Pack.{pack, write_le}
use test_vts.Library.Elf.{
  File, ElfParser, seek, seek_read_string, file_class, init, seek_read, seek_read_struct,
  read_string_loop, after_piece, find_nul,
}
use test_vts.Library.Elf.Image.{init-SectionsAt}
use test_vts.Library.Elf.Strings.{until_nul, seek_read_string-until_nul}
use test_vts.Library.Elf.Sections.{
  get_string, section_at, get_section_name, first_of_name, get_section_by_name, entries,
}
use test_vts.Library.Elf.Symbols.{list_global_symbols, get_relocation_symbol}
use test_vts.Library.Elf.Symbols
use test_vts.Library.Elf.Symbols.Listed.{Named, list_global_symbols-SymbolsAt}
use test_vts.Library.Elf.Relocations.{
  decode_android_relr, unpack_data, get_relocations, get_relocation, relocations_from,
}
use test_vts.Library.Elf.Relocations.Ends.{unpack_data-ends}
use test_vts.Library.Elf.Relocations.Packed
use test_vts.Library.Elf.Relocations.Packed.{PackedGroup, Entry, packed_rels}
use test_vts.Library.Elf.Relocations.RoundTrip.{unpack_data-pack}
use test_vts.Library.Elf.Relocations.Relr.{
  RelrWord, address, bitmap, relr_rels, decode_android_relr-relr_rels,
}
use test_vts.Library.Ar.{
  iterate_archive, iterate_from, int, int_signed, int_unsigned, int_digits, lstrip, rstrip_space,
}
use test_vts.Library.Ar.Members.{
  Member, IsMember, write_members, objects, Stands, iterate_archive-write_members,
}
use test_vts.Library.Ar.Endless.{iterate_from-endless}
use test_vts.Library.Vtable.{
  Vtable, locate_vtable, contains, rel_types, prepare_vtables, prepare_section, prepare_symbols,
  add_vtable, function_symbol_inverse_table, inverse_section, inverse_symbols, add_name, sort_names,
  sorted_set, insert_name, sort, insert, read_relocation_addend, read_addend_in, before, bisect,
  if_contains,
}
use test_vts.Library.Vtable.Dump.{
  dump_vtables, scan_sections, scan_relocations, scan_relocation, add_located, add_relocation,
  addend_of, absolute_entry, relative_entry, add_entry, names_at, in_table, is_relocation_section,
  sort_entries, explicit_addend,
}
use test_vts.Library.Vtable.Order.{Ordered}
use test_vts.Library.Vtable.Inside.{IsDumped, dump_vtables-IsDumped}
use test_vts.Library.Vtable.Locate.{locate_vtable-contains}

-- Test data of elf/utils_test.py.
abbrev sleb_input_data : List ℕ
sleb_input_data =
    0x0F ∷ 0x71 ∷ 0xFF ∷ 0x00 ∷ 0x80 ∷ 0x01 ∷ 0x80 ∷ 0x80 ∷ 0x02 ∷ 0x80 ∷ 0x80 ∷ 0x7E ∷ []

sleb_minus_fifteen : decode_sleb128 sleb_input_data 1 ≡ ok (negsuc 14, 1)
unfolding decode_sleb128 decode_loop sign_extend ◌-ℤ◌
sleb_minus_fifteen = refl

sleb_minus_0x8000 : decode_sleb128 sleb_input_data 9 ≡ ok (negsuc 0x7fff, 3)
unfolding decode_sleb128 decode_loop sign_extend ◌-ℤ◌
sleb_minus_0x8000 = refl

decode_sleb128-encode_example :
    decode_sleb128 ((7 ∷ []) ++ (encode 2 (negsuc 0x7fff) ++ 9 ∷ [])) 1 ≡ ok (negsuc 0x7fff, 3)
decode_sleb128-encode_example =
    decode_sleb128-encode 2 (negsuc 0x7fff) (7 ∷ []) (9 ∷ []) (omega arith, omega arith)

decode_sleb128-HasWidth_example : (0 < 3) × (9 + 3 ≤ 12) × HasWidth (7 * 3) (negsuc 0x7fff)
decode_sleb128-HasWidth_example =
    decode_sleb128-HasWidth sleb_input_data 9 (negsuc 0x7fff) 3 (ground arith) sleb_minus_0x8000

abbrev sample_rel : Rel
sample_rel = record { r_offset = 0; r_info = 0x1234; r_addend = none }

-- The second string of the file is longer than a piece.
abbrev text_file : File
text_file = record {
  contents = codes "xab" ++ 0 ∷ codes "0123456789abcdefgh" ++ 0 ∷ [];
  begin_offset = 1;
}

seek_read_string-until_nul_example : seek_read_string text_file 3 ≡ until_nul (seek text_file 3)
seek_read_string-until_nul_example = seek_read_string-until_nul text_file 3

text_found : until_nul (seek text_file 3) ≡ ok (codes "0123456789abcdefgh")
unfolding until_nul
text_found = refl

-- A group that shares its info and its addend, of two relocations, and one that shares nothing.
abbrev packed_groups : List PackedGroup
packed_groups =
    record {
      by_info = true;
      by_delta = false;
      by_addend = true;
      has_addend = true;
      shared_delta = pos 0;
      shared_info = pos 5;
      shared_addend = negsuc 1;
      entries =
          record { entry_delta = pos 8; entry_info = pos 0; entry_addend = pos 0 }
          ∷ record { entry_delta = negsuc 3; entry_info = pos 0; entry_addend = pos 0 }
          ∷ [];
    }
    ∷ record {
      by_info = false;
      by_delta = false;
      by_addend = false;
      has_addend = false;
      shared_delta = pos 0;
      shared_info = pos 0;
      shared_addend = pos 0;
      entries = record { entry_delta = pos 1; entry_info = pos 2; entry_addend = pos 0 } ∷ [];
    }
    ∷ []

abbrev groups_for : ℤ → ℕ
groups_for (pos n) = n
groups_for (negsuc n) = n

power_above : (n : ℕ) → suc n ≤ 64 * 128 ^ n
power_above zero = omega arith
power_above (suc n) = simp unary_clauses (omega (arith, power_above n))

groups_for-Fits : (v : ℤ) → Fits (groups_for v) v
groups_for-Fits (pos n) = (power_above n, omega arith)
groups_for-Fits (negsuc n) = (omega (arith, power_above n), power_above n)

unpack_data-pack_example :
    unpack_data class64 (Packed.pack groups_for packed_groups (pos 20) (1 ∷ []))
    ≡ ok (packed_rels class64 packed_groups (pos 20) (pos 0))
unpack_data-pack_example =
    unpack_data-pack groups_for groups_for-Fits class64 packed_groups (pos 20) (1 ∷ [])

-- A section that declares relocations and a negative group size, and ends.
abbrev negative_group : List ℕ
negative_group = codes "APS2" ++ 3 ∷ 0 ∷ 0x7f ∷ 8 ∷ 0x7f ∷ 0 ∷ []

unpack_data-ends_example : unpack_data class64 negative_group ≢ raise out_of_fuel
unpack_data-ends_example = unpack_data-ends class64 negative_group

-- A 32-bit file with the symbols _ZTV1A and f, relocations and section headers.
abbrev sample_header : Values (ehdr_fields class32)
sample_header =
    (1104985998719, (3, (40, (1, (0, (0, (152, (0, (52, (0, (0, (40, (5, (1, tt))))))))))))))

abbrev sample_sections : List (Values (shdr_fields class32))
sample_sections =
    (0, (0, (0, (0, (0, (0, (0, (0, (0, (0, tt))))))))))
    ∷ (9, (3, (0, (0, (52, (26, (0, (0, (0, (0, tt))))))))))
    ∷ (1, (2, (0, (0, (80, (48, (1, (0, (0, (16, tt))))))))))
    ∷ (0, (9, (0, (0, (128, (16, (2, (0, (0, (8, tt))))))))))
    ∷ (0, (1, (0, (256, (144, (8, (0, (0, (0, (0, tt))))))))))
    ∷ []

abbrev sample_body : List ℕ
sample_body =
    0 ∷ 46 ∷ 115 ∷ 121 ∷ 109 ∷ 116 ∷ 97 ∷ 98 ∷ 0 ∷ 46 ∷ 115 ∷ 116 ∷ 114 ∷ 116 ∷ 97 ∷ 98 ∷ 0 ∷ 95
    ∷ 90 ∷ 84 ∷ 86 ∷ 49 ∷ 65 ∷ 0 ∷ 102 ∷ 0 ∷ 0 ∷ 0 ∷ 0 ∷ 0 ∷ 0 ∷ 0 ∷ 0 ∷ 0 ∷ 0 ∷ 0 ∷ 0 ∷ 0 ∷ 0 ∷ 0
    ∷ 0 ∷ 0 ∷ 0 ∷ 0 ∷ 17 ∷ 0 ∷ 0 ∷ 0 ∷ 0 ∷ 1 ∷ 0 ∷ 0 ∷ 8 ∷ 0 ∷ 0 ∷ 0 ∷ 17 ∷ 0 ∷ 4 ∷ 0 ∷ 24 ∷ 0 ∷ 0
    ∷ 0 ∷ 64 ∷ 0 ∷ 0 ∷ 0 ∷ 4 ∷ 0 ∷ 0 ∷ 0 ∷ 18 ∷ 0 ∷ 4 ∷ 0 ∷ 4 ∷ 1 ∷ 0 ∷ 0 ∷ 23 ∷ 0 ∷ 0 ∷ 0 ∷ 0 ∷ 1
    ∷ 0 ∷ 0 ∷ 2 ∷ 2 ∷ 0 ∷ 0 ∷ 0 ∷ 0 ∷ 0 ∷ 0 ∷ 64 ∷ 0 ∷ 0 ∷ 0 ∷ []

abbrev write_sections : List (Values (shdr_fields class32)) → List ℕ
write_sections [] = []
write_sections (sh ∷ shs) = pack (shdr_fields class32) sh (write_sections shs)

abbrev sample_contents : List ℕ
sample_contents =
    pack (ehdr_fields class32) sample_header (sample_body ++ write_sections sample_sections)

abbrev sample_file : File
sample_file = record { contents = sample_contents; begin_offset = 0 }

unfoldable sample : ElfParser
unfolding ehdr_of shdr_of
sample = record {
  file = sample_file;
  class = class32;
  ehdr = ehdr_of class32 sample_header;
  shdr = map (shdr_of class32) sample_sections;
}

init-SectionsAt_example : init sample_contents 0 ≡ ok sample
unfolding ehdr_of shdr_of sample
init-SectionsAt_example =
    init-SectionsAt sample_contents 0 class32 sample_header sample_sections
      (sample_body ++ write_sections sample_sections) refl (ground arith)
      (unfold file_class in refl) refl
      (
        (write_sections (drop 1 sample_sections), refl),
        ground arith,
        (
          (write_sections (drop 2 sample_sections), refl),
          ground arith,
          (
            (write_sections (drop 3 sample_sections), refl),
            ground arith,
            (
              (write_sections (drop 4 sample_sections), refl),
              ground arith,
              ((write_sections (drop 5 sample_sections), refl), ground arith, tt),
            ),
          ),
        ),
      )

-- The address 4096, and of the next 31 addresses the first and the third.
abbrev relr_words : List RelrWord
relr_words =
    address 2048
    ∷ bitmap (
        true ∷ false ∷ true ∷ false ∷ false ∷ false ∷ false ∷ false ∷ false ∷ false ∷ false ∷ false
        ∷ false ∷ false ∷ false ∷ false ∷ false ∷ false ∷ false ∷ false ∷ false ∷ false ∷ false
        ∷ false ∷ false ∷ false ∷ false ∷ false ∷ false ∷ false ∷ false ∷ [])
    ∷ []

abbrev relr_section : Shdr
relr_section = record {
  sh_name = 0;
  sh_type = 19;
  sh_flags = 0;
  sh_addr = 0;
  sh_offset = 0;
  sh_size = 8;
  sh_link = 0;
  sh_info = 0;
  sh_addralign = 0;
  sh_entsize = 4;
}

abbrev second_word : List ℕ
second_word = write_le 4 11 ++ []

unfoldable relr_parser : ElfParser
unfolding sample
relr_parser = record sample {
  file = record { contents = write_le 4 4096 ++ second_word; begin_offset = 0 };
}

decode_android_relr-relr_rels_example :
    decode_android_relr relr_parser relr_section ≡ ok (relr_rels class32 relr_words 0)
unfolding relr_parser sample
decode_android_relr-relr_rels_example =
    decode_android_relr-relr_rels relr_parser relr_section relr_words refl refl
      ((second_word, refl), omega arith, (([], refl), refl, tt))

abbrev spaces : Str
spaces = codes "                                "

abbrev string_table : Member
string_table = record {
  name = codes "/               ";
  middle = spaces;
  size = codes "1         ";
  magic = codes "`" ++ 10 ∷ [];
  content = 7 ∷ [];
}

abbrev object_member : Member
object_member = record {
  name = codes "a.o/            ";
  middle = spaces;
  size = codes "3         ";
  magic = codes "`" ++ 10 ∷ [];
  content = 1 ∷ 2 ∷ 3 ∷ [];
}

string_table-IsMember : IsMember string_table
unfolding int int_signed int_unsigned int_digits lstrip rstrip_space
string_table-IsMember = record {
  name_length = refl;
  middle_length = refl;
  size_length = refl;
  magic_length = refl;
  reads = refl;
}

object_member-IsMember : IsMember object_member
unfolding int int_signed int_unsigned int_digits lstrip rstrip_space
object_member-IsMember = record {
  name_length = refl;
  middle_length = refl;
  size_length = refl;
  magic_length = refl;
  reads = refl;
}

abbrev members : List Member
members = string_table ∷ object_member ∷ []

abbrev archive : List ℕ
archive = codes "!<arch>" ++ 10 ∷ write_members members

iterate_archive-write_members_example :
    (iterate_archive 3 archive ≡ ok (map (λ (o : ℕ × List ℕ). o.0) (objects 8 members)))
    × All (Stands archive) (objects 8 members)
iterate_archive-write_members_example =
    iterate_archive-write_members members 3 (string_table-IsMember, (object_member-IsMember, tt))
      (omega arith)

object_found : objects 8 members ≡ (130, 1 ∷ 2 ∷ 3 ∷ []) ∷ []
unfolding rstrip_space
object_found = refl

abbrev negative_size : List ℕ
negative_size =
    codes "!<arch>"
    ++ 10 ∷ codes "/               "
    ++ spaces
    ++ codes "-60       "
    ++ codes "`"
    ++ 10 ∷ []

iterate_from-endless_example : iterate_from 5 negative_size 8 ≡ raise out_of_fuel
iterate_from-endless_example =
    iterate_from-endless 5 negative_size 8 refl refl
      (unfold int int_signed int_unsigned int_digits lstrip rstrip_space ◌-ℤ◌ in refl)

abbrev symbol_names : List (Named class32)
symbol_names =
    record { fields = (0, (0, (0, (0, (0, (0, tt)))))); name = [] }
    ∷ record { fields = (17, (256, (8, (17, (0, (4, tt)))))); name = codes "_ZTV1A" }
    ∷ record { fields = (24, (64, (4, (18, (0, (4, tt)))))); name = codes "f" }
    ∷ []

abbrev symtab_section : Shdr
unfolding shdr_of
symtab_section = shdr_of class32 (1, (2, (0, (0, (80, (48, (1, (0, (0, (16, tt))))))))))

abbrev strtab_section : Shdr
unfolding shdr_of
strtab_section = shdr_of class32 (9, (3, (0, (0, (52, (26, (0, (0, (0, (0, tt))))))))))

symtab_found : get_section_by_name sample (codes ".symtab") ≡ ok (some symtab_section)
unfolding sample ehdr_of shdr_of get_section_by_name first_of_name get_section_name section_at
    get_string seek_read_string read_string_loop after_piece find_nul
symtab_found = refl

strtab_found : get_section_by_name sample (codes ".strtab") ≡ ok (some strtab_section)
unfolding sample ehdr_of shdr_of get_section_by_name first_of_name get_section_name section_at
    get_string seek_read_string read_string_loop after_piece find_nul
strtab_found = refl

list_global_symbols-SymbolsAt_example :
    list_global_symbols false (codes ".symtab") (codes ".strtab") sample
    ≡ ok (codes "_ZTV1A" ∷ codes "f" ∷ [])
unfolding sample ehdr_of shdr_of entries sym_of get_string seek_read_string read_string_loop
    after_piece find_nul get_binding get_type
list_global_symbols-SymbolsAt_example =
    list_global_symbols-SymbolsAt sample false (codes ".symtab") (codes ".strtab") symtab_section
      strtab_section symbol_names symtab_found strtab_found refl refl
      (
        (drop 96 sample_contents, refl),
        ground arith,
        λ _. refl,
        (
          (drop 112 sample_contents, refl),
          ground arith,
          λ _. refl,
          ((drop 128 sample_contents, refl), ground arith, λ _. refl, tt),
        ),
      )

abbrev sample_vtables : List Vtable
sample_vtables =
    record {
      name = codes "_ZTV1A";
      begin_addr = 0x100;
      end_addr = 0x108;
      entries =
          record { offset = 0; names = codes "f" ∷ []; value = pos 0x40; is_undefined = false }
          ∷ record { offset = 4; names = codes "f" ∷ []; value = pos 0x40; is_undefined = false }
          ∷ [];
    }
    ∷ []

abbrev unsorted_vtables : List Vtable
unsorted_vtables =
    record {
      name = codes "_ZTV1A";
      begin_addr = 0x100;
      end_addr = 0x108;
      entries =
          record { offset = 4; names = codes "f" ∷ []; value = pos 0x40; is_undefined = false }
          ∷ record { offset = 0; names = codes "f" ∷ []; value = pos 0x40; is_undefined = false }
          ∷ [];
    }
    ∷ []

abbrev bare_vtables : List Vtable
bare_vtables =
    record { name = codes "_ZTV1A"; begin_addr = 0x100; end_addr = 0x108; entries = [] } ∷ []

sample_prepared : prepare_vtables sample ≡ ok bare_vtables
unfolding prepare_vtables sample ehdr_of shdr_of sym_of get_section_by_name first_of_name
    get_section_name section_at get_string seek_read_string read_string_loop after_piece find_nul
    prepare_section entries prepare_symbols Symbols.get_symbol seek_read_struct seek_read add_vtable
    sort insert
sample_prepared = refl

abbrev sample_names : List (ℕ × List Str)
sample_names = (0x100, codes "_ZTV1A" ∷ []) ∷ (0x40, codes "f" ∷ []) ∷ []

sample_inverse : function_symbol_inverse_table sample ≡ ok sample_names
unfolding function_symbol_inverse_table sample ehdr_of shdr_of sym_of get_section_by_name
    first_of_name get_section_name section_at get_string seek_read_string read_string_loop
    after_piece find_nul inverse_section entries inverse_symbols Symbols.get_symbol seek_read_struct
    seek_read add_name sort_names sorted_set insert_name get_type
sample_inverse = refl

sample_scanned :
    scan_sections sample sample_names (0x02, 0x17) sample.shdr bare_vtables ≡ ok unsorted_vtables
unfolding scan_sections sample ehdr_of shdr_of sym_of section_at entries Symbols.get_symbol
    seek_read_struct seek_read get_relocations relocations_from get_relocation rel_of
    scan_relocations scan_relocation add_located add_relocation addend_of absolute_entry
    relative_entry add_entry names_at in_table is_relocation_section explicit_addend locate_vtable
    before bisect if_contains read_relocation_addend read_addend_in get_rel_type
    get_relocation_symbol get_symbol ◌+ℤ◌
sample_scanned = refl

sample_dumped : dump_vtables sample ≡ ok sample_vtables
unfolding dump_vtables rel_types sort_entries sort insert sample ehdr_of
sample_dumped = rw (sample_prepared, sample_inverse, sample_scanned) refl

dump_vtables-IsDumped_example :
    All IsDumped sample_vtables × Ordered (λ (v : Vtable). v.begin_addr) sample_vtables
dump_vtables-IsDumped_example = dump_vtables-IsDumped sample sample_vtables sample_dumped

abbrev empty_vtable : ℕ → ℕ → Vtable
empty_vtable begin end = record {
  name = codes "_ZTV";
  begin_addr = begin;
  end_addr = end;
  entries = [];
}

abbrev two_vtables : List Vtable
two_vtables = empty_vtable 8 16 ∷ empty_vtable 16 40 ∷ []

locate_vtable-contains_example : (locate_vtable two_vtables 20 ≡ some (1, empty_vtable 16 40)) ↔ (
    (get_elem? two_vtables 1 ≡ some (empty_vtable 16 40))
    × (contains 20 (empty_vtable 16 40) ≡ true))
locate_vtable-contains_example =
    locate_vtable-contains two_vtables 20 1 (empty_vtable 16 40)
      (omega arith, (omega arith, tt), (omega arith, tt, tt))

-- A vtable inside another hides the rest of the other from the search.
hidden : locate_vtable (empty_vtable 8 100 ∷ empty_vtable 16 40 ∷ []) 50 ≡ none
unfolding locate_vtable before bisect if_contains
hidden = refl
