-- ===== src/Library/Consts.antt =====
-- utils/python/library/elf/consts.py: the constants that the library uses.
use test_vts.Base.{ℕ, ◌+◌, List, ◌∷◌}
use test_vts.Base.Text.{Str, codes}

abbrev pub ei_class : ℕ
ei_class = 4

abbrev pub ei_data : ℕ
ei_data = 5

abbrev pub ei_nident : ℕ
ei_nident = 16

abbrev pub elf_magic_number : List ℕ
elf_magic_number = 0x7f ∷ codes "ELF"

abbrev pub elfclass32 : ℕ
elfclass32 = 1

abbrev pub elfclass64 : ℕ
elfclass64 = 2

abbrev pub elfdata2lsb : ℕ
elfdata2lsb = 1

abbrev pub et_exec : ℕ
et_exec = 2

abbrev pub et_dyn : ℕ
et_dyn = 3

abbrev pub em_386 : ℕ
em_386 = 3

abbrev pub em_mips : ℕ
em_mips = 8

abbrev pub em_arm : ℕ
em_arm = 40

abbrev pub em_x86_64 : ℕ
em_x86_64 = 62

abbrev pub em_aarch64 : ℕ
em_aarch64 = 183

abbrev pub r_arm_abs32 : ℕ
r_arm_abs32 = 0x02

abbrev pub r_arm_relative : ℕ
r_arm_relative = 0x17

abbrev pub r_aarch64_abs64 : ℕ
r_aarch64_abs64 = 0x101

abbrev pub r_aarch64_relative : ℕ
r_aarch64_relative = 0x403

abbrev pub r_386_32 : ℕ
r_386_32 = 1

abbrev pub r_386_relative : ℕ
r_386_relative = 8

abbrev pub r_x86_64_64 : ℕ
r_x86_64_64 = 1

abbrev pub r_x86_64_relative : ℕ
r_x86_64_relative = 8

abbrev pub sht_rela : ℕ
sht_rela = 4

abbrev pub sht_dynamic : ℕ
sht_dynamic = 6

abbrev pub sht_nobits : ℕ
sht_nobits = 8

abbrev pub sht_rel : ℕ
sht_rel = 9

abbrev pub sht_relr : ℕ
sht_relr = 19

abbrev pub sht_loos : ℕ
sht_loos = 0x60000000

abbrev pub sht_android_rel : ℕ
sht_android_rel = sht_loos + 1

abbrev pub sht_android_rela : ℕ
sht_android_rela = sht_loos + 2

abbrev pub sht_android_relr : ℕ
sht_android_relr = sht_loos + 0xfffff00

-- The flags of a group of packed relocations are powers of two; these are the exponents.
abbrev pub grouped_by_info_bit : ℕ
grouped_by_info_bit = 0

abbrev pub grouped_by_offset_delta_bit : ℕ
grouped_by_offset_delta_bit = 1

abbrev pub grouped_by_addend_bit : ℕ
grouped_by_addend_bit = 2

abbrev pub has_addend_bit : ℕ
has_addend_bit = 3

abbrev pub symtab_name : Str
symtab_name = codes ".symtab"

abbrev pub strtab_name : Str
strtab_name = codes ".strtab"

abbrev pub dynsym_name : Str
dynsym_name = codes ".dynsym"

abbrev pub dynstr_name : Str
dynstr_name = codes ".dynstr"

abbrev pub shn_undef : ℕ
shn_undef = 0

abbrev pub stb_global : ℕ
stb_global = 1

abbrev pub stb_weak : ℕ
stb_weak = 2

abbrev pub stt_notype : ℕ
stt_notype = 0

abbrev pub stt_object : ℕ
stt_object = 1

abbrev pub stt_func : ℕ
stt_func = 2

abbrev pub pt_interp : ℕ
pt_interp = 3

abbrev pub dt_null : ℕ
dt_null = 0

abbrev pub dt_needed : ℕ
dt_needed = 1

abbrev pub dt_strtab : ℕ
dt_strtab = 5
