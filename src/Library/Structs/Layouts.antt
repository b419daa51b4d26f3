-- ===== src/Library/Structs/Layouts.antt =====
-- utils/python/library/elf/structs.py: the layouts of the structures in 32-bit and 64-bit files, and
-- their accessors.
use Prim.Native.Nat.{bit_or}
use test_vts.Base.{ℕ, ◌*◌, ◌/◌, ◌%◌, ◌^◌, [], ◌∷◌, none, some}
use test_vts.Library.Structs.{Ehdr, Shdr, Dyn, Sym, Rel, Phdr, Nhdr}
use test_vts.Library.Structs.Fields.{Layout, Values, signed}

pub data Class : Type 0 where
  class32 class64 : Class

abbrev pub bitness : Class → ℕ
bitness class32 = 32
bitness class64 = 64

-- Elf_Half, Elf_Word and Elf_Sword; Elf_Xword and Elf_Sxword
abbrev pub half : ℕ
half = 2

abbrev pub word : ℕ
word = 4

abbrev pub xword : ℕ
xword = 8

-- Elf_Addr and Elf_Off
abbrev pub addr : Class → ℕ
addr class32 = 4
addr class64 = 8

-- `e_ident` is an array of 16 bytes.
abbrev pub ehdr_fields : Class → Layout
ehdr_fields c =
    16
    ∷ half
    ∷ half
    ∷ word
    ∷ addr c
    ∷ addr c
    ∷ addr c
    ∷ word
    ∷ half
    ∷ half
    ∷ half
    ∷ half
    ∷ half
    ∷ half
    ∷ []

unfoldable pub ehdr_of : (c : Class) → Values (ehdr_fields c) → Ehdr
ehdr_of c (a, (b, (d, (e, (f, (g, (h, (i, (j, (k, (l, (m, (n, (o, _)))))))))))))) = record {
  e_ident = a;
  e_type = b;
  e_machine = d;
  e_version = e;
  e_entry = f;
  e_phoff = g;
  e_shoff = h;
  e_flags = i;
  e_ehsize = j;
  e_phentsize = k;
  e_phnum = l;
  e_shentsize = m;
  e_shnum = n;
  e_shstrndx = o;
}

abbrev pub shdr_fields : Class → Layout
shdr_fields class32 =
    word ∷ word ∷ word ∷ addr class32 ∷ addr class32 ∷ word ∷ word ∷ word ∷ word ∷ word ∷ []
shdr_fields class64 =
    word ∷ word ∷ xword ∷ addr class64 ∷ addr class64 ∷ xword ∷ word ∷ word ∷ xword ∷ xword ∷ []

unfoldable pub shdr_of : (c : Class) → Values (shdr_fields c) → Shdr
shdr_of class32 (a, (b, (d, (e, (f, (g, (h, (i, (j, (k, _)))))))))) = record {
  sh_name = a;
  sh_type = b;
  sh_flags = d;
  sh_addr = e;
  sh_offset = f;
  sh_size = g;
  sh_link = h;
  sh_info = i;
  sh_addralign = j;
  sh_entsize = k;
}
shdr_of class64 (a, (b, (d, (e, (f, (g, (h, (i, (j, (k, _)))))))))) = record {
  sh_name = a;
  sh_type = b;
  sh_flags = d;
  sh_addr = e;
  sh_offset = f;
  sh_size = g;
  sh_link = h;
  sh_info = i;
  sh_addralign = j;
  sh_entsize = k;
}

abbrev pub dyn_fields : Class → Layout
dyn_fields class32 = word ∷ word ∷ []
dyn_fields class64 = xword ∷ xword ∷ []

unfoldable pub dyn_of : (c : Class) → Values (dyn_fields c) → Dyn
dyn_of class32 (tag, (un, _)) = record { d_tag = signed 32 tag; d_un = un }
dyn_of class64 (tag, (un, _)) = record { d_tag = signed 64 tag; d_un = un }

abbrev pub sym_fields : Class → Layout
sym_fields class32 = word ∷ addr class32 ∷ word ∷ 1 ∷ 1 ∷ half ∷ []
sym_fields class64 = word ∷ 1 ∷ 1 ∷ half ∷ addr class64 ∷ xword ∷ []

unfoldable pub sym_of : (c : Class) → Values (sym_fields c) → Sym
sym_of class32 (name, (value, (size, (info, (other, (shndx, _)))))) = record {
  st_name = name;
  st_value = value;
  st_size = size;
  st_info = info;
  st_other = other;
  st_shndx = shndx;
}
sym_of class64 (name, (info, (other, (shndx, (value, (size, _)))))) = record {
  st_name = name;
  st_value = value;
  st_size = size;
  st_info = info;
  st_other = other;
  st_shndx = shndx;
}

-- `_Sym.GetBinding`, `_Sym.GetType` and `_Sym.SetBindingAndType`; `st_info` is one byte.
unfoldable pub get_binding : Sym → ℕ
get_binding sym = sym.st_info / 2 ^ 4

unfoldable pub get_type : Sym → ℕ
get_type sym = sym.st_info % 2 ^ 4

unfoldable pub set_binding_and_type : ℕ → ℕ → Sym → Sym
set_binding_and_type binding type_ sym = record sym {
  st_info = bit_or (type_ % 2 ^ 4) (binding * 2 ^ 4) % 2 ^ 8;
}

abbrev pub rel_fields : Class → Layout
rel_fields class32 = addr class32 ∷ word ∷ []
rel_fields class64 = addr class64 ∷ xword ∷ []

unfoldable pub rel_of : (c : Class) → Values (rel_fields c) → Rel
rel_of class32 (offset, (info, _)) = record { r_offset = offset; r_info = info; r_addend = none }
rel_of class64 (offset, (info, _)) = record { r_offset = offset; r_info = info; r_addend = none }

abbrev pub rela_fields : Class → Layout
rela_fields class32 = addr class32 ∷ word ∷ word ∷ []
rela_fields class64 = addr class64 ∷ xword ∷ xword ∷ []

unfoldable pub rela_of : (c : Class) → Values (rela_fields c) → Rel
rela_of class32 (offset, (info, (addend, _))) = record {
  r_offset = offset;
  r_info = info;
  r_addend = some (signed 32 addend);
}
rela_of class64 (offset, (info, (addend, _))) = record {
  r_offset = offset;
  r_info = info;
  r_addend = some (signed 64 addend);
}

-- `GetSymbol`, `GetType` and `SetSymbolAndType` of `_32_Rel` and `_64_Rel`: the symbol is above the
-- type, which has 8 or 32 bits.
abbrev pub type_bits : Class → ℕ
type_bits class32 = 8
type_bits class64 = 32

unfoldable pub get_symbol : Class → Rel → ℕ
get_symbol c rel = rel.r_info / 2 ^ type_bits c

unfoldable pub get_rel_type : Class → Rel → ℕ
get_rel_type c rel = rel.r_info % 2 ^ type_bits c

unfoldable pub set_symbol_and_type : Class → ℕ → ℕ → Rel → Rel
set_symbol_and_type c symndx type_ rel = record rel {
  r_info = bit_or (type_ % 2 ^ type_bits c) (symndx * 2 ^ type_bits c) % 2 ^ bitness c;
}

unfoldable pub set_symbol : Class → ℕ → Rel → Rel
set_symbol c symndx rel = set_symbol_and_type c symndx (get_rel_type c rel) rel

unfoldable pub set_type : Class → ℕ → Rel → Rel
set_type c type_ rel = set_symbol_and_type c (get_symbol c rel) type_ rel

abbrev pub phdr_fields : Class → Layout
phdr_fields class32 =
    word ∷ addr class32 ∷ addr class32 ∷ addr class32 ∷ word ∷ word ∷ word ∷ word ∷ []
phdr_fields class64 =
    word ∷ word ∷ addr class64 ∷ addr class64 ∷ addr class64 ∷ xword ∷ xword ∷ xword ∷ []

unfoldable pub phdr_of : (c : Class) → Values (phdr_fields c) → Phdr
phdr_of class32 (type_, (offset, (vaddr, (paddr, (filesz, (memsz, (flags, (align, _)))))))) =
    record {
      p_type = type_;
      p_offset = offset;
      p_vaddr = vaddr;
      p_paddr = paddr;
      p_filesz = filesz;
      p_memsz = memsz;
      p_flags = flags;
      p_align = align;
    }
phdr_of class64 (type_, (flags, (offset, (vaddr, (paddr, (filesz, (memsz, (align, _)))))))) =
    record {
      p_type = type_;
      p_offset = offset;
      p_vaddr = vaddr;
      p_paddr = paddr;
      p_filesz = filesz;
      p_memsz = memsz;
      p_flags = flags;
      p_align = align;
    }

abbrev pub nhdr_fields : Layout
nhdr_fields = word ∷ word ∷ word ∷ []

unfoldable pub nhdr_of : Values nhdr_fields → Nhdr
nhdr_of (namesz, (descsz, (type_, _))) = record {
  n_namesz = namesz;
  n_descsz = descsz;
  n_type = type_;
}
