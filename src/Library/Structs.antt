-- ===== src/Library/Structs.antt =====
-- utils/python/library/elf/structs.py: the structures of an ELF file, little endian. A layout is the
-- list of the widths of the fields in bytes, in the order of `_fields_`; no structure has padding.
pub mod Fields
pub mod Layouts
pub mod Pack
use test_vts.Base.{ℕ, List, Option}
use test_vts.Base.Int.{ℤ}

pub record Ehdr : Type 0 where
  pub e_ident : ℕ
  pub e_type : ℕ
  pub e_machine : ℕ
  pub e_version : ℕ
  pub e_entry : ℕ
  pub e_phoff : ℕ
  pub e_shoff : ℕ
  pub e_flags : ℕ
  pub e_ehsize : ℕ
  pub e_phentsize : ℕ
  pub e_phnum : ℕ
  pub e_shentsize : ℕ
  pub e_shnum : ℕ
  pub e_shstrndx : ℕ

pub record Shdr : Type 0 where
  pub sh_name : ℕ
  pub sh_type : ℕ
  pub sh_flags : ℕ
  pub sh_addr : ℕ
  pub sh_offset : ℕ
  pub sh_size : ℕ
  pub sh_link : ℕ
  pub sh_info : ℕ
  pub sh_addralign : ℕ
  pub sh_entsize : ℕ

-- The members of the union `d_un` have the same bytes.
pub record Dyn : Type 0 where
  pub d_tag : ℤ
  pub d_un : ℕ

pub record Sym : Type 0 where
  pub st_name : ℕ
  pub st_value : ℕ
  pub st_size : ℕ
  pub st_info : ℕ
  pub st_other : ℕ
  pub st_shndx : ℕ

-- Elf_Rel and Elf_Rela: only Elf_Rela has the addend.
pub record Rel : Type 0 where
  pub r_offset : ℕ
  pub r_info : ℕ
  pub r_addend : Option ℤ

pub record Phdr : Type 0 where
  pub p_type : ℕ
  pub p_offset : ℕ
  pub p_vaddr : ℕ
  pub p_paddr : ℕ
  pub p_filesz : ℕ
  pub p_memsz : ℕ
  pub p_flags : ℕ
  pub p_align : ℕ

pub record Nhdr : Type 0 where
  pub n_namesz : ℕ
  pub n_descsz : ℕ
  pub n_type : ℕ
