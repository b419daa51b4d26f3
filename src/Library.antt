-- ===== src/Library.antt =====
-- utils/python/library: the readers of ELF files.
mod Bits
pub mod Result
mod Returns
mod Sleb128
mod Consts
pub mod Structs
mod Elf
mod Vtable
pub mod Ar
mod Tests
