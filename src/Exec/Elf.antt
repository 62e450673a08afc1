-- ===== src/Exec/Elf.antt =====
-- src/exec/elf/mut_exec.c: the reader of ELF executables.
pub mod Types
pub mod Text
pub mod Reading
pub mod Sections
pub mod Locate
pub mod Symbols
pub mod Stabs
pub mod Open
pub mod Placed
pub mod Located
pub mod Returned
pub mod Ordered
pub mod OrderedParts
pub mod OrderedOpen
pub mod Named
