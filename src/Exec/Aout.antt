-- ===== src/Exec/Aout.antt =====
-- src/exec/aout/mut_exec.c: the reader of a.out executables.
pub mod Types
pub mod Open
pub mod Held
pub mod Releases
pub mod Names
pub mod First
