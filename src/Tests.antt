-- ===== src/Tests.antt =====
-- Runs of the model and of the theorems on concrete inputs.
mod Sample
mod Tables
mod Session
mod Logging
mod Leaks
mod Allocator
mod Aout
mod CommandLine
mod Decimal
mod Executable
mod Target
