-- ===== src/Exec.antt =====
-- src/exec: the symbols of the target's executable. The symbol table (Symtab) is common to the
-- a.out and the ELF reader; Elf is the reader of ELF files, Aout that of a.out files.
pub mod Symtab
pub mod Order
pub mod Floor
pub mod Elf
pub mod Aout
use mut.Base.{ℕ, String, Bool, not, Option, none, some, List, [], ◌∷◌, if◌then◌else◌, ◌==◌}
use mut.Exec.Symtab.{Found, lookup_addr, lookup_name}

-- What the rest of the program reads of `struct mut_exec` (src/exec/elf/mut_exec.h).
pub record Exec : Type 0 where
  pub symtab : Symtab.Symtab
  pub has_full_symbols : Bool

-- `struct mut_exec_function`
pub record Function : Type 0 where
  pub name : String
  pub addr : ℕ
  pub flags : Bool

-- `mut_exec_functions_addr`: address 0 stands for a symbol that is not there.
unfoldable pub functions_addr : Exec → List String → List Function
functions_addr e [] = []
functions_addr e (n ∷ ns) =
    record { name = n; addr = lookup_name e.symtab n; flags = not (lookup_name e.symtab n == 0) }
    ∷ functions_addr e ns

-- `mut_exec_addr_name`
unfoldable pub addr_name : Exec → ℕ → Option Found
addr_name e a = if not e.has_full_symbols then none else lookup_addr e.symtab a

-- `mut_exec_has_backtrace_symbols`
unfoldable pub has_backtrace_symbols : Exec → Bool
has_backtrace_symbols e = e.has_full_symbols
