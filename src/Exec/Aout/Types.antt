-- ===== src/Exec/Aout/Types.antt =====
-- src/exec/aout/mut_exec.c and src/exec/aout/mut_exec.h: the structures.
use mut.Base.{ℕ, String, Bool, List, Option}
use mut.Machine.{Machine}
use mut.Exec.Symtab.{Symtab}

-- `struct exec`, by what the macros of <a.out.h> give of it: N_BADMAG, N_GETMAGIC, N_GETMID,
-- N_STROFF, N_SYMOFF, and the field a_syms.
pub record Header : Type 0 where
  pub bad_magic : Bool
  pub magic : ℕ
  pub mach : ℕ
  pub str_off : ℕ
  pub sym_off : ℕ
  pub a_syms : ℕ

-- `struct nlist`
pub record Nlist : Type 0 where
  pub n_strx : ℕ
  pub n_type : ℕ
  pub n_value : ℕ

-- `strings` of `struct mut_exec`
pub record Strings : Type 0 where
  pub bytes : List ℕ
  pub size : ℕ

-- `struct mut_exec_reader` and `struct mut_exec`. `strings` is there once it has been read.
-- `source_open` and `blocks` record what the code holds: the open file, and how many blocks of
-- mut_mem_malloc it has not given back, the nodes of `symbols` not counted.
pub record Reader (W : Type 0) : Type 0 where
  pub machine : Machine W
  pub file_name : String
  pub header : Header
  pub elems : List Nlist
  pub strings : Option Strings
  pub symbols : Symtab
  pub source_open : Bool
  pub blocks : ℕ

-- The C library, as in the reader of ELF files; N_TEXT, N_TYPE and the sizes of <a.out.h>; the
-- machine of <mut_aout_mach.h>; what the first word of the memory for the strings holds.
pub record Files (W : Type 0) : Type 0 where
  pub open_read : String → W → Bool × W
  pub close : W → Bool × W
  pub seek : ℕ → W → Bool × W
  pub read_header : ℕ → W → Option Header × W
  pub read_size : W → Option ℕ × W
  pub read_bytes : ℕ → W → Option (List ℕ) × W
  pub read_nlists : ℕ → W → Option (List Nlist) × W
  pub mem_free : W → W
  pub text : List ℕ → String
  pub size_bytes : List ℕ
  pub n_text : ℕ
  pub n_type_end : ℕ
  pub aout_mach : ℕ
  pub sizeof_exec : ℕ
  pub sizeof_nlist : ℕ

-- `sizeof(size_t)`
abbrev pub sizeof_size : ℕ
sizeof_size = 4
