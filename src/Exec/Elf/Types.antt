-- ===== src/Exec/Elf/Types.antt =====
-- src/exec/elf/mut_exec.c: the structures of the reader, and the fields of a stab. The types and the
-- numbers of <elf.h> are those of 32-bit ELF; how the bytes of a file make them up is the C
-- library's and the machine's, and enters with fopen(3), fseek(3), fread(3), fclose(3) and free(3)
-- as the parameter `Files`.
use mut.Base.{ℕ, String, Bool, Option, List, ◌/◌, ◌%◌, ◌^◌}
use mut.Machine.{Machine}
use mut.Exec.Symtab.{Symtab}

-- `Elf32_Ehdr`, of what the reader looks at.
pub record Ehdr : Type 0 where
  pub e_ident : ℕ → ℕ
  pub e_type : ℕ
  pub e_shoff : ℕ
  pub e_shentsize : ℕ
  pub e_shnum : ℕ
  pub e_shstrndx : ℕ

-- `Elf32_Shdr`
pub record Shdr : Type 0 where
  pub sh_name : ℕ
  pub sh_type : ℕ
  pub sh_addr : ℕ
  pub sh_offset : ℕ
  pub sh_size : ℕ
  pub sh_link : ℕ
  pub sh_addralign : ℕ
  pub sh_entsize : ℕ

-- `Elf32_Sym`
pub record Sym : Type 0 where
  pub st_name : ℕ
  pub st_value : ℕ
  pub st_info : ℕ

-- `struct mut_exec_stab`
pub record Stab : Type 0 where
  pub other_and_string_index : ℕ
  pub line_and_type : ℕ
  pub value : ℕ

abbrev pub sizeof_shdr : ℕ
sizeof_shdr = 40

abbrev pub sizeof_sym : ℕ
sizeof_sym = 16

abbrev pub sizeof_stab : ℕ
sizeof_stab = 12

abbrev pub elf_class_32 : ℕ
elf_class_32 = 1

abbrev pub et_exec : ℕ
et_exec = 2

abbrev pub sht_progbits : ℕ
sht_progbits = 1

abbrev pub sht_symtab : ℕ
sht_symtab = 2

abbrev pub sht_strtab : ℕ
sht_strtab = 3

abbrev pub sht_dynsym : ℕ
sht_dynsym = 11

abbrev pub stt_func : ℕ
stt_func = 2

-- `ELF32_ST_TYPE`: the low four bits.
abbrev pub st_type : ℕ → ℕ
st_type info = info % 2 ^ 4

-- `mut_exec_stab_type_FUN`, `..._LINE` and `..._SO`
abbrev pub stab_type_fun : ℕ
stab_type_fun = 0x24

abbrev pub stab_type_line : ℕ
stab_type_line = 0x44

abbrev pub stab_type_so : ℕ
stab_type_so = 0x64

-- `mut_exec_stab_type`
unfoldable pub stab_type : Stab → ℕ
stab_type s = s.line_and_type % 2 ^ 16

-- `mut_exec_stab_str`
unfoldable pub stab_str : Stab → ℕ
stab_str s = s.other_and_string_index % 2 ^ 16

-- `mut_exec_stab_line`
unfoldable pub stab_line : Stab → ℕ
stab_line s = s.line_and_type / 2 ^ 16

-- `struct mut_exec_strings`: the bytes, where memory holds them.
pub record Strings : Type 0 where
  pub bytes : List ℕ
  pub size : ℕ

-- `section` of `struct mut_exec_reader` and the pointers into it, each the number of a slot.
pub record Sections : Type 0 where
  pub header : ℕ → Shdr
  pub free : ℕ
  pub dsymtab : Option ℕ
  pub symtab : Option ℕ
  pub stabs : Option ℕ
  pub plt : Option ℕ

-- `mut_exec_reader_sections_max`
abbrev pub sections_max : ℕ
sections_max = 4

-- `struct mut_exec_reader` and `struct mut_exec`. `symtab_closed` says that the nodes of `symbols`
-- have been given back; `source` is the only open file, and is part of the world.
pub record Reader (W : Type 0) : Type 0 where
  pub machine : Machine W
  pub file_name : String
  pub header : Ehdr
  pub sections : Sections
  pub strings : Strings
  pub symbols : Symtab
  pub symtab_closed : Bool
  pub strtab : Option Strings
  pub dynstr : Option Strings
  pub stabstr : Option Strings
  pub has_full_symbols : Bool

-- fopen, fclose and fseek are true when they succeed; fread of one item of so many bytes gives what
-- it has put into the memory that it was given, and nothing when its result is not 1. `text` is the
-- text that some bytes spell; `byte_before` is the byte in front of the memory for .stabstr.
pub record Files (W : Type 0) : Type 0 where
  pub open_read : String → W → Bool × W
  pub close : W → Bool × W
  pub seek : ℕ → W → Bool × W
  pub read_ehdr : W → Option Ehdr × W
  pub read_shdr : ℕ → W → Option Shdr × W
  pub read_syms : ℕ → W → Option (List Sym) × W
  pub read_stabs : ℕ → W → Option (List Stab) × W
  pub read_bytes : ℕ → W → Option (List ℕ) × W
  pub mem_free : W → W
  pub text : List ℕ → String
  pub byte_before : ℕ
