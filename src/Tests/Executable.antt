-- ===== src/Tests/Executable.antt =====
-- src/exec/elf/mut_exec.c at concrete inputs: a file of equal section headers.
use mut.Base.{
  map, ◌+◌, ◌*◌, ◌^◌, if◌then◌else◌, ◌==◌, ℕ, ◌≡◌, refl, arith, true, false, none, some, List, [],
  ◌∷◌, final,
}
use mut.Exec.Symtab.{open_symtab}
use mut.Exec.Elf.Types.{Shdr, Sym, Stab, Sections, Reader, Files}
use mut.Exec.Elf.Locate.{locate_sections}
use mut.Exec.Elf.Placed.{Placed}
use mut.Exec.Elf.Located.{locate_sections-Placed}
use mut.Exec.Elf.Open.{open_tables}
use mut.Exec.Elf.Ordered.{InOrder}
use mut.Exec.Elf.Named.{functions, debug_loop-functions}
use mut.Exec.Elf.Stabs.{debug_loop}
use mut.Exec.Elf.OrderedOpen.{open_tables-Ordered}
use mut.Tests.Sample.{toy_os, toy_machine}

abbrev dynsym_header : Shdr
dynsym_header = record {
  sh_name = 0;
  sh_type = 11;
  sh_addr = 0;
  sh_offset = 0;
  sh_size = 32;
  sh_link = 1;
  sh_addralign = 4;
  sh_entsize = 16;
}

abbrev function_symbol : ℕ → Sym
function_symbol a = record { st_name = 0; st_value = a; st_info = 18 }

abbrev dynsym_bytes : List ℕ
dynsym_bytes = b'.' ∷ b'd' ∷ b'y' ∷ b'n' ∷ b's' ∷ b'y' ∷ b'm' ∷ 0 ∷ []

abbrev pub toy_files : Files ℕ
toy_files = record {
  open_read = λ _ w. (true, w);
  close = λ w. (true, w);
  seek = λ _ w. (true, w);
  read_ehdr = λ w. (none, w);
  read_shdr = λ _ w. (some dynsym_header, w);
  read_syms = λ _ w. (some (function_symbol 0x2000 ∷ function_symbol 0x1000 ∷ []), w);
  read_stabs = λ _ w. (none, w);
  read_bytes = λ _ w. (some dynsym_bytes, w);
  mem_free = λ w. w;
  text = λ _. "name";
  byte_before = 0;
}

abbrev no_slots : Sections
no_slots = record {
  header = λ _. dynsym_header;
  free = 0;
  dsymtab = none;
  symtab = none;
  stabs = none;
  plt = none;
}

abbrev pub toy_reader : Reader ℕ
unfolding open_symtab
toy_reader = record {
  machine = toy_machine;
  file_name = "a.out";
  header = record {
    e_ident = λ _. 0;
    e_type = 2;
    e_shoff = 52;
    e_shentsize = 40;
    e_shnum = 3;
    e_shstrndx = 1;
  };
  sections = no_slots;
  strings = record { bytes = dynsym_bytes; size = 8 };
  symbols = open_symtab;
  symtab_closed = false;
  strtab = none;
  dynstr = none;
  stabstr = none;
  has_full_symbols = false;
}

locate_sections-Placed_example :
    Placed (final (locate_sections toy_os toy_files toy_reader)).sections
locate_sections-Placed_example = locate_sections-Placed toy_os toy_files toy_reader refl

-- Four headers, one of each kind.
abbrev four_slots : Sections
four_slots = record {
  header = λ k. record dynsym_header { sh_type = if k == 0 then 11 else if k == 1 then 2 else 1 };
  free = 4;
  dsymtab = some 0;
  symtab = some 1;
  stabs = some 2;
  plt = some 3;
}

four_slots-Placed : Placed four_slots
four_slots-Placed = record {
  room = omega arith;
  counted = refl;
  at_dsymtab = (omega arith, refl);
  at_symtab = (omega arith, refl);
  at_stabs = (omega arith, refl);
  at_plt = (omega arith, refl);
}

abbrev full_reader : Reader ℕ
full_reader = record toy_reader { sections = four_slots }

open_tables-Ordered_example : InOrder (final (open_tables toy_os toy_files none none full_reader))
open_tables-Ordered_example = open_tables-Ordered toy_os toy_files none none full_reader

-- The symbols of .dynsym come out in the order of their addresses.
abbrev strings_files : Files ℕ
strings_files = record toy_files {
  read_shdr = λ _ w. (some (record dynsym_header { sh_type = 3 }), w);
}

abbrev dynamic_reader : Reader ℕ
dynamic_reader = record toy_reader { sections = record no_slots { dsymtab = some 0; free = 1 } }

two_symbols :
    map
      (λ f. f.fun_start_addr)
      (final (open_tables toy_os strings_files none none dynamic_reader)).symbols.head
    ≡ 0x1000 ∷ 0x2000 ∷ []
unfolding open_tables toy_reader
two_symbols = refl

-- A function stab at 0x1000 and a line stab four bytes into it, read over the two symbols.
abbrev two_stabs : List Stab
two_stabs =
    record { other_and_string_index = 0; line_and_type = 0x24; value = 0x1000 }
    ∷ record { other_and_string_index = 0; line_and_type = 7 * 2 ^ 16 + 0x44; value = 4 }
    ∷ []

abbrev symbols_reader : Reader ℕ
unfolding open_tables
symbols_reader = final (open_tables toy_os strings_files none none dynamic_reader)

two_stabs_lines :
    map
      (λ f. map {B = ℕ × ℕ} (λ l. (l.line_addr, l.line_number)) f.fun_lines)
      (final (
        debug_loop toy_os strings_files
          (record { bytes = []; size = 0 })
          two_stabs
          0
          none
          symbols_reader)).symbols.head
    ≡ ((0x1004, 7) ∷ []) ∷ [] ∷ []
unfolding debug_loop symbols_reader toy_reader
two_stabs_lines = refl

debug_loop-functions_example :
    functions
      (final (
        debug_loop toy_os strings_files
          (record { bytes = []; size = 0 })
          two_stabs
          0
          none
          symbols_reader)).symbols.head
    ≡ functions symbols_reader.symbols.head
debug_loop-functions_example =
    debug_loop-functions toy_os strings_files (record { bytes = []; size = 0 }) two_stabs 0 none
      symbols_reader
