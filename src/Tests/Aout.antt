-- ===== src/Tests/Aout.antt =====
-- src/exec/aout/mut_exec.c at concrete inputs.
use mut.Base.{
  ℕ, ◌≡◌, refl, arith, true, false, none, some, List, [], ◌∷◌, map, ok, if◌then◌else◌, final, ◌>>◌,
  ◌+◌,
}
use mut.Exec.Aout.Types.{Nlist, Strings, Reader, Files}
use mut.Exec.Aout.Open.{
  exec_open, exec_close, open_header, open_symbols, close_source, check_magic, check_type,
  strtab_open, allocate, seek_to, read_or, give_back, reader_symtab_open, extract_functions,
  extract_each, strtab_lookup, is_function, add_symbol, strip, free_nodes, errno_now,
}
use mut.Exec.Symtab.{add_fun, fun_open, place_fun, mem_malloc, open_symtab}
use mut.Exec.Elf.Symbols.{nodes}
use mut.Exec.Elf.Text.{string_at, from, c_string, same_bytes}
use mut.Exec.Aout.Held.{Ends, Holds}
use mut.Exec.Aout.Releases.{exec_open-releases, Left}
use mut.Exec.Aout.Names.{name_at}
use mut.Exec.Aout.First.{extract_each-first, first_at}
use mut.Tests.Sample.{toy_os, toy_machine}

-- The strings "_ab" at 4 and "cd" at 8; three symbols, two of them at one address.
abbrev symbols : List Nlist
symbols =
    record { n_strx = 4; n_type = 5; n_value = 0x2000 }
    ∷ record { n_strx = 8; n_type = 4; n_value = 0x2000 }
    ∷ record { n_strx = 8; n_type = 5; n_value = 0x1000 }
    ∷ []

abbrev toy_files : Files ℕ
toy_files = record {
  open_read = λ _ w. (true, w);
  close = λ w. (true, w);
  seek = λ _ w. (true, w);
  read_header = λ _ w. (
    some (record {
      bad_magic = false;
      magic = 0x10b;
      mach = 100;
      str_off = 80;
      sym_off = 32;
      a_syms = 36;
    }),
    w,
  );
  read_size = λ w. (some 11, w);
  read_bytes = λ _ w. (some (0x5f ∷ 0x61 ∷ 0x62 ∷ 0 ∷ 0x63 ∷ 0x64 ∷ 0 ∷ []), w);
  read_nlists = λ _ w. (some symbols, w);
  mem_free = λ w. w;
  text = λ bs. if same_bytes bs (0x61 ∷ 0x62 ∷ []) then "ab" else "cd";
  size_bytes = 0 ∷ 0 ∷ 0 ∷ 0 ∷ [];
  n_text = 4;
  n_type_end = 30;
  aout_mach = 100;
  sizeof_exec = 32;
  sizeof_nlist = 12;
}

abbrev toy_reader : Reader ℕ
toy_reader = record {
  machine = toy_machine;
  file_name = "a.out";
  header = record { bad_magic = true; magic = 0; mach = 0; str_off = 0; sym_off = 0; a_syms = 0 };
  elems = [];
  strings = none;
  symbols = record { head = []; cache = none; end_addr = 0 };
  source_open = false;
  blocks = 3;
}

exec_open-releases_example :
    Ends
      (Holds false true (3 + 1))
      (Left toy_os toy_files false 3)
      (exec_open toy_os toy_files none toy_reader)
exec_open-releases_example =
    exec_open-releases toy_os toy_files none 3 toy_reader
      (record { source_is = refl; strings_is = refl; blocks_is = refl })

-- The names of the table, and what is held after mut_exec_close.
opened_names :
    map (λ f. f.fun_name) (final (exec_open toy_os toy_files none toy_reader)).symbols.head
    ≡ "cd" ∷ "ab" ∷ []
unfolding exec_open open_header open_symbols close_source check_magic check_type strtab_open
    allocate seek_to read_or give_back reader_symtab_open extract_functions extract_each
    strtab_lookup is_function add_symbol strip errno_now add_fun fun_open place_fun mem_malloc
    open_symtab string_at from c_string same_bytes
opened_names = refl

closed_blocks :
    (final ((exec_open toy_os toy_files none >> exec_close toy_os toy_files) toy_reader)).blocks ≡ 3
unfolding exec_open exec_close open_header open_symbols close_source check_magic check_type
    strtab_open allocate seek_to read_or give_back reader_symtab_open extract_functions extract_each
    strtab_lookup is_function add_symbol strip free_nodes errno_now add_fun fun_open place_fun
    mem_malloc open_symtab nodes string_at from c_string same_bytes
closed_blocks = refl

abbrev toy_strings : Strings
toy_strings = record {
  bytes = 0 ∷ 0 ∷ 0 ∷ 0 ∷ 0x5f ∷ 0x61 ∷ 0x62 ∷ 0 ∷ 0x63 ∷ 0x64 ∷ 0 ∷ [];
  size = 11;
}

abbrev read_reader : Reader ℕ
read_reader = record toy_reader { strings = some toy_strings }

extract_each-first_example :
    (u : Reader ℕ) × (extract_each toy_os toy_files none symbols read_reader ≡ ok tt u)
    × ((a : ℕ) → name_at a u.symbols.head ≡ first_at toy_os toy_files toy_strings a symbols)
extract_each-first_example =
    extract_each-first toy_os toy_files none toy_strings symbols read_reader refl refl (λ _. refl)
      (omega arith)
