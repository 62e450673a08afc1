-- ===== src/Exec/Elf/Symbols.antt =====
-- src/exec/elf/mut_exec.c: the tables of strings that belong to the symbols, and the symbols.
use mut.Base.{
  ℕ, zero, suc, ◌+◌, ◌%◌, Bool, true, false, not, ◌&&◌, Option, none, some, List, [], ◌∷◌, Cmd,
  and_then, length, ok, within, pure, failed, halted, skip, get, modify, assert, when, ◌>>=◌, ◌>>◌,
  ◌on_fail◌, if◌then◌else◌, ◌==◌, ltb, add32, mul32, String,
}
use mut.Machine.{Os}
use mut.Log.{log_fatal, log_string, log_int, log_uint, log_long, finish}
use mut.Exec.Symtab.{Fun, add_fun}
use mut.Exec.Elf.Types.{
  Shdr, Sym, Strings, Reader, Files, sizeof_shdr, sizeof_sym, sht_strtab, stt_func, st_type,
}
use mut.Exec.Elf.Text.{string_at, strstr, end_at}
use mut.Exec.Elf.Reading.{
  at_machine, errno_now, give_back, complain, complain_more, refuse, seek_or, read_or,
  mem_full_failure, granted,
}

-- The nodes of a table of symbols, with their lines.
unfoldable pub nodes : List Fun → ℕ
nodes [] = 0
nodes (f ∷ fs) = suc (length f.fun_lines) + nodes fs

-- The name of a symbol: `undesirable_suffix` is cut off in the table itself.
unfoldable pub cut_suffix : Option (List ℕ) → ℕ → Strings → Strings
unfolding string_at strstr end_at
cut_suffix none n strings = strings
cut_suffix (some suffix) n strings = elim (strstr (string_at n strings.bytes) suffix) [
  | none ↦ strings
  | some k ↦ record strings { bytes = end_at (n + k) strings.bytes }
]

-- The address of a symbol that has none: its place in .plt.
unfoldable pub symbol_addr : Sym → Option Shdr → ℕ → ℕ
symbol_addr s none f = s.st_value
symbol_addr s (some plt) f =
    if s.st_value == 0 then add32 plt.sh_addr (mul32 f plt.sh_addralign) else s.st_value

module _ {W : Type 0} (os : Os W) (files : Files W) where
  unfoldable pub give_back_all : ℕ → Cmd (Reader W) (Unit {0})
  unfolding give_back
  give_back_all zero = skip
  give_back_all (suc n) = do give_back os files; give_back_all n

  -- `mut_exec_symtab_close`, which leaves `head` pointing at what it has given back.
  unfoldable pub symtab_close : Cmd (Reader W) (Unit {0})
  unfolding nodes give_back_all
  symtab_close = do
    s ← get (λ s. s)
    if s.symtab_closed && not (nodes s.symbols.head == 0) then halted else (do
      give_back_all (nodes s.symbols.head)
      modify λ s. record s { symtab_closed = true })

  -- The errors of `mut_exec_strtab_open`, with errno as a further argument.
  unfoldable pub strtab_error : String → Bool → Cmd (Reader W) (Unit {0})
  unfolding errno_now complain_more
  strtab_error what coded = do
    e ← errno_now os files
    complain_more os files what (if coded then e else 0) (log_int os e)

  -- The strings at a section header, once there is memory for them.
  unfoldable pub read_strings : Shdr → Cmd (Reader W) Strings
  unfolding seek_or read_or strtab_error
  read_strings strtab = do
    seek_or os files strtab.sh_offset (strtab_error "io.seek" true)
    bytes ← read_or os files (files.read_bytes strtab.sh_size) (strtab_error "io.read" true)
    pure (record { bytes = bytes; size = strtab.sh_size })

  -- `mut_exec_strtab_open` from the header of the strings on.
  unfoldable pub load_strings : Shdr → Cmd (Reader W) Strings
  unfolding complain_more errno_now granted give_back read_strings
  load_strings strtab = do
    when (not (strtab.sh_type == sht_strtab)) (do
      complain_more os files "elf.symtab.strtab" 0
          (do log_int os strtab.sh_type; log_int os sht_strtab)
      failed)
    memory ← granted os files
    if memory then read_strings strtab on_fail give_back os files else (do
      e ← errno_now os files
      at_machine (do log_fatal os "mem.full" e; log_uint os strtab.sh_size; finish os)
      failed)

  -- `mut_exec_strtab_open`
  unfoldable pub strtab_open : Shdr → Cmd (Reader W) Strings
  unfolding complain_more seek_or read_or strtab_error load_strings
  strtab_open symtab = do
    h ← get (λ s. s.header)
    when (not (h.e_shentsize == sizeof_shdr)) (do
      complain_more os files "elf.section.size" 0
          (do log_uint os h.e_shentsize; log_uint os sizeof_shdr)
      failed)
    when (ltb h.e_shnum symtab.sh_link) (do
      complain_more os files "elf.section.index.range" 0
          (do log_string os ".strtab"; log_uint os symtab.sh_link; log_uint os h.e_shnum)
      failed)
    seek_or os files (add32 h.e_shoff (mul32 symtab.sh_link h.e_shentsize))
        (strtab_error "io.seek" false)
    strtab ← read_or os files (files.read_shdr sizeof_shdr) (strtab_error "io.read" true)
    load_strings strtab

  -- `mut_exec_symtab_add_fun`; `file_name` of a new node is what memory held.
  unfoldable pub add_symbol : Option String → String → ℕ → Cmd (Reader W) (Unit {0})
  unfolding add_fun
  add_symbol junk name a s =
      and_then
        (within (λ s m. record s { machine = m }) s (add_fun os junk s.symbols name a s.machine))
        (λ symbols s. ok tt (record s { symbols = symbols }))

  -- The loop over the symbols; `f` counts the functions from 1, and `strings` is the table as it is.
  unfoldable pub symbol_loop :
      Option String
      → Option (List ℕ)
      → Option Shdr
      → List Sym
      → ℕ
      → Strings
      → Cmd (Reader W) Strings
  unfolding cut_suffix symbol_addr add_symbol string_at
  symbol_loop junk suffix plt [] f strings = pure strings
  symbol_loop junk suffix plt (s ∷ ss) f strings =
      let cut = cut_suffix suffix s.st_name strings in
      let a = symbol_addr s plt f in
      let next = symbol_loop junk suffix plt ss (add32 f 1) cut in
      let rest = symbol_loop junk suffix plt ss f strings in
      if st_type s.st_info == stt_func
      then (do
        assert (ltb s.st_name strings.size)
        when (not (a == 0)) (add_symbol junk (files.text (string_at s.st_name cut.bytes)) a)
        next)
      else rest

  -- The symbols, once there is memory for them.
  unfoldable pub read_symbols :
      Option String → Shdr → Strings → Option (List ℕ) → Option Shdr → Cmd (Reader W) Strings
  unfolding seek_or read_or complain_more complain errno_now symbol_loop symtab_close
  read_symbols junk symtab strings suffix plt = do
    seek_or os files symtab.sh_offset
        (complain_more os files "io.seek" 0 (log_long os symtab.sh_offset))
    symbols ←
        read_or os files (files.read_syms symtab.sh_size)
          (do complain os files "io.read" (← errno_now os files))
    symbol_loop junk suffix plt symbols 1 strings on_fail symtab_close

  -- `mut_exec_extract_symbols`: the table of strings as it leaves it.
  unfoldable pub extract_symbols :
      Option String → Shdr → Strings → Option (List ℕ) → Option Shdr → Cmd (Reader W) Strings
  unfolding refuse granted mem_full_failure give_back read_symbols
  extract_symbols junk symtab strings suffix plt = do
    when (not (symtab.sh_size % sizeof_sym == 0)) (refuse os files "elf.sym.size" 0)
    memory ← granted os files
    if memory
        then (do
          cut ← read_symbols junk symtab strings suffix plt on_fail give_back os files
          give_back os files
          pure cut)
        else mem_full_failure os files
