-- ===== src/Exec/Elf/Stabs.antt =====
-- src/exec/elf/mut_exec.c: the stabs and what they say of lines and files.
use mut.Base.{
  ℕ, zero, suc, ◌%◌, not, Option, none, some, List, [], ◌∷◌, Cmd, and_then, within, pure, failed,
  skip, get, when, ◌>>=◌, ◌>>◌, ◌on_fail◌, if◌then◌else◌, ◌==◌, ltb, add32, mul32, String,
}
use mut.Machine.{Os}
use mut.Log.{log_fatal, log_string, log_long, finish}
use mut.Exec.Symtab.{add_range}
use mut.Exec.Elf.Types.{
  Shdr, Stab, Strings, Reader, Files, sizeof_stab, sht_strtab, stab_type_fun, stab_type_line,
  stab_type_so, stab_type, stab_str, stab_line,
}
use mut.Exec.Elf.Text.{string_at, byte_at, last_is_slash}
use mut.Exec.Elf.Reading.{
  at_machine, errno_now, give_back, complain, complain_more, refuse, seek_or, read_or,
  mem_full_failure, granted,
}

-- `x[-1]` for the string `x` at `n`.
unfoldable pub byte_in_front : {W : Type 0} → Files W → ℕ → List ℕ → ℕ
unfolding byte_at
byte_in_front files zero bytes = files.byte_before
byte_in_front files (suc n) bytes = byte_at n bytes

-- `if (fn == 0) fn = x; else fn = 0;`
unfoldable pub toggle : String → Option String → Option String
toggle x none = some x
toggle x (some _) = none

-- What a stab of type SO does with the file name: a directory leaves it, and the second name of a
-- file ends the file.
unfoldable pub next_file : {W : Type 0} → Files W → Stab → Strings → Option String → Option String
unfolding stab_str byte_in_front toggle string_at last_is_slash
next_file files s strings fn =
    let n = stab_str s in
    let x = string_at n strings.bytes in
    if ltb n strings.size
    then if last_is_slash (byte_in_front files n strings.bytes) x
      then fn
      else toggle (files.text x) fn
    else fn

module _ {W : Type 0} (os : Os W) (files : Files W) where
  -- The stabs, once there is memory for them.
  unfoldable pub read_stabs : Shdr → Cmd (Reader W) (List Stab)
  unfolding seek_or read_or complain_more complain errno_now
  read_stabs stabs = do
    seek_or os files stabs.sh_offset
        (complain_more os files "io.seek" 0 (log_long os stabs.sh_offset))
    read_or os files (files.read_stabs stabs.sh_size)
        (do complain os files "io.read" (← errno_now os files))

  -- `mut_exec_extract_stabs`
  unfoldable pub extract_stabs : Shdr → Cmd (Reader W) (List Stab)
  unfolding refuse granted mem_full_failure give_back read_stabs
  extract_stabs stabs = do
    when (not (stabs.sh_entsize == sizeof_stab)) (refuse os files "elf.stab.size" 0)
    when (not (stabs.sh_size % sizeof_stab == 0)) (refuse os files "elf.stab.size" 0)
    memory ← granted os files
    if memory then read_stabs stabs on_fail give_back os files else mem_full_failure os files

  -- The strings of the stabs, once there is memory for them.
  unfoldable pub read_stabstr : Shdr → Cmd (Reader W) Strings
  unfolding seek_or read_or complain errno_now
  read_stabstr strtab = do
    seek_or os files strtab.sh_offset (do complain os files "io.seek" (← errno_now os files))
    bytes ←
        read_or os files (files.read_bytes strtab.sh_size)
          (do complain os files "io.read" (← errno_now os files))
    pure (record { bytes = bytes; size = strtab.sh_size })

  -- `mut_exec_stabstr_open`
  unfoldable pub stabstr_open : Shdr → Cmd (Reader W) Strings
  unfolding refuse complain seek_or read_or errno_now granted give_back read_stabstr
  stabstr_open stabs = do
    h ← get (λ s. s.header)
    when (ltb h.e_shnum stabs.sh_link)
        (do complain_more os files "elf.section_index.range" 0 (log_string os ".stabstr"); failed)
    seek_or os files (add32 h.e_shoff (mul32 stabs.sh_link h.e_shentsize))
        (complain os files "io.seek" 0)
    strtab ←
        read_or os files (files.read_shdr h.e_shentsize)
          (do complain os files "io.read" (← errno_now os files))
    when (not (strtab.sh_type == sht_strtab)) (refuse os files "elf.stab.stabstr" 0)
    memory ← granted os files
    if memory then read_stabstr strtab on_fail give_back os files else (do
      e ← errno_now os files
      at_machine (do log_fatal os "mem.full" e; finish os)
      failed)

  -- `mut_exec_symtab_add_range`, which may change the table also when it fails.
  unfoldable pub add_line : ℕ → ℕ → Option String → Cmd (Reader W) (Unit {0})
  unfolding add_range
  add_line a l fn s =
      and_then
        (within (λ s m. record s { machine = m }) s (add_range os s.symbols a l fn s.machine))
        (λ (symbols, done) s. (if done then skip else failed) (record s { symbols = symbols }))

  -- The loop over the stabs, with the start of the function that it is in and the file's name.
  unfoldable pub debug_loop : Strings → List Stab → ℕ → Option String → Cmd (Reader W) (Unit {0})
  unfolding stab_type stab_line next_file add_line
  debug_loop strings [] base_addr fn = skip
  debug_loop strings (s ∷ ss) base_addr fn =
      let same = debug_loop strings ss base_addr fn in
      let in_fun = debug_loop strings ss s.value fn in
      let in_file = debug_loop strings ss base_addr (next_file files s strings fn) in
      if stab_type s == stab_type_line
      then if base_addr == 0
        then same
        else (do add_line (add32 base_addr s.value) (stab_line s) fn; same)
      else if stab_type s == stab_type_fun
      then in_fun
      else if stab_type s == stab_type_so
      then in_file
      else same

  -- `mut_exec_extract_debug_info`
  unfoldable pub extract_debug_info : Shdr → Strings → Cmd (Reader W) (Unit {0})
  unfolding extract_stabs debug_loop give_back
  extract_debug_info stabs strings = do
    entries ← extract_stabs stabs
    debug_loop strings entries 0 none on_fail give_back os files
    give_back os files
