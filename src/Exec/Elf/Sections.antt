-- ===== src/Exec/Elf/Sections.antt =====
-- src/exec/elf/mut_exec.c: the checks of the file's header, the names of the sections, and the search
-- for the sections that matter.
use mut.Base.{
  add32, mul32, ltb, assert, when, ◌on_fail◌, ℕ, not, ◌||◌, List, [], ◌∷◌, Cmd, pure, failed, skip,
  get, modify, ◌>>=◌, ◌>>◌, if◌then◌else◌, ◌==◌,
}
use mut.Machine.{Os}
use mut.Log.{log_fatal, log_warning, log_string, finish}
use mut.Exec.Elf.Types.{Shdr, Reader, Files, elf_class_32, et_exec}
use mut.Exec.Elf.Types.{sht_strtab}
use mut.Exec.Elf.Text.{string_at, c_string}
use mut.Exec.Elf.Reading.{
  at_machine, errno_now, give_back, complain, refuse, seek_or, read_or, granted,
}

module _ {W : Type 0} (os : Os W) (files : Files W) where
  -- `mut_exec_check_id`
  unfoldable pub check_id : Cmd (Reader W) (Unit {0})
  unfolding errno_now refuse
  check_id = do
    h ← get (λ s. s.header)
    if not (h.e_ident 0 == 127)
          || (not (h.e_ident 1 == b'E') || (not (h.e_ident 2 == b'L') || not (h.e_ident 3 == b'F')))
        then refuse os files "elf.not" (← errno_now os files)
        else skip

  -- `mut_exec_check_class`
  unfoldable pub check_class : Cmd (Reader W) (Unit {0})
  unfolding c_string
  check_class s =
      if not (s.header.e_ident 4 == elf_class_32)
      then (do
        at_machine (do
          log_warning os "elf.bad-class"
          log_string os s.file_name
          log_string os (files.text (c_string (s.header.e_ident 4 ∷ [])))
          finish os)
        failed)
          s
      else skip s

  -- `mut_exec_check_type`
  unfoldable pub check_type : Cmd (Reader W) (Unit {0})
  unfolding refuse
  check_type s =
      if not (s.header.e_type == et_exec) then refuse os files "elf.not-exec" 0 s else skip s

  -- A table of strings at the section header that has just been read.
  unfoldable pub read_shstrtab : Shdr → Cmd (Reader W) (Unit {0})
  unfolding errno_now give_back complain seek_or read_or
  read_shstrtab header = do
    seek_or os files header.sh_offset (do complain os files "io.seek" (← errno_now os files))
    bytes ←
        read_or os files (files.read_bytes header.sh_size)
          (do complain os files "io.read" (← errno_now os files))
    modify λ s. record s { strings = record { bytes = bytes; size = header.sh_size } }

  -- `mut_exec_shstrtab_open`
  unfoldable pub shstrtab_open : Cmd (Reader W) (Unit {0})
  unfolding errno_now refuse complain seek_or read_or granted give_back read_shstrtab
  shstrtab_open = do
    h ← get (λ s. s.header)
    seek_or os files (add32 h.e_shoff (mul32 h.e_shstrndx h.e_shentsize))
        (do complain os files "io.seek" (← errno_now os files))
    header ←
        read_or os files (files.read_shdr h.e_shentsize)
          (do complain os files "io.read" (← errno_now os files))
    when (not (header.sh_type == sht_strtab)) (refuse os files "elf.shstrtab" 0)
    memory ← granted os files
    if memory then read_shstrtab header on_fail give_back os files else (do
      e ← errno_now os files
      at_machine (do log_fatal os "mem.full" e; finish os)
      failed)

module _ {W : Type 0} where
  -- `mut_exec_shstrtab_lookup`
  unfoldable pub shstrtab_lookup : ℕ → Cmd (Reader W) (List ℕ)
  unfolding string_at
  shstrtab_lookup index = do
    strings ← get (λ s. s.strings)
    assert (ltb index strings.size)
    pure (string_at index strings.bytes)
