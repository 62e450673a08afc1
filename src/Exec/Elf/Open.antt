-- ===== src/Exec/Elf/Open.antt =====
-- src/exec/elf/mut_exec.c: mut_exec_open and mut_exec_close.
use mut.Base.{
  ℕ, true, false, not, Option, none, some, List, Cmd, pure, skip, get, modify, when, ◌>>=◌, ◌>>◌,
  ◌on_fail◌, String,
}
use mut.Machine.{Os}
use mut.Log.{log_warning, log_string, finish}
use mut.Exec.Symtab.{open_symtab}
use mut.Exec.Elf.Types.{Shdr, Strings, Reader, Files}
use mut.Exec.Elf.Reading.{at_machine, sys, errno_now, give_back, complain, refuse, read_or}
use mut.Exec.Elf.Sections.{check_id, check_class, check_type, shstrtab_open}
use mut.Exec.Elf.Locate.{locate_sections}
use mut.Exec.Elf.Symbols.{symtab_close, strtab_open, extract_symbols}
use mut.Exec.Elf.Stabs.{stabstr_open, extract_debug_info}

abbrev pub slot : {W : Type 0} → Reader W → Option ℕ → Option Shdr
slot s none = none
slot s (some n) = some (s.sections.header n)

-- `mut_mem_free` of a table's memory, 0 where there is none.
module _ {W : Type 0} (os : Os W) (files : Files W) where
  unfoldable pub table_close : (Reader W → Option Strings) → Cmd (Reader W) (Unit {0})
  unfolding give_back
  table_close table s = elim (table s) [ none ↦ skip s | some _ ↦ give_back os files s ]

  -- The part for .symtab. On an error the cleanup behind `could_not_open_strtab` is left to the
  -- caller.
  unfoldable pub open_full : Option String → Option (List ℕ) → Shdr → Cmd (Reader W) (Unit {0})
  unfolding strtab_open extract_symbols table_close
  open_full junk suffix symtab = do
    strings ← strtab_open os files symtab
    modify λ s. record s { strtab = some strings }
    cut ←
        extract_symbols os files junk symtab strings suffix none on_fail table_close (λ s. s.strtab)
    modify λ s. record s { strtab = some cut; has_full_symbols = true }

  -- The part for .dynsym.
  unfoldable pub open_dynamic : Option String → Option (List ℕ) → Shdr → Cmd (Reader W) (Unit {0})
  unfolding strtab_open extract_symbols table_close
  open_dynamic junk suffix dsymtab = do
    strings ← strtab_open os files dsymtab on_fail table_close (λ s. s.strtab)
    modify λ s. record s { dynstr = some strings }
    s ← get (λ s. s)
    cut ←
        extract_symbols os files junk dsymtab strings suffix (slot s s.sections.plt)
        on_fail (do table_close (λ s. s.dynstr); table_close (λ s. s.strtab))
    modify λ s. record s { dynstr = some cut }

  -- The part for .stab.
  unfoldable pub open_debug : Shdr → Cmd (Reader W) (Unit {0})
  unfolding stabstr_open extract_debug_info table_close
  open_debug stabs =
      (do
        strings ← stabstr_open os files stabs
        modify λ s. record s { stabstr = some strings }
        extract_debug_info os files stabs strings on_fail table_close (λ s. s.stabstr))
      on_fail (do table_close (λ s. s.dynstr); table_close (λ s. s.strtab))

  -- `if (reader.... != 0)`
  unfoldable pub if_there :
      Option Shdr → (Shdr → Cmd (Reader W) (Unit {0})) → Cmd (Reader W) (Unit {0})
  if_there none m = skip
  if_there (some h) m = m h

  -- From `mut_exec_symtab_open` on, with the cleanup behind `could_not_open_strtab`.
  unfoldable pub open_tables : Option String → Option (List ℕ) → Cmd (Reader W) (Unit {0})
  unfolding if_there open_full open_dynamic open_debug
  open_tables junk suffix = do
    modify λ s. record s {
      symbols = open_symtab;
      symtab_closed = false;
      strtab = none;
      dynstr = none;
      stabstr = none;
    }
    s ← get (λ s. s)
    if_there (slot s s.sections.symtab) (open_full junk suffix)
    if_there (slot s s.sections.dsymtab) (open_dynamic junk suffix)
    if_there (slot s s.sections.stabs) open_debug

  -- From `mut_exec_locate_sections` on, with the cleanup behind `could_not_locate_sections`.
  unfoldable pub open_sections : Option String → Option (List ℕ) → Cmd (Reader W) (Unit {0})
  unfolding locate_sections open_tables symtab_close give_back
  open_sections junk suffix =
      (do locate_sections os files; open_tables junk suffix on_fail symtab_close os files)
      on_fail give_back os files

  -- The header, its checks, and the rest, once the file is open.
  unfoldable pub open_header : Option String → Option (List ℕ) → Cmd (Reader W) (Unit {0})
  unfolding read_or complain errno_now check_id check_class check_type shstrtab_open open_sections
  open_header junk suffix = do
    h ← read_or os files files.read_ehdr (do complain os files "io.read" (← errno_now os files))
    modify λ s. record s { header = h }
    check_id os files
    check_class os files
    check_type os files
    shstrtab_open os files
    open_sections junk suffix

  -- `fclose`, with a warning where it fails.
  unfoldable pub close_source : Cmd (Reader W) (Unit {0})
  close_source = do
    closed ← sys files.close
    name ← get (λ s. s.file_name)
    when (not closed) (at_machine (do log_warning os "io.close"; log_string os name; finish os))

  -- `(void)fclose(reader.source)`
  unfoldable pub drop_source : Cmd (Reader W) (Unit {0})
  drop_source = do _ ← sys files.close; pure tt

  -- `mut_exec_open`
  unfoldable pub exec_open : Option String → Option (List ℕ) → Cmd (Reader W) (Unit {0})
  unfolding refuse errno_now open_header close_source drop_source give_back
  exec_open junk suffix = do
    name ← get (λ s. s.file_name)
    opened ← sys (files.open_read name)
    e ← errno_now os files
    when (not opened) (refuse os files "io.open" e)
    open_header junk suffix on_fail drop_source
    close_source
    give_back os files

  -- `mut_exec_close`
  unfoldable pub exec_close : Cmd (Reader W) (Unit {0})
  unfolding table_close symtab_close
  exec_close = do
    table_close (λ s. s.stabstr)
    table_close (λ s. s.strtab)
    table_close (λ s. s.dynstr)
    symtab_close os files
