-- ===== src/Exec/Elf/Locate.antt =====
-- src/exec/elf/mut_exec.c: mut_exec_locate_sections. Each of the pointers into the array of section
-- headers is the number of a slot; a header that is read behind the array ends in `halt`.
use mut.Base.{
  ℕ, zero, suc, ◌+◌, ◌-◌, Option, none, some, List, [], ◌∷◌, Cmd, skip, halted, get, modify, when,
  ◌>>=◌, ◌>>◌, if◌then◌else◌, ◌==◌,
}
use mut.Machine.{Os}
use mut.Exec.Elf.Types.{
  Shdr, Sections, Reader, Files, sht_progbits, sht_symtab, sht_dynsym, sections_max,
}
use mut.Exec.Elf.Text.{same_bytes}
use mut.Exec.Elf.Reading.{errno_now, complain, refuse, seek_or, read_or}
use mut.Exec.Elf.Sections.{shstrtab_lookup}

-- The four pointers of the reader.
pub data Kind : Type 0 where
  dsymtab symtab stabs plt : Kind

abbrev pub pointer : Kind → Sections → Option ℕ
pointer dsymtab s = s.dsymtab
pointer symtab s = s.symtab
pointer stabs s = s.stabs
pointer plt s = s.plt

-- The section that the kind is found in has this name.
abbrev pub section_name : Kind → List ℕ
section_name dsymtab = b'.' ∷ b'd' ∷ b'y' ∷ b'n' ∷ b's' ∷ b'y' ∷ b'm' ∷ []
section_name symtab = b'.' ∷ b's' ∷ b'y' ∷ b'm' ∷ b't' ∷ b'a' ∷ b'b' ∷ []
section_name stabs = b'.' ∷ b's' ∷ b't' ∷ b'a' ∷ b'b' ∷ []
section_name plt = b'.' ∷ b'p' ∷ b'l' ∷ b't' ∷ []

-- `reader->... = section_header; reader->section.free += 1;`
unfoldable pub take_slot : Kind → Sections → Sections
take_slot dsymtab s = record s { dsymtab = some s.free; free = s.free + 1 }
take_slot symtab s = record s { symtab = some s.free; free = s.free + 1 }
take_slot stabs s = record s { stabs = some s.free; free = s.free + 1 }
take_slot plt s = record s { plt = some s.free; free = s.free + 1 }

-- What fread puts into the free slot.
unfoldable pub fill_slot : Shdr → Sections → Sections
fill_slot h s = record s { header = λ k. if k == s.free then h else s.header k }

-- Before the first header.
unfoldable pub no_sections : Sections → Sections
no_sections s = record s { free = 0; dsymtab = none; symtab = none; stabs = none; plt = none }

module _ {W : Type 0} where
  -- `if (reader->... != 0) break;`
  unfoldable pub unless_found : Kind → Cmd (Reader W) (Unit {0}) → Cmd (Reader W) (Unit {0})
  unless_found k m s = elim (pointer k s.sections) [ none ↦ m s | some _ ↦ skip s ]

  unfoldable pub take : Kind → Cmd (Reader W) (Unit {0})
  unfolding take_slot
  take k = modify λ s. record s { sections = take_slot k s.sections }

  -- `if (strcmp(...) == 0)`
  unfoldable pub take_named : Kind → List ℕ → Cmd (Reader W) (Unit {0})
  unfolding take same_bytes
  take_named k name = when (same_bytes name (section_name k)) (take k)

  -- The cases of SHT_DYNSYM and SHT_SYMTAB.
  unfoldable pub symbol_section : Kind → Shdr → Cmd (Reader W) (Unit {0})
  unfolding unless_found take_named shstrtab_lookup
  symbol_section k h = unless_found k (shstrtab_lookup h.sh_name >>= take_named k)

  -- The case of SHT_PROGBITS, with the name of the section.
  unfoldable pub program_named : List ℕ → Cmd (Reader W) (Unit {0})
  unfolding unless_found take same_bytes
  program_named name =
      if same_bytes name (section_name stabs)
      then unless_found stabs (take stabs)
      else when (same_bytes name (section_name plt)) (unless_found plt (take plt))

  unfoldable pub program_section : Shdr → Cmd (Reader W) (Unit {0})
  unfolding program_named shstrtab_lookup
  program_section h = shstrtab_lookup h.sh_name >>= program_named

  -- The switch on the type of a section.
  unfoldable pub note_section : Shdr → Cmd (Reader W) (Unit {0})
  unfolding symbol_section program_section
  note_section h =
      if h.sh_type == sht_dynsym
      then symbol_section dsymtab h
      else if h.sh_type == sht_symtab
      then symbol_section symtab h
      else if h.sh_type == sht_progbits
      then program_section h
      else skip

  -- What fread stores, and the switch. Behind the last slot it is stored outside the array.
  unfoldable pub fill_and_note : Shdr → Cmd (Reader W) (Unit {0})
  unfolding fill_slot note_section
  fill_and_note h s =
      if s.sections.free == sections_max
      then halted s
      else (do modify λ s. record s { sections = fill_slot h s.sections }; note_section h) s

module _ {W : Type 0} (os : Os W) (files : Files W) where
  -- One round of the loop.
  unfoldable pub locate_round : Cmd (Reader W) (Unit {0})
  unfolding read_or complain errno_now fill_and_note
  locate_round = do
    entsize ← get (λ s. s.header.e_shentsize)
    h ←
        read_or os files (files.read_shdr entsize)
          (do complain os files "io.read" (← errno_now os files))
    fill_and_note h

  unfoldable pub locate_rounds : ℕ → Cmd (Reader W) (Unit {0})
  unfolding locate_round
  locate_rounds zero = skip
  locate_rounds (suc n) = do locate_round; locate_rounds n

  -- `reader->dsymtab != 0 || reader->symtab != 0`
  unfoldable pub check_symbols : Cmd (Reader W) (Unit {0})
  unfolding refuse
  check_symbols s = elim s.sections.dsymtab [
    | some _ ↦ skip s
    | none ↦ elim s.sections.symtab [ some _ ↦ skip s | none ↦ refuse os files "elf.nosymbols" 0 s ]
  ]

  -- `mut_exec_locate_sections`
  unfoldable pub locate_sections : Cmd (Reader W) (Unit {0})
  unfolding seek_or complain errno_now no_sections locate_rounds check_symbols
  locate_sections = do
    h ← get (λ s. s.header)
    seek_or os files h.e_shoff (do complain os files "io.seek" (← errno_now os files))
    modify λ s. record s { sections = no_sections s.sections }
    locate_rounds (h.e_shnum - 1)
    check_symbols
