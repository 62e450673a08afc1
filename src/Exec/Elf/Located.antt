-- ===== src/Exec/Elf/Located.antt =====
-- src/exec/elf/mut_exec.c: mut_exec_locate_sections keeps its pointers in the slots in use.
use mut.Base.{
  failed, modify, ◌>>=◌, ◌>>◌, String, List, pure, ap, ◌∙◌, ℕ, zero, suc, ◌-◌, ◌≡◌, Bool, true,
  false, none, arith, Outcome, Cmd, ok, fail, halt, spent, and_then, within, final, ◌==◌, ltb,
  assert, of_option, of_test, when,
}
use mut.Machine.{Os, Machine}
use mut.Exec.Elf.Types.{Shdr, Reader, Files, sht_progbits, sht_symtab, sht_dynsym, sections_max}
use mut.Exec.Elf.Text.{string_at, same_bytes}
use mut.Exec.Elf.Reading.{errno_now, complain, refuse, seek_or, read_or}
use mut.Exec.Elf.Sections.{shstrtab_lookup}
use mut.Exec.Elf.Locate.{
  Kind, dsymtab, symtab, stabs, plt, pointer, section_name, fill_slot, no_sections, unless_found,
  take, symbol_section, program_section, take_named, program_named, note_section, fill_and_note,
  locate_round, locate_rounds, check_symbols, locate_sections,
}
use mut.Exec.Elf.Placed.{
  Placed, Filled, kind_type, no_sections-Placed, take_slot-Placed, fill_slot-Filled,
}

-- However a run has ended, its pointers are placed.
record Stays {W A : Type 0} (o : Outcome (Reader W) A) : Type 0 where
  pub ends : Placed (final o).sections

module _ {W : Type 0} where
  at_machine_lem :
      {A : Type 0} (o : Outcome (Machine W) A) (s : Reader W)
      → Placed s.sections
      → Stays (within (λ s m. record s { machine = m }) s o)
  at_machine_lem (ok a m) s p = record { ends = p }
  at_machine_lem (fail m) s p = record { ends = p }
  at_machine_lem (halt m) s p = record { ends = p }
  at_machine_lem (spent m) s p = record { ends = p }

  unless_found_lem :
      (k : Kind) (m : Cmd (Reader W) (Unit {0})) (s : Reader W)
      → Placed s.sections
      → (pointer k s.sections ≡ none → Stays (m s))
      → Stays (unless_found k m s)
  unfolding unless_found
  unless_found_lem k m s p next =
      of_option {B = Outcome (Reader W) (Unit {0})} (λ o. Stays o) (pointer k s.sections) _ _ next
        (λ n h. record { ends = p })

  lookup_lem :
      (n : ℕ) (next : List ℕ → Cmd (Reader W) (Unit {0})) (s : Reader W)
      → Placed s.sections
      → ((name : List ℕ) → Stays (next name s))
      → Stays ((shstrtab_lookup n >>= next) s)
  unfolding shstrtab_lookup
  lookup_lem n next s p go =
      elim (ltb n s.strings.size)
        as (λ b.
          Stays (and_then (and_then (assert b s) (λ _. pure (string_at n s.strings.bytes))) next)) [
            | true ↦ go _
            | false ↦ record { ends = p }
          ]

  when_lem :
      (b : Bool) (m : Cmd (Reader W) (Unit {0})) (s : Reader W)
      → Placed s.sections
      → Stays (m s)
      → Stays (when b m s)
  when_lem true m s p q = q
  when_lem false m s p q = record { ends = p }

  take_lem :
      (k : Kind) (h : Shdr) (s : Reader W)
      → Filled h s.sections
      → h.sh_type ≡ kind_type k
      → pointer k s.sections ≡ none
      → Stays (take k s)
  unfolding take
  take_lem k h s f ty none_yet = record {
    ends =
        take_slot-Placed k s.sections f.placed f.left (ap (λ x. x.sh_type) f.holds ∙ ty) none_yet;
  }

  symbol_section_lem :
      (k : Kind) (h : Shdr) (s : Reader W)
      → Filled h s.sections
      → h.sh_type ≡ kind_type k
      → Stays (symbol_section k h s)
  unfolding symbol_section take_named
  symbol_section_lem k h s f ty =
      unless_found_lem k (shstrtab_lookup h.sh_name >>= take_named k) s f.placed (λ none_yet.
        lookup_lem h.sh_name (take_named k) s f.placed (λ name.
          when_lem (same_bytes name (section_name k)) (take k) s f.placed
            (take_lem k h s f ty none_yet)))

  program_section_lem :
      (h : Shdr) (s : Reader W)
      → Filled h s.sections
      → h.sh_type ≡ sht_progbits
      → Stays (program_section h s)
  unfolding program_section program_named
  program_section_lem h s f ty = lookup_lem h.sh_name program_named s f.placed (λ name.
      of_test {A = Cmd (Reader W) (Unit {0})} (λ m. Stays (m s))
        (same_bytes name (section_name stabs)) (unless_found stabs (take stabs))
        (when (same_bytes name (section_name plt)) (unless_found plt (take plt)))
        (λ _. unless_found_lem stabs (take stabs) s f.placed (take_lem stabs h s f ty))
        (λ _.
          when_lem (same_bytes name (section_name plt)) (unless_found plt (take plt)) s f.placed
            (unless_found_lem plt (take plt) s f.placed (take_lem plt h s f ty))))

  note_section_lem : (h : Shdr) (s : Reader W) → Filled h s.sections → Stays (note_section h s)
  unfolding note_section
  note_section_lem h s f =
      let Q : Cmd (Reader W) (Unit {0}) → Type 0 = λ m. Stays (m s) in
      of_test Q (h.sh_type == sht_dynsym) _ _
        (λ e. symbol_section_lem dsymtab h s f (ground (arith, e)))
        (λ _.
          of_test Q (h.sh_type == sht_symtab) _ _
            (λ e. symbol_section_lem symtab h s f (ground (arith, e)))
            (λ _.
              of_test Q (h.sh_type == sht_progbits) _ _
                (λ e. program_section_lem h s f (ground (arith, e)))
                (λ _. record { ends = f.placed })))

module _ {W : Type 0} (os : Os W) (files : Files W) where
  bind_lem :
      {A B : Type 0} (o : Outcome (Reader W) A) (k : A → Cmd (Reader W) B)
      → Stays o
      → ((a : A) (t : Reader W) → Placed t.sections → Stays (k a t))
      → Stays (and_then o k)
  bind_lem (ok a t) k p next = next a t p.ends
  bind_lem (fail t) k p next = record { ends = p.ends }
  bind_lem (halt t) k p next = record { ends = p.ends }
  bind_lem (spent t) k p next = record { ends = p.ends }

  refused_lem :
      {A B : Type 0} (o : Outcome (Reader W) (Unit {0})) (k : A → Cmd (Reader W) B)
      → Stays o
      → Stays (and_then (and_then o (λ _. failed)) k)
  refused_lem (ok a t) k p = record { ends = p.ends }
  refused_lem (fail t) k p = record { ends = p.ends }
  refused_lem (halt t) k p = record { ends = p.ends }
  refused_lem (spent t) k p = record { ends = p.ends }

  complain_lem :
      (what : String) (code : ℕ) (s : Reader W)
      → Placed s.sections
      → Stays (complain os files what code s)
  unfolding complain
  complain_lem what code s p = at_machine_lem _ s p

  fill_and_note_lem : (hd : Shdr) (s : Reader W) → Placed s.sections → Stays (fill_and_note hd s)
  unfolding fill_and_note
  fill_and_note_lem hd s p =
      of_test {A = Outcome (Reader W) (Unit {0})} (λ o. Stays o) (s.sections.free == sections_max) _
        _ (λ _. record { ends = p })
        (λ h.
          note_section_lem hd (record s { sections = fill_slot hd s.sections })
            (fill_slot-Filled hd s.sections p (ground (arith, h))))

  locate_round_lem : (s : Reader W) → Placed s.sections → Stays (locate_round os files s)
  unfolding locate_round read_or errno_now
  locate_round_lem s p =
      let (item, w) = files.read_shdr s.header.e_shentsize s.machine.world in
      let s' = record s { machine = record s.machine { world = w } } in
      of_option {B = Cmd (Reader W) Shdr} (λ m. Stays (and_then (m s') fill_and_note)) item _ _
        (λ _. refused_lem _ fill_and_note (complain_lem "io.read" (os.errno w) s' p))
        (λ hd _. fill_and_note_lem hd s' p)

  locate_rounds_lem :
      (n : ℕ) (s : Reader W) → Placed s.sections → Stays (locate_rounds os files n s)
  unfolding locate_rounds
  locate_rounds_lem zero s p = record { ends = p }
  locate_rounds_lem (suc n) s p =
      bind_lem (locate_round os files s) _ (locate_round_lem s p) (λ _ t q. locate_rounds_lem n t q)

  check_symbols_lem : (s : Reader W) → Placed s.sections → Stays (check_symbols os files s)
  unfolding check_symbols refuse
  check_symbols_lem s p =
      let Q : Outcome (Reader W) (Unit {0}) → Type 0 = λ o. Stays o in
      of_option Q s.sections.dsymtab _ _
        (λ _.
          of_option Q s.sections.symtab _ _
            (λ _. bind_lem _ _ (complain_lem "elf.nosymbols" 0 s p) (λ _ t q. record { ends = q }))
            (λ _ _. record { ends = p }))
        (λ _ _. record { ends = p })

  -- Whenever the file can be positioned at its section headers, mut_exec_locate_sections, however
  -- it ends, leaves as many slots in use as it has pointers that are not null, at most four, and
  -- each such pointer at a slot in use whose header has the type of its kind.
  pub locate_sections-Placed :
      (s : Reader W)
      → (files.seek s.header.e_shoff s.machine.world).0 ≡ true
      → Placed (final (locate_sections os files s)).sections
  unfolding locate_sections seek_or errno_now
  locate_sections-Placed s found =
      let (done, w) = files.seek s.header.e_shoff s.machine.world in
      let s' = record s { machine = record s.machine { world = w } } in
      let rest : Unit {0} → Cmd (Reader W) (Unit {0}) = λ _. (do
        modify λ s. record s { sections = no_sections s.sections }
        locate_rounds os files (s.header.e_shnum - 1)
        check_symbols os files) in
      (of_test {A = Cmd (Reader W) (Unit {0})} (λ m. Stays (and_then (m s') rest)) done _ _
        (λ _.
          let start = record s' { sections = no_sections s'.sections } in
          bind_lem _ _
            (locate_rounds_lem (s.header.e_shnum - 1) start (no_sections-Placed s'.sections))
            (λ _ t q. check_symbols_lem t q))
        (λ lost. cc)).ends
