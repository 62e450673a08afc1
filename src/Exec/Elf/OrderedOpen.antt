-- ===== src/Exec/Elf/OrderedOpen.antt =====
-- src/exec/elf/mut_exec.c: mut_exec_open leaves the symbols in the order of their addresses.
use mut.Base.{
  of_option, ℕ, String, true, false, Option, none, some, List, Outcome, Cmd, final, Keeps, keeping,
  Keeps-bind, Keeps-on_fail, ◌>>◌, modify,
}
use mut.Machine.{Os}
use mut.Exec.Symtab.{open_symtab}
use mut.Exec.Elf.Types.{Shdr, Strings, Reader, Files}
use mut.Exec.Elf.Open.{
  slot, table_close, open_full, open_dynamic, open_debug, if_there, open_tables,
}
use mut.Exec.Elf.Ordered.{InOrder, give_back-Keeps, strtab_open-Keeps}
use mut.Exec.Elf.OrderedParts.{extract_symbols-Keeps, stabstr_open-Keeps, extract_debug_info-Keeps}

module _ {W : Type 0} (os : Os W) (files : Files W) where
  table_close-Keeps :
      (table : Reader W → Option Strings) (s : Reader W)
      → Keeps InOrder s (table_close os files table s)
  unfolding table_close
  table_close-Keeps table s =
      of_option {B = Outcome (Reader W) (Unit {0})} (λ o. Keeps InOrder s o) (table s) _ _
        (λ _. record { holds = λ p. p }) (λ _ _. give_back-Keeps os files s)

  abbrev cleanup : Cmd (Reader W) (Unit {0})
  cleanup = table_close os files (λ s. s.dynstr) >> table_close os files (λ s. s.strtab)

  cleanup-Keeps : (s : Reader W) → Keeps InOrder s (cleanup s)
  cleanup-Keeps s = search (keeping, table_close-Keeps)

  leave :
      (f : Reader W → Reader W) (s : Reader W)
      → (InOrder s → InOrder (f s))
      → Keeps InOrder s (modify f s)
  leave f s h = record { holds = h }

  if_there-Keeps :
      (h : Option Shdr) (m : Shdr → Cmd (Reader W) (Unit {0})) (s : Reader W)
      → ((h : Shdr) (t : Reader W) → Keeps InOrder t (m h t))
      → Keeps InOrder s (if_there os files h m s)
  unfolding if_there
  if_there-Keeps none m s k = record { holds = λ p. p }
  if_there-Keeps (some h) m s k = k h s

  open_full-Keeps :
      (junk : Option String) (suffix : Option (List ℕ)) (h : Shdr) (s : Reader W)
      → Keeps InOrder s (open_full os files junk suffix h s)
  unfolding open_full
  open_full-Keeps junk suffix h s = Keeps-bind (strtab_open-Keeps os files h s) (λ strings t.
      let t' : Reader W = record t { strtab = some strings } in
      let k =
        Keeps-bind
          (Keeps-on_fail {cleanup = table_close os files (λ s. s.strtab)}
            (extract_symbols-Keeps os files junk h strings suffix none t')
            (table_close-Keeps (λ s. s.strtab)))
          (λ cut u.
            leave (λ u. record u { strtab = some cut; has_full_symbols = true }) u (λ p. p)) in
      record { holds = k.holds })

  open_dynamic-Keeps :
      (junk : Option String) (suffix : Option (List ℕ)) (h : Shdr) (s : Reader W)
      → Keeps InOrder s (open_dynamic os files junk suffix h s)
  unfolding open_dynamic
  open_dynamic-Keeps junk suffix h s =
      Keeps-bind
        (Keeps-on_fail {cleanup = table_close os files (λ s. s.strtab)}
          (strtab_open-Keeps os files h s) (table_close-Keeps (λ s. s.strtab)))
        (λ strings t.
          let t' : Reader W = record t { dynstr = some strings } in
          let k =
            Keeps-bind
              (Keeps-on_fail {cleanup = cleanup}
                (extract_symbols-Keeps os files junk h strings suffix (slot t' t'.sections.plt) t')
                cleanup-Keeps)
              (λ cut u. leave (λ u. record u { dynstr = some cut }) u (λ p. p)) in
          record { holds = k.holds })

  open_debug-Keeps : (h : Shdr) (s : Reader W) → Keeps InOrder s (open_debug os files h s)
  unfolding open_debug
  open_debug-Keeps h s =
      Keeps-on_fail {cleanup = cleanup}
        (Keeps-bind (stabstr_open-Keeps os files h s) (λ strings t.
          let t' : Reader W = record t { stabstr = some strings } in
          let k =
            Keeps-on_fail {cleanup = table_close os files (λ s. s.stabstr)}
              (extract_debug_info-Keeps os files h strings t')
              (table_close-Keeps (λ s. s.stabstr)) in
          record { holds = k.holds }))
        cleanup-Keeps

  -- Whatever the file holds and however the reading of the symbols and the lines ends, the
  -- functions in the table of symbols stand in the strict order of their addresses.
  pub open_tables-Ordered :
      (junk : Option String) (suffix : Option (List ℕ)) (s : Reader W)
      → InOrder (final (open_tables os files junk suffix s))
  unfolding open_tables
  open_tables-Ordered junk suffix s =
      let start : Reader W = record s {
        symbols = open_symtab;
        symtab_closed = false;
        strtab = none;
        dynstr = none;
        stabstr = none;
      } in
      let k : Keeps InOrder start (open_tables os files junk suffix s) =
        Keeps-bind
          (if_there-Keeps (slot start s.sections.symtab) (open_full os files junk suffix) start
            (open_full-Keeps junk suffix))
          (λ _ t.
            Keeps-bind
              (if_there-Keeps (slot start s.sections.dsymtab) (open_dynamic os files junk suffix) t
                (open_dynamic-Keeps junk suffix))
              (λ _ u.
                if_there-Keeps (slot start s.sections.stabs) (open_debug os files) u
                  open_debug-Keeps)) in
      k.holds (unfold open_symtab in tt)
