-- ===== src/Exec/Elf/Ordered.antt =====
-- src/exec/elf/mut_exec.c: the table of symbols is in the order of the addresses, however a reading
-- ends.
use mut.Base.{
  ℕ, String, Bool, Option, Outcome, Cmd, ok, fail, halt, spent, within, Keeps, keeping, Keeps-if,
  Keeps-option, pure, skip, failed, ◌>>◌,
}
use mut.Machine.{Os, Machine}
use mut.Exec.Order.{Ordered}
use mut.Exec.Elf.Types.{Shdr, Reader, Files}
use mut.Exec.Elf.Reading.{
  errno_now, give_back, complain, complain_more, refuse, seek_or, read_or, mem_full_failure,
  granted,
}
use mut.Exec.Elf.Symbols.{strtab_error, read_strings, load_strings, strtab_open}

abbrev pub InOrder : {W : Type 0} → Reader W → Type 0
InOrder r = Ordered r.symbols.head

module _ {W : Type 0} where
  pub at_machine-Keeps :
      {A : Type 0} (o : Outcome (Machine W) A) (s : Reader W)
      → Keeps InOrder s (within (λ s m. record s { machine = m }) s o)
  at_machine-Keeps (ok a m) s = record { holds = λ p. p }
  at_machine-Keeps (fail m) s = record { holds = λ p. p }
  at_machine-Keeps (halt m) s = record { holds = λ p. p }
  at_machine-Keeps (spent m) s = record { holds = λ p. p }

module _ {W : Type 0} (os : Os W) (files : Files W) where
  pub give_back-Keeps : (s : Reader W) → Keeps InOrder s (give_back os files s)
  unfolding give_back
  give_back-Keeps s = record { holds = λ p. p }

  pub complain-Keeps :
      (what : String) (code : ℕ) (s : Reader W) → Keeps InOrder s (complain os files what code s)
  unfolding complain
  complain-Keeps what code s = at_machine-Keeps _ s

  pub complain_more-Keeps :
      (what : String) (code : ℕ) (more : Cmd (Machine W) (Unit {0})) (s : Reader W)
      → Keeps InOrder s (complain_more os files what code more s)
  unfolding complain_more
  complain_more-Keeps what code more s = at_machine-Keeps _ s

  pub refuse-Keeps :
      {A : Type 0} (what : String) (code : ℕ) (s : Reader W)
      → Keeps {A = A} InOrder s (refuse os files what code s)
  unfolding refuse
  refuse-Keeps what code s = search (keeping, complain-Keeps)

  pub granted-Keeps : (s : Reader W) → Keeps InOrder s (granted os files s)
  unfolding granted
  granted-Keeps s = record { holds = λ p. p }

  pub mem_full_failure-Keeps :
      {A : Type 0} (s : Reader W) → Keeps {A = A} InOrder s (mem_full_failure os files s)
  unfolding mem_full_failure errno_now
  mem_full_failure-Keeps s = search (keeping, at_machine-Keeps)

  pub seek_or-Keeps :
      (offset : ℕ) (on_error : Cmd (Reader W) (Unit {0})) (s : Reader W)
      → ((t : Reader W) → Keeps InOrder t (on_error t))
      → Keeps InOrder s (seek_or os files offset on_error s)
  unfolding seek_or
  seek_or-Keeps offset on_error s h =
      let (done, w) = files.seek offset s.machine.world in
      let t : Reader W = record s { machine = record s.machine { world = w } } in
      Keeps-if done skip (on_error >> failed) {s = s} {t = t} (λ _. record { holds = λ p. p })
        (λ _.
          let k : Keeps {A = Unit {0}} InOrder t ((on_error >> failed) t) = search (keeping, h) in
          record { holds = k.holds })

  pub read_or-Keeps :
      {A : Type 0} (f : W → Option A × W) (on_error : Cmd (Reader W) (Unit {0})) (s : Reader W)
      → ((t : Reader W) → Keeps InOrder t (on_error t))
      → Keeps InOrder s (read_or os files f on_error s)
  unfolding read_or
  read_or-Keeps {A} f on_error s h =
      let (item, w) = f s.machine.world in
      let t : Reader W = record s { machine = record s.machine { world = w } } in
      Keeps-option item (on_error >> failed) pure {s = s} {t = t}
        (λ _.
          let k : Keeps {A = A} InOrder t ((on_error >> failed) t) = search (keeping, h) in
          record { holds = k.holds })
        (λ a _. record { holds = λ p. p })

  pub strtab_error-Keeps :
      (what : String) (coded : Bool) (s : Reader W)
      → Keeps InOrder s (strtab_error os files what coded s)
  unfolding strtab_error errno_now
  strtab_error-Keeps what coded s = complain_more-Keeps what _ _ s

  pub ruleset reading = (
    give_back-Keeps, complain-Keeps, complain_more-Keeps, refuse-Keeps, granted-Keeps,
    mem_full_failure-Keeps, seek_or-Keeps, read_or-Keeps, strtab_error-Keeps,
  )

  read_strings-Keeps : (h : Shdr) (s : Reader W) → Keeps InOrder s (read_strings os files h s)
  unfolding read_strings
  read_strings-Keeps h s = search (keeping, reading) depth 14

  load_strings-Keeps : (h : Shdr) (s : Reader W) → Keeps InOrder s (load_strings os files h s)
  unfolding load_strings errno_now
  load_strings-Keeps h s = search (keeping, reading, read_strings-Keeps, at_machine-Keeps) depth 14

  pub strtab_open-Keeps : (h : Shdr) (s : Reader W) → Keeps InOrder s (strtab_open os files h s)
  unfolding strtab_open
  strtab_open-Keeps h s = search (keeping, reading, load_strings-Keeps) depth 14
