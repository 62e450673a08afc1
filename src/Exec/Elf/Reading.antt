-- ===== src/Exec/Elf/Reading.antt =====
-- src/exec/elf/mut_exec.c: the steps that its functions share.
use mut.Base.{
  ℕ, String, Bool, Option, none, some, Cmd, ok, within, pure, failed, skip, get, ◌>>=◌, ◌>>◌,
  if◌then◌else◌,
}
use mut.Machine.{Os, Machine}
use mut.Log.{log_fatal, log_mem_full, log_string, finish}
use mut.Exec.Elf.Types.{Reader, Files}

abbrev pub at_machine : {W A : Type 0} → Cmd (Machine W) A → Cmd (Reader W) A
at_machine c s = within (λ s m. record s { machine = m }) s (c s.machine)

-- A call of the C library.
abbrev pub sys : {W A : Type 0} → (W → A × W) → Cmd (Reader W) A
sys f s =
    let (a, w) = f s.machine.world in ok a (record s { machine = record s.machine { world = w } })

module _ {W : Type 0} (os : Os W) (files : Files W) where
  -- `errno`
  unfoldable pub errno_now : Cmd (Reader W) ℕ
  errno_now = get (λ s. os.errno s.machine.world)

  unfoldable pub give_back : Cmd (Reader W) (Unit {0})
  give_back = sys (λ w. (tt, files.mem_free w))

  -- A record about the file, `more` being its further arguments.
  unfoldable pub complain_more : String → ℕ → Cmd (Machine W) (Unit {0}) → Cmd (Reader W) (Unit {0})
  complain_more what code more s =
      at_machine (do log_fatal os what code; log_string os s.file_name; more; finish os) s

  unfoldable pub complain : String → ℕ → Cmd (Reader W) (Unit {0})
  complain what code s =
      at_machine (do log_fatal os what code; log_string os s.file_name; finish os) s

  unfoldable pub refuse : {A : Type 0} → String → ℕ → Cmd (Reader W) A
  unfolding complain
  refuse what code = do complain what code; failed

  -- `if (fseek(...) < 0)`, with what is then logged.
  unfoldable pub seek_or : ℕ → Cmd (Reader W) (Unit {0}) → Cmd (Reader W) (Unit {0})
  seek_or offset on_error = do
    done ← sys (files.seek offset)
    if done then skip else (do on_error; failed)

  -- `if (fread(...) != 1)`
  unfoldable pub read_or :
      {A : Type 0} → (W → Option A × W) → Cmd (Reader W) (Unit {0}) → Cmd (Reader W) A
  read_or {A} f on_error = do
    item ← sys f
    elim item as (λ _. Cmd (Reader W) A) [ none ↦ (do on_error; failed) | some a ↦ pure a ]

  -- `mut_log_mem_full`, which opens a record that nobody ends.
  unfoldable pub mem_full_failure : {A : Type 0} → Cmd (Reader W) A
  unfolding errno_now
  mem_full_failure = do at_machine (log_mem_full os (← errno_now)); failed

  -- The memory for a table: `mut_mem_malloc`.
  unfoldable pub granted : Cmd (Reader W) Bool
  granted = sys os.malloc
