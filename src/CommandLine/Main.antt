-- ===== src/CommandLine/Main.antt =====
-- src/ui/tty/mut_ui.c: main, and mut_open of src/mut.c with the reading of the executable. The
-- allocator's own mut_mem_init and mut_mem_close are in Memory; mut_log_close only closes a file.
use Prim.Native.Char.{code}
use Prim.Native.String.{[] as end_of_text, ◌∷◌ as ◌⊳◌}
use mut.Base.{
  ℕ, String, Option, none, some, List, [], ◌∷◌, Cmd, Outcome, ok, fail, halt, spent, skip, ◌>>=◌,
  ◌>>◌, ◌on_fail◌,
}
use mut.Log.{open_log, prog_name, log_file}
use mut.Exec.Elf.Types.{Reader, Files}
use mut.Exec.Elf.Open.{exec_open, exec_close}
use mut.Manager.State.{Mut, Env, lift}
use mut.Manager.Run.{open_mut, run, close_mut, close_on_error}
use mut.CommandLine.Args.{ArgInfo, Ui, options_loop, default_info}

-- What a part that has its own state leaves for the manager's.
abbrev pub carry : {S T A : Type 0} → (S → T → S) → S → Outcome T A → Outcome S T
carry put s (ok a t) = ok t (put s t)
carry put s (fail t) = fail (put s t)
carry put s (halt t) = halt (put s t)
carry put s (spent t) = spent (put s t)

abbrev pub do_unit : {S A : Type 0} → Outcome S A → Outcome S (Unit {0})
do_unit (ok a s) = ok tt s
do_unit (fail s) = fail s
do_unit (halt s) = halt s
do_unit (spent s) = spent s

unfoldable pub text_bytes : String → List ℕ
text_bytes end_of_text = []
text_bytes (c ⊳ cs) = code c ∷ text_bytes cs

-- `argv[0]`
abbrev pub head_or_empty : List String → String
head_or_empty [] = end_of_text
head_or_empty (a ∷ _) = a

abbrev pub exit_success : ℕ
exit_success = 0

abbrev pub exit_failure : ℕ
exit_failure = 1

-- The exit status: the result 0 of any part is a failure.
abbrev pub status : {S A : Type 0} → Outcome S A → Outcome S ℕ
status (ok _ s) = ok exit_success s
status (fail s) = ok exit_failure s
status (halt s) = halt s
status (spent s) = spent s

-- `garbage` is what the memory of `reader` and `m->exec` holds before, `junk` that of a new node of
-- the symbol table.
module _ {W C : Type 0} (env : Env W C) (files : Files W) (garbage : Reader W)
    (junk : Option String) where
  -- `mut_ui_process_args`
  unfoldable pub process_args : List String → Cmd (Mut W C) (Ui W)
  unfolding options_loop default_info
  process_args args s =
      carry (λ s u. record s { machine = u.machine }) s
        (options_loop env.os args (record { info = default_info; machine = s.machine }))

  -- `mut_exec_open`, for the manager.
  unfoldable pub read_exec : String → List ℕ → Cmd (Mut W C) (Reader W)
  unfolding exec_open
  read_exec path suffix s =
      carry (λ s r. record s { machine = r.machine }) s
        (exec_open env.os files junk (some suffix)
          (record garbage { machine = s.machine; file_name = path }))

  -- `mut_exec_close`
  unfoldable pub drop_exec : Reader W → Cmd (Mut W C) (Unit {0})
  unfolding exec_close
  drop_exec r s = do_unit (
      carry (λ s r. record s { machine = r.machine }) s
        (exec_close env.os files (record r { machine = s.machine })))

  -- `mut_open`
  unfoldable pub open_manager : ArgInfo → Cmd (Mut W C) (Unit {0})
  unfolding read_exec drop_exec open_mut text_bytes
  open_manager info = do
    r ← read_exec (head_or_empty info.argv) (text_bytes info.undesirable_suffix)
    open_mut env (record { symtab = r.symbols; has_full_symbols = r.has_full_symbols })
          (head_or_empty info.argv) info.flags info.usage_function
        on_fail drop_exec r

  -- `if (info.... != (char *)0)`
  unfoldable pub set_up_log : ArgInfo → Cmd (Mut W C) (Unit {0})
  unfolding log_file prog_name
  set_up_log info = do
    elim info.log_file_name [ none ↦ skip | some file ↦ lift (log_file env.os file) ]
    elim info.mut_name [ none ↦ skip | some name ↦ lift (prog_name name) ]

  -- From `mut_open` on, with the cleanup behind `could_not_run`.
  unfoldable pub watch : ArgInfo → ℕ → Cmd (Mut W C) (Unit {0})
  unfolding open_manager run close_mut close_on_error
  watch info rounds = do open_manager info; run env rounds on_fail close_on_error env; close_mut env

  -- What `main` does behind `mut_log_open`, with the arguments behind the program's name.
  unfoldable pub work : List String → ℕ → Cmd (Mut W C) (Unit {0})
  unfolding process_args set_up_log watch
  work args rounds = do u ← process_args args; set_up_log u.info; watch u.info rounds

  -- `main`, for at most so many rounds of `mut_run`; without even a name there is nothing to read.
  unfoldable pub main : List String → ℕ → Cmd (Mut W C) ℕ
  unfolding open_log work
  main [] rounds s = halt s
  main (name ∷ args) rounds s =
      let logging = record s.machine { log = open_log name } in
      status (work args rounds (record s { machine = logging }))
