-- ===== src/CommandLine/Refusal.antt =====
-- src/ui/tty/mut_ui.c: command lines that name no program.
use mut.Base.{
  Cmd, ◌>>◌, ℕ, String, true, Option, List, [], ◌∷◌, ◌++◌, All, ◌≡◌, refl, sym, ap, subst, inl, inr,
  Outcome, ok, and_then,
}
use mut.Log.{open_log}
use mut.Exec.Elf.Types.{Reader, Files}
use mut.Manager.State.{Mut, Env}
use mut.CommandLine.Args.{Ui, is_option, default_info}
use mut.CommandLine.Endings.{options_loop-Ends}
use mut.CommandLine.Main.{carry, process_args, set_up_log, watch, status, work, main, exit_failure}

All-split :
    (before : List String) (prog : String) (rest : List String)
    → All (λ a. is_option a ≡ true) (before ++ (prog ∷ rest))
    → is_option prog ≡ true
All-split [] prog rest h = h.0
All-split (a ∷ before) prog rest h = All-split before prog rest h.1

module _ {W C : Type 0} (env : Env W C) (files : Files W) (garbage : Reader W)
    (junk : Option String) where
  -- When all arguments behind the name of MUT begin with a dash, main returns EXIT_FAILURE after a
  -- fatal record, in whatever state and for however many rounds.
  pub main_options-refused :
      (name : String) (args : List String) (rounds : ℕ) (s : Mut W C)
      → All (λ a. is_option a ≡ true) args
      → (t : Mut W C) × (main env files garbage junk (name ∷ args) rounds s ≡ ok exit_failure t)
        × (t.machine.log.fatal_error ≡ true)
  unfolding main work process_args open_log
  main_options-refused name args rounds s options =
      let start = record s.machine { log = open_log name } in
      let ui : Ui W = record { info = default_info; machine = start } in
      let put : Outcome (Ui W) (Unit {0}) → Outcome (Mut W C) (Ui W) =
        carry (λ s u. record s { machine = u.machine }) (record s { machine = start }) in
      let then_work : Ui W → Cmd (Mut W C) (Unit {0}) = λ u.
        set_up_log env files garbage junk u.info >> watch env files garbage junk u.info rounds in
      elim (options_loop-Ends env.os args ui
        (record { no_fatal = refl; closed = refl; written = refl })) [
          | inl (t, ends, a) ↦
              let plain =
                All-split a.before a.prog a.rest
                  (subst (All (λ a. is_option a ≡ true)) (sym a.split) options) in
              absurd (cc (plain, a.plain))
          | inr (t, ends, fatal) ↦ (
            record s { machine = t.machine },
            ap (λ o. status (and_then (put o) then_work)) ends,
            fatal,
          )
        ]
