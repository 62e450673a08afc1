-- ===== src/CommandLine/Endings.antt =====
-- src/ui/tty/mut_ui.c: how mut_ui_process_args ends.
use Prim.Native.Char.{Char}
use Prim.Native.String.{[] as end_of_text, ◌∷◌ as ◌⊳◌}
use mut.Base.{
  String, Bool, true, false, List, [], ◌∷◌, ◌++◌, ◌≡◌, refl, ap, ◌⊎◌, inl, inr, Outcome, ok, fail,
  and_then, All, within, failed, of_test, ◌∙◌, Cmd,
}
use mut.Machine.{Os, Machine}
use mut.CommandLine.Args.{
  ArgInfo, Ui, Letter, value_letter, unknown_letter, report_letter, free_letter, trace_letter,
  backtrace_letter, check_letter, stats_letter, usage_letter, zero_letter, letter_of, usage,
  args_opt, args_unknown, is_option, behind, option_case, option_loop, options_loop,
}
use mut.CommandLine.Fatal.{AtRest, log_fatal_lem, log_string_lem, finish_lem}

-- The arguments were read up to `prog`, the first that is no option, and nothing was logged.
pub record Accepted {W : Type 0} (args : List String) (s t : Ui W) : Type 0 where
  pub before : List String
  pub prog : String
  pub rest : List String
  pub split : before ++ (prog ∷ rest) ≡ args
  pub argv_is : t.info.argv ≡ prog ∷ rest
  pub plain : is_option prog ≡ false
  pub all_options : All (λ a. is_option a ≡ true) before
  pub quiet : t.machine ≡ s.machine

abbrev pub Ends : {W : Type 0} → List String → Ui W → Outcome (Ui W) (Unit {0}) → Type 0
Ends {W} args s o =
    ((t : Ui W) × (o ≡ ok tt t) × Accepted args s t)
    ⊎ ((t : Ui W) × (o ≡ fail t) × (t.machine.log.fatal_error ≡ true))

module _ {W : Type 0} (P : Outcome (Ui W) (Unit {0}) → Type 0) where
  abbrev Fails : Type 0
  Fails =
      (i : ArgInfo) (m : Machine W)
      → m.log.fatal_error ≡ true
      → P (fail (record { info = i; machine = m }))

module _ {W : Type 0} (os : Os W) (P : Outcome (Ui W) (Unit {0}) → Type 0) (s : Ui W) where
  abbrev OnLog : Outcome (Machine W) (Unit {0}) → Type 0
  OnLog o = P (and_then (within (λ s m. record s { machine = m }) s o) (λ _. failed))

  args_opt_lem :
      (c : Char) (arg : String) → AtRest s.machine → Fails P → OnLog (args_opt os c arg s.machine)
  unfolding args_opt
  args_opt_lem c arg rest stop = log_fatal_lem os OnLog "args.opt" 0 _ s.machine rest (λ m b.
      log_string_lem os OnLog (c ⊳ end_of_text) _ m b
        (λ m b. log_string_lem os OnLog arg _ m b (λ m b. finish_lem os OnLog m b (stop s.info))))

  args_unknown_lem :
      (arg : String) → AtRest s.machine → Fails P → OnLog (args_unknown os arg s.machine)
  unfolding args_unknown
  args_unknown_lem arg rest stop =
      log_fatal_lem os OnLog "args.unknown" 0 _ s.machine rest
        (λ m b. log_string_lem os OnLog arg _ m b (λ m b. finish_lem os OnLog m b (stop s.info)))

  usage_lem : AtRest s.machine → Fails P → OnLog (usage os s.machine)
  unfolding usage
  usage_lem rest stop = log_fatal_lem os OnLog "args.usage" 0 _ s.machine rest (λ m b.
      log_string_lem os OnLog "exec-file-name" _ m b (λ m b. finish_lem os OnLog m b (stop s.info)))

module _ {W : Type 0} (os : Os W) (P : Outcome (Ui W) (Unit {0}) → Type 0) where
  -- A letter either stops with a fatal record, or changes the settings alone.
  option_case_lem :
      (l : Letter) (c : Char) (cs : String) (first : Bool) (arg : String)
      (rest : Cmd (Ui W) (Unit {0})) (s : Ui W)
      → AtRest s.machine
      → ((i : ArgInfo) → P (rest (record s { info = i })))
      → ((i : ArgInfo) → P (ok tt (record s { info = i })))
      → Fails P
      → P (option_case os l c cs first arg rest s)
  unfolding option_case
  option_case_lem (value_letter v) c cs true arg rest s r go done stop = done _
  option_case_lem (value_letter v) c cs false arg rest s r go done stop =
      args_opt_lem os P s c arg r stop
  option_case_lem unknown_letter c cs first arg rest s r go done stop =
      args_unknown_lem os P s arg r stop
  option_case_lem report_letter c cs first arg rest s r go done stop = go _
  option_case_lem free_letter c cs first arg rest s r go done stop = go _
  option_case_lem trace_letter c cs first arg rest s r go done stop = go _
  option_case_lem backtrace_letter c cs first arg rest s r go done stop = go _
  option_case_lem check_letter c cs first arg rest s r go done stop = go _
  option_case_lem stats_letter c cs first arg rest s r go done stop = go _
  option_case_lem usage_letter c cs first arg rest s r go done stop = go _
  option_case_lem zero_letter c cs first arg rest s r go done stop = go _

  option_loop_lem :
      (cs : String) (first : Bool) (arg : String) (s : Ui W)
      → AtRest s.machine
      → ((i : ArgInfo) → P (ok tt (record s { info = i })))
      → Fails P
      → P (option_loop os cs first arg s)
  unfolding option_loop
  option_loop_lem end_of_text first arg s r done stop = done s.info
  option_loop_lem (c ⊳ cs) first arg s r done stop =
      option_case_lem (letter_of c) c cs first arg (option_loop os cs false arg) s r
        (λ i. option_loop_lem cs false arg (record s { info = i }) r done stop) done stop

further_option :
    {W : Type 0} (args : List String) (arg : String) (s' s : Ui W) (o : Outcome (Ui W) (Unit {0}))
    → is_option arg ≡ true
    → s'.machine ≡ s.machine
    → Ends args s' o
    → Ends (arg ∷ args) s o
further_option args arg s' s o h e (inl (t, ends, a)) = inl (
  t,
  ends,
  record {
    before = arg ∷ a.before;
    prog = a.prog;
    rest = a.rest;
    split = ap (◌∷◌ arg) a.split;
    argv_is = a.argv_is;
    plain = a.plain;
    all_options = (h, a.all_options);
    quiet = a.quiet ∙ e;
  },
)
further_option args arg s' s o h e (inr stopped) = inr stopped

module _ {W : Type 0} (os : Os W) where
  -- With a log at rest, the reading of any command line ends in one of two ways: it succeeds, the
  -- program and its arguments start at the first argument that does not begin with a dash, and
  -- nothing has been logged; or it fails and a fatal record has been begun.
  pub options_loop-Ends :
      (args : List String) (s : Ui W) → AtRest s.machine → Ends args s (options_loop os args s)
  unfolding options_loop
  options_loop-Ends [] s r = usage_lem os (Ends [] s) s r (λ i m h. inr (_, refl, h))
  options_loop-Ends (arg ∷ args) s r =
      let P : Cmd (Ui W) (Unit {0}) → Type 0 = λ m. Ends (arg ∷ args) s (m s) in
      let Q : Outcome (Ui W) (Unit {0}) → Type 0 =
        λ o. Ends (arg ∷ args) s (and_then o (λ _. options_loop os args)) in
      of_test P (is_option arg) _ _
        (λ h.
          option_loop_lem os Q (behind arg) true arg s r
            (λ i.
              further_option args arg (record s { info = i }) s _ h refl
                (options_loop-Ends args (record s { info = i }) r))
            (λ i m e. inr (_, refl, e)))
        (λ h. inl (
          _,
          refl,
          record {
            before = [];
            prog = arg;
            rest = args;
            split = refl;
            argv_is = refl;
            plain = h;
            all_options = tt;
            quiet = refl;
          },
        ))
