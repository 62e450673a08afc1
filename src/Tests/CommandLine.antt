-- ===== src/Tests/CommandLine.antt =====
-- src/ui/tty/mut_ui.c at concrete inputs.
use mut.Base.{ℕ, ◌≡◌, refl, true, false, none, some, [], ◌∷◌, ok}
use mut.CommandLine.{
  ArgInfo, Ui, default_info, options_loop, said, options_loop-said, Ends, options_loop-Ends,
  is_option, main, main_options-refused, exit_failure, option_loop, option_case, letter_of,
  set_letter, set_flag, behind,
}
use mut.Counter.{Uint64}
use mut.Manager.State.{Mut}
use mut.Tests.Sample.{toy_os, toy_env, toy_machine, toy_state, all_off}
use mut.Tests.Executable.{toy_files, toy_reader}

abbrev settings : ArgInfo
settings = record {
  argv = "prog" ∷ "-x" ∷ [];
  log_file_name = some "log";
  mut_name = none;
  flags = record all_off { trace = true; zero = true };
  undesirable_suffix = "@@GLIBC_2.0";
  usage_function = some "usage";
  report = false;
}

abbrev before : Ui ℕ
before = record { info = default_info; machine = toy_machine }

options_loop-said_example :
    options_loop toy_os (said settings) before
    ≡ ok tt (record { info = settings; machine = toy_machine })
options_loop-said_example =
    options_loop-said toy_os toy_machine settings "prog" ("-x" ∷ []) refl (unfold is_option in refl)

-- Two flags in one argument.
two_flags :
    options_loop toy_os ("-tz" ∷ "prog" ∷ []) before
    ≡ ok tt (record {
      info = record default_info {
        argv = "prog" ∷ [];
        flags = record all_off { trace = true; zero = true };
      };
      machine = toy_machine;
    })
unfolding options_loop option_loop option_case letter_of set_letter set_flag is_option behind
    default_info
two_flags = refl

options_loop-Ends_example :
    Ends ("-t" ∷ "-to" ∷ []) before (options_loop toy_os ("-t" ∷ "-to" ∷ []) before)
options_loop-Ends_example =
    options_loop-Ends toy_os ("-t" ∷ "-to" ∷ []) before
      (record { no_fatal = refl; closed = refl; written = refl })

main_options-refused_example :
    (t : Mut ℕ Uint64) × (main toy_env toy_files toy_reader none ("mut" ∷ "-t" ∷ []) 3 toy_state
      ≡ ok exit_failure t)
    × (t.machine.log.fatal_error ≡ true)
main_options-refused_example =
    main_options-refused toy_env toy_files toy_reader none "mut" ("-t" ∷ []) 3 toy_state
      (unfold is_option in (refl, tt))
