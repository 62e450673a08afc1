-- ===== src/CommandLine/Args.antt =====
-- src/ui/tty/mut_ui.c: mut_ui_process_args, with the options as a switch on their letters.
use Prim.Native.Char.{Char, code}
use Prim.Native.String.{[] as end_of_text, ◌∷◌ as ◌⊳◌}
use mut.Base.{
  String, Bool, true, false, Option, none, some, List, [], ◌∷◌, Cmd, within, failed, skip, modify,
  ◌>>◌, if◌then◌else◌, ◌==◌,
}
use mut.Machine.{Os, Machine}
use mut.Log.{log_fatal, log_string, finish}
use mut.Manager.State.{Control}

-- `struct mut_ui_arg_info`, less the pointer to the log; `report` is what `mut_mem_report(stderr)`
-- sets in the allocator.
pub record ArgInfo : Type 0 where
  pub argv : List String
  pub log_file_name : Option String
  pub mut_name : Option String
  pub flags : Control
  pub undesirable_suffix : String
  pub usage_function : Option String
  pub report : Bool

pub record Ui (W : Type 0) : Type 0 where
  pub info : ArgInfo
  pub machine : Machine W

-- The options that take the rest of their argument as a value: -o, -x, -n, -U.
pub data Value : Type 0 where
  log_file suffix name usage_name : Value

pub data Letter : Type 0 where
  report_letter : Letter
  free_letter trace_letter backtrace_letter check_letter : Letter
  stats_letter usage_letter zero_letter : Letter
  value_letter : Value → Letter
  unknown_letter : Letter

-- The cases of the switch.
unfoldable pub letter_of : Char → Letter
letter_of c =
    if code c == b'r'
    then report_letter
    else if code c == b'f'
    then free_letter
    else if code c == b't'
    then trace_letter
    else if code c == b'b'
    then backtrace_letter
    else if code c == b'c'
    then check_letter
    else if code c == b's'
    then stats_letter
    else if code c == b'u'
    then usage_letter
    else if code c == b'o'
    then value_letter log_file
    else if code c == b'x'
    then value_letter suffix
    else if code c == b'n'
    then value_letter name
    else if code c == b'U'
    then value_letter usage_name
    else if code c == b'z'
    then zero_letter
    else unknown_letter

-- `info->flags |= ...`
unfoldable pub set_flag : Letter → Control → Control
set_flag free_letter f = record f { free = true }
set_flag trace_letter f = record f { trace = true }
set_flag backtrace_letter f = record f { backtrace = true }
set_flag check_letter f = record f { check = true }
set_flag stats_letter f = record f { stats = true }
set_flag usage_letter f = record f { usage = true }
set_flag zero_letter f = record f { zero = true }
set_flag _ f = f

unfoldable pub set_value : Value → String → ArgInfo → ArgInfo
set_value log_file v i = record i { log_file_name = some v }
set_value suffix v i = record i { undesirable_suffix = v }
set_value name v i = record i { mut_name = some v }
set_value usage_name v i = record i { usage_function = some v }

-- What a letter without a value does.
unfoldable pub set_letter : Letter → ArgInfo → ArgInfo
unfolding set_flag
set_letter report_letter i = record i { report = true }
set_letter l i = record i { flags = set_flag l i.flags }

-- `argv[0][0] == '-'`
unfoldable pub is_option : String → Bool
is_option end_of_text = false
is_option (c ⊳ cs) = code c == b'-'

-- `arg += 1` at the first character.
unfoldable pub behind : String → String
behind end_of_text = end_of_text
behind (c ⊳ cs) = cs

module _ {W : Type 0} (os : Os W) where
  abbrev pub logged : {A : Type 0} → Cmd (Machine W) A → Cmd (Ui W) A
  logged c s = within (λ s m. record s { machine = m }) s (c s.machine)

  -- `mut_ui_usage`
  unfoldable pub usage : Cmd (Machine W) (Unit {0})
  usage = do log_fatal os "args.usage" 0; log_string os "exec-file-name"; finish os

  unfoldable pub args_opt : Char → String → Cmd (Machine W) (Unit {0})
  args_opt c arg = do
    log_fatal os "args.opt" 0
    log_string os (c ⊳ end_of_text)
    log_string os arg
    finish os

  unfoldable pub args_unknown : String → Cmd (Machine W) (Unit {0})
  args_unknown arg = do log_fatal os "args.unknown" 0; log_string os arg; finish os

  -- One pass of the switch, at the letter `c` with `cs` behind it; `rest` is `goto option_loop`.
  unfoldable pub option_case :
      Letter → Char → String → Bool → String → Cmd (Ui W) (Unit {0}) → Cmd (Ui W) (Unit {0})
  unfolding set_letter set_value args_opt args_unknown
  option_case (value_letter v) c cs first arg rest =
      if first
      then modify (λ s. record s { info = set_value v cs s.info })
      else (do logged (args_opt c arg); failed)
  option_case unknown_letter c cs first arg rest = do logged (args_unknown arg); failed
  option_case l c cs first arg rest = do modify (λ s. record s { info = set_letter l s.info }); rest

  -- `option_loop`: what is left of the argument `arg`, and whether its first letter is still ahead.
  unfoldable pub option_loop : String → Bool → String → Cmd (Ui W) (Unit {0})
  unfolding letter_of option_case
  option_loop end_of_text first arg = skip
  option_loop (c ⊳ cs) first arg =
      let rest = option_loop cs false arg in option_case (letter_of c) c cs first arg rest

  -- `options_loop`, from the argument behind the program's name.
  unfoldable pub options_loop : List String → Cmd (Ui W) (Unit {0})
  unfolding usage option_loop is_option behind
  options_loop [] = do logged usage; failed
  options_loop (arg ∷ args) =
      let rest = options_loop args in
      if is_option arg
      then (do option_loop (behind arg) true arg; rest)
      else modify (λ s. record s { info = record s.info { argv = arg ∷ args } })

-- What `main` sets before it reads the arguments.
unfoldable pub default_info : ArgInfo
default_info = record {
  argv = [];
  log_file_name = none;
  mut_name = none;
  flags = record {
    trace = false;
    backtrace = false;
    free = false;
    stats = false;
    zero = false;
    usage = false;
    check = false;
  };
  undesirable_suffix = "@@GLIBC_2.0";
  usage_function = none;
  report = false;
}
