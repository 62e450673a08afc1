-- ===== src/CommandLine/Printed.antt =====
-- src/ui/tty/mut_ui.c: command lines that say a given `ArgInfo`, and that they are read back.
use Prim.Native.Char.{Char}
use Prim.Native.String.{[] as end_of_text, ◌∷◌ as ◌⊳◌}
use mut.Base.{
  String, Bool, true, false, Option, none, some, List, [], ◌∷◌, ok, ◌≡◌, refl, ◌∙◌, sym,
  if◌then◌else◌, subst,
}
use mut.Machine.{Os, Machine}
use mut.CommandLine.Args.{
  ArgInfo, Ui, letter_of, set_flag, set_value, set_letter, is_option, behind, option_case,
  option_loop, options_loop, default_info,
}

-- An argument of a dash and one letter, where the flag is set.
unfoldable pub flag_arg : Char → Bool → List String → List String
flag_arg c b rest = if b then ("-" ⊳ c ⊳ end_of_text) ∷ rest else rest

-- A dash, a letter and a value.
unfoldable pub value_arg : Char → Option String → List String → List String
value_arg c none rest = rest
value_arg c (some v) rest = ("-" ⊳ c ⊳ v) ∷ rest

-- The arguments that say `i`, from its values on, and the whole.
unfoldable pub said_suffix : ArgInfo → List String
unfolding value_arg
said_suffix i = value_arg "x" (some i.undesirable_suffix) i.argv

unfoldable pub said_values : ArgInfo → List String
unfolding value_arg said_suffix
said_values i =
    value_arg "o" i.log_file_name
      (value_arg "n" i.mut_name (value_arg "U" i.usage_function (said_suffix i)))

unfoldable pub said_check : ArgInfo → List String
unfolding flag_arg said_values
said_check i = flag_arg "c" i.flags.check (
    flag_arg "s" i.flags.stats
      (flag_arg "u" i.flags.usage (flag_arg "z" i.flags.zero (said_values i))))

unfoldable pub said : ArgInfo → List String
unfolding flag_arg said_check
said i = flag_arg "r" i.report (
    flag_arg "f" i.flags.free
      (flag_arg "t" i.flags.trace (flag_arg "b" i.flags.backtrace (said_check i))))

-- What has been read: the report and the first three flags, then the other flags, then the values.
unfoldable with_first : (report free trace backtrace : Bool) → ArgInfo
unfolding default_info
with_first r f t b = record default_info {
  report = r;
  flags = record default_info.flags { free = f; trace = t; backtrace = b };
}

unfoldable with_flags : ArgInfo → (check stats usage zero : Bool) → ArgInfo
unfolding with_first
with_flags i c s u z =
    let first = with_first i.report i.flags.free i.flags.trace i.flags.backtrace in
    record first { flags = record first.flags { check = c; stats = s; usage = u; zero = z } }

unfoldable with_values : ArgInfo → (log_file_name mut_name usage_function : Option String) → ArgInfo
unfolding with_flags
with_values i o n u = record (with_flags i i.flags.check i.flags.stats i.flags.usage i.flags.zero) {
  log_file_name = o;
  mut_name = n;
  usage_function = u;
}

module _ {W : Type 0} (os : Os W) (m : Machine W) where
  abbrev at : ArgInfo → Ui W
  at i = record { info = i; machine = m }

  -- A flag that is said is the flag that is then set.
  flag_arg-options_loop :
      (c : Char) (b : Bool) (rest : List String) (put : Bool → ArgInfo)
      → (options_loop os (("-" ⊳ c ⊳ end_of_text) ∷ rest) (at (put false))
          ≡ options_loop os rest (at (put true)))
      → options_loop os (flag_arg c b rest) (at (put false)) ≡ options_loop os rest (at (put b))
  unfolding flag_arg
  flag_arg-options_loop c true rest put h = h
  flag_arg-options_loop c false rest put h = refl

  value_arg-options_loop :
      (c : Char) (o : Option String) (rest : List String) (put : Option String → ArgInfo)
      → ((v : String)
          → options_loop os (("-" ⊳ c ⊳ v) ∷ rest) (at (put none))
            ≡ options_loop os rest (at (put (some v))))
      → options_loop os (value_arg c o rest) (at (put none)) ≡ options_loop os rest (at (put o))
  unfolding value_arg
  value_arg-options_loop c none rest put h = refl
  value_arg-options_loop c (some v) rest put h = h v

  first_read :
      (i : ArgInfo)
      → options_loop os (said i) (at default_info)
        ≡ options_loop os
            (said_check i)
            (at (with_first i.report i.flags.free i.flags.trace i.flags.backtrace))
  unfolding said with_first default_info options_loop option_loop option_case letter_of set_letter
      set_flag is_option behind
  first_read i =
      let f = i.flags in
      let b_arg = flag_arg "b" f.backtrace (said_check i) in
      let t_arg = flag_arg "t" f.trace b_arg in
      let f_arg = flag_arg "f" f.free t_arg in
      flag_arg-options_loop "r" i.report f_arg (λ x. with_first x false false false) refl
      ∙ flag_arg-options_loop "f" f.free t_arg (λ x. with_first i.report x false false) refl
      ∙ flag_arg-options_loop "t" f.trace b_arg (λ x. with_first i.report f.free x false) refl
      ∙ flag_arg-options_loop "b" f.backtrace (said_check i)
          (λ x. with_first i.report f.free f.trace x) refl

  flags_read :
      (i : ArgInfo)
      → options_loop os (said_check i) (at (with_flags i false false false false))
        ≡ options_loop os
            (said_values i)
            (at (with_flags i i.flags.check i.flags.stats i.flags.usage i.flags.zero))
  unfolding said_check with_flags with_first default_info options_loop option_loop option_case
      letter_of set_letter set_flag is_option behind
  flags_read i =
      let f = i.flags in
      let z_arg = flag_arg "z" f.zero (said_values i) in
      let u_arg = flag_arg "u" f.usage z_arg in
      let s_arg = flag_arg "s" f.stats u_arg in
      flag_arg-options_loop "c" f.check s_arg (λ x. with_flags i x false false false) refl
      ∙ flag_arg-options_loop "s" f.stats u_arg (λ x. with_flags i f.check x false false) refl
      ∙ flag_arg-options_loop "u" f.usage z_arg (λ x. with_flags i f.check f.stats x false) refl
      ∙ flag_arg-options_loop "z" f.zero (said_values i)
          (λ x. with_flags i f.check f.stats f.usage x) refl

  values_read :
      (i : ArgInfo)
      → options_loop os (said_values i) (at (with_values i none none none))
        ≡ options_loop os
            (said_suffix i)
            (at (with_values i i.log_file_name i.mut_name i.usage_function))
  unfolding said_values with_values with_flags with_first default_info options_loop option_loop
      option_case letter_of set_value is_option behind
  values_read i =
      let u_arg = value_arg "U" i.usage_function (said_suffix i) in
      let n_arg = value_arg "n" i.mut_name u_arg in
      value_arg-options_loop "o" i.log_file_name n_arg (λ x. with_values i x none none) (λ v. refl)
      ∙ value_arg-options_loop "n" i.mut_name u_arg (λ x. with_values i i.log_file_name x none)
          (λ v. refl)
      ∙ value_arg-options_loop "U" i.usage_function (said_suffix i)
          (λ x. with_values i i.log_file_name i.mut_name x) (λ v. refl)

  suffix_read :
      (i : ArgInfo)
      → options_loop os
          (said_suffix i)
          (at (with_values i i.log_file_name i.mut_name i.usage_function))
        ≡ options_loop os i.argv (at (record i { argv = [] }))
  unfolding said_suffix value_arg with_values with_flags with_first default_info options_loop
      option_loop option_case letter_of set_value is_option behind
  suffix_read i = refl

  stop_at :
      (i : ArgInfo) (prog : String) (args : List String)
      → is_option prog ≡ false
      → options_loop os (prog ∷ args) (at i) ≡ ok tt (at (record i { argv = prog ∷ args }))
  unfolding options_loop
  stop_at i prog args h = rw h

  -- The command line that says given settings, one argument for each flag that is set and for each
  -- value, in front of a program's name that does not begin with a dash, is read back as these
  -- settings: the flags, the values, and the program with its arguments; nothing is logged.
  pub options_loop-said :
      (i : ArgInfo) (prog : String) (args : List String)
      → i.argv ≡ prog ∷ args
      → is_option prog ≡ false
      → options_loop os (said i) (at default_info) ≡ ok tt (at i)
  unfolding with_first with_flags with_values
  options_loop-said i prog args whole h =
      first_read i
      ∙ flags_read i
      ∙ values_read i
      ∙ suffix_read i
      ∙ subst
          (λ argv.
            options_loop os argv (at (record i { argv = [] }))
            ≡ ok tt (at (record i { argv = argv })))
          (sym whole) (stop_at (record i { argv = [] }) prog args h)
