-- ===== src/Log.antt =====
-- src/log/tty/mut_log.c: records of one head, any number of arguments and an end.
pub mod Protocol
mod Steps
pub mod Recorded
pub mod Writing
use mut.Base.{
  ℕ, String, Bool, true, false, not, ◌||◌, [], ◌∷◌, Cmd, ok, pure, get, modify, assert, when, ◌>>=◌,
  ◌>>◌, if◌then◌else◌, none, some, halted,
}
use mut.Machine.{
  Os, Item, fatal, mem_full, error, warning, info, str, int, uint, hex, long, ulong, counter,
  newline, Log, Machine,
}
use mut.Counter.{Uint64, uint64_value, uint64_out}

unfoldable pub open_log : String → Log
open_log program_name = record {
  program_name = program_name;
  fatal_error = false;
  internal_error = false;
  logging = false;
  sink = [];
}

module _ {W : Type 0} where
  unfoldable pub prog_name : String → Cmd (Machine W) (Unit {0})
  prog_name name = modify λ m. record m { log = record m.log { program_name = name } }

-- `log->internal_error = fprintf(...) < 0`
abbrev pub written : {W : Type 0} → Item → Bool × W → Machine W → Machine W
written item (done, w) m = record m {
  world = w;
  log = record m.log {
    internal_error = not done;
    sink = if done then item ∷ m.log.sink else m.log.sink;
  };
}

module _ {W : Type 0} (os : Os W) where
  unfoldable pub emit : Item → Cmd (Machine W) (Unit {0})
  emit item m = ok tt (written item (os.print item m.world) m)

  -- The head of a record: the three preconditions, the flags, the write.
  unfoldable pub start : Bool → (String → Item) → Cmd (Machine W) (Unit {0})
  unfolding emit
  start is_fatal head = do
    assert (not (← get (λ m. m.log.fatal_error)))
    assert (not (← get (λ m. m.log.logging)))
    assert (not (← get (λ m. m.log.internal_error)))
    modify λ m. record m {
      log = record m.log { logging = true; fatal_error = is_fatal || m.log.fatal_error };
    }
    emit (head (← get (λ m. m.log.program_name)))

  unfoldable pub log_fatal : String → ℕ → Cmd (Machine W) (Unit {0})
  unfolding start
  log_fatal text code = start true λ name. fatal name code text

  unfoldable pub log_mem_full : ℕ → Cmd (Machine W) (Unit {0})
  unfolding start
  log_mem_full code = start true λ name. mem_full name code

  unfoldable pub log_error : String → Cmd (Machine W) (Unit {0})
  unfolding start
  log_error text = start false λ name. error name text

  unfoldable pub log_warning : String → Cmd (Machine W) (Unit {0})
  unfolding start
  log_warning text = start false λ name. warning name text

  unfoldable pub log_info : String → Cmd (Machine W) (Unit {0})
  unfolding start
  log_info text = start false λ name. info name text

  -- An argument of a record: nothing more is written once a write has failed.
  unfoldable pub argument : Item → Cmd (Machine W) (Unit {0})
  unfolding emit
  argument item = do
    assert (← get (λ m. m.log.logging))
    when (not (← get (λ m. m.log.internal_error))) (emit item)

  unfoldable pub log_string : String → Cmd (Machine W) (Unit {0})
  unfolding argument
  log_string s = argument (str s)

  unfoldable pub log_int : ℕ → Cmd (Machine W) (Unit {0})
  unfolding argument
  log_int n = argument (int n)

  unfoldable pub log_uint : ℕ → Cmd (Machine W) (Unit {0})
  unfolding argument
  log_uint n = argument (uint n)

  -- The space and the digits are one item. The assertions of mut_uint64_out can end MUT.
  unfoldable pub log_uint64 : Uint64 → Cmd (Machine W) (Unit {0})
  unfolding emit uint64_out
  log_uint64 i = do
    assert (← get (λ m. m.log.logging))
    when (not (← get (λ m. m.log.internal_error)))
        (elim (uint64_out i) [ none ↦ halted | some text ↦ emit (counter (uint64_value i)) ])

  unfoldable pub log_uint_hex : ℕ → Cmd (Machine W) (Unit {0})
  unfolding argument
  log_uint_hex n = argument (hex n)

  unfoldable pub log_ulong : ℕ → Cmd (Machine W) (Unit {0})
  unfolding argument
  log_ulong n = argument (ulong n)

  unfoldable pub log_long : ℕ → Cmd (Machine W) (Unit {0})
  unfolding argument
  log_long n = argument (long n)

  -- `mut_log_exec_addr` is a macro for `mut_log_uint_hex`.
  unfoldable pub log_exec_addr : ℕ → Cmd (Machine W) (Unit {0})
  unfolding log_uint_hex
  log_exec_addr a = log_uint_hex a

  unfoldable pub log_end : Cmd (Machine W) Bool
  unfolding emit
  log_end = do
    assert (← get (λ m. m.log.logging))
    modify λ m. record m { log = record m.log { logging = false } }
    when (not (← get (λ m. m.log.internal_error))) (emit newline)
    get (λ m. not m.log.internal_error)

  -- `(void)mut_log_end(log)`
  unfoldable pub finish : Cmd (Machine W) (Unit {0})
  unfolding log_end
  finish = do _ ← log_end; pure tt

  unfoldable pub log_file : String → Cmd (Machine W) (Unit {0})
  unfolding log_warning log_string finish
  log_file name = do
    m ← get (λ m. m)
    let (opened, w) = os.fopen name m.world
    modify λ m. record m { world = w }
    if opened
        then modify (λ m. record m { log = record m.log { sink = [] } })
        else (do log_warning "io.open"; log_string name; finish)
