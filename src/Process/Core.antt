-- ===== src/Process/Core.antt =====
-- src/proc/ptrace/mut_process.c: starting, waiting, breakpoints.
use mut.Base.{
  ℕ, String, zero, suc, ◌%◌, Bool, true, false, not, Option, none, some, Cmd, ok, spent, pure,
  failed, get, modify, assert, and_then, ◌>>=◌, ◌>>◌, if◌then◌else◌, ◌==◌, sub32,
}
use mut.Machine.{Os, Machine, WaitStatus, Status}
use mut.Log.{log_fatal, log_info, log_int, log_string, log_uint, log_uint_hex, finish}
use mut.Trace.{
  errno, trace_read_text, trace_write_text, trace_read_data, trace_write_data, trace_continue,
  trace_kill,
}
use mut.Process.X86.{assert_stopped, read_pc, write_pc}

-- `mut_instr_bp` and SIGTRAP
abbrev pub instr_bp : ℕ
instr_bp = 0xcc

abbrev pub sigtrap : ℕ
sigtrap = 5

-- `mut_pc_adjust`: the trap leaves the program counter behind the breakpoint.
abbrev pub pc_adjust : ℕ → ℕ
pc_adjust pc = sub32 pc 1

abbrev pub is_running : Status → Bool
is_running Status.running = true
is_running _ = false

abbrev is_exited : Status → Bool
is_exited Status.exited = true
is_exited _ = false

module _ {W : Type 0} where
  abbrev pub set_status : Status → Cmd (Machine W) (Unit {0})
  set_status s = modify λ m. record m { process = record m.process { status = s } }

  abbrev pub set_pc : ℕ → Cmd (Machine W) (Unit {0})
  set_pc pc = modify λ m. record m { process = record m.process { pc = pc } }

module _ {W : Type 0} (os : Os W) where
  unfoldable pub waitpid : Cmd (Machine W) WaitStatus
  waitpid m = let (s, w) = os.waitpid m.world in ok s (record m { world = w })

  abbrev pub log_code : ℕ → Cmd (Machine W) (Unit {0})
  log_code n = do log_int os n; finish os

  -- What `mut_process_wait` does with one status: `none` sends it back to waitpid, `some none` is
  -- its result -1, `some (some pc)` its result 1.
  unfoldable pub wait_status : WaitStatus → Cmd (Machine W) (Option (Option ℕ))
  wait_status (WaitStatus.error n) = do log_fatal os "waitpid" (← errno os); log_code n; failed
  wait_status (WaitStatus.exited n) = do
    log_info os "process.exited"
    log_code n
    set_status Status.exited
    pure (some none)
  wait_status (WaitStatus.signaled n) = do
    log_info os "process.signaled"
    log_code n
    set_status Status.exited
    pure (some none)
  wait_status (WaitStatus.stopped n) =
      if n == sigtrap
      then (do
        set_status Status.stopped
        pc ← read_pc os
        set_pc (pc_adjust pc)
        pure (some (some (pc_adjust pc))))
      else (do trace_continue os n; pure none)
  wait_status (WaitStatus.other n) = do
    log_info os "process.unknown"
    log_uint_hex os n
    finish os
    trace_continue os 0
    pure none

  unfoldable pub wait_loop : ℕ → Cmd (Machine W) (Option ℕ)
  wait_loop zero m = spent m
  wait_loop (suc fuel) m = and_then (waitpid m) λ s t.
      and_then (wait_status s t)
        λ r u. elim r [ none ↦ wait_loop fuel u | some result ↦ ok result u ]

  -- `mut_process_wait`: `none` for -1, the process being gone, and `some pc` for 1.
  unfoldable pub wait : ℕ → Cmd (Machine W) (Option ℕ)
  wait fuel = do assert (is_running (← get (λ m. m.process.status))); wait_loop fuel

  -- `mut_process_open` from the parent's side; `path` is argv[0].
  unfoldable pub process_open_status : WaitStatus → Cmd (Machine W) (Unit {0})
  process_open_status (WaitStatus.error n) = do
    log_fatal os "waitpid" (← errno os)
    log_uint os (← get (λ m. m.process.child))
    log_uint_hex os n
    finish os
    failed
  process_open_status (WaitStatus.exited n) = do
    set_status Status.exited
    log_fatal os "process.exit" 0
    finish os
    failed
  process_open_status (WaitStatus.signaled n) = do
    log_fatal os "process.signal" 0
    finish os
    failed
  process_open_status (WaitStatus.stopped n) = do
    set_status Status.stopped
    pc ← read_pc os
    set_pc pc
  process_open_status (WaitStatus.other n) = do log_fatal os "process.unkown" 0; finish os; failed

  unfoldable pub process_open_as : String → Option ℕ → Cmd (Machine W) (Unit {0})
  process_open_as path none = do
    log_fatal os "fork" (← errno os)
    log_string os path
    finish os
    failed
  process_open_as path (some pid) = do
    modify λ m. record m {
      process = record { child = pid; status = Status.running; pc = m.process.pc };
    }
    process_open_status (← waitpid)

  unfoldable pub process_open : String → Cmd (Machine W) (Unit {0})
  process_open path m =
      let (pid, w) = os.fork m.world in process_open_as path pid (record m { world = w })

  unfoldable pub breakpoint : ℕ → Cmd (Machine W) ℕ
  breakpoint pc = do
    assert_stopped os
    instr ← trace_read_text os pc
    trace_write_text os pc instr_bp
    pure instr

  unfoldable pub restore : ℕ → ℕ → Cmd (Machine W) (Unit {0})
  restore pc instr = do assert_stopped os; trace_write_text os pc instr

  unfoldable pub resume : Cmd (Machine W) (Unit {0})
  resume = do
    assert_stopped os
    write_pc os (← get (λ m. m.process.pc))
    trace_continue os 0
    set_status Status.running

  unfoldable pub read_word : ℕ → Cmd (Machine W) ℕ
  read_word addr = do assert_stopped os; assert (addr % 4 == 0); trace_read_data os addr

  unfoldable pub write_word : ℕ → ℕ → Cmd (Machine W) (Unit {0})
  write_word addr n = do assert_stopped os; assert (addr % 4 == 0); trace_write_data os addr n

  unfoldable pub process_close : Cmd (Machine W) (Unit {0})
  process_close = do
    s ← get (λ m. m.process.status)
    assert (not (is_running s))
    if is_exited s then pure tt else trace_kill os
