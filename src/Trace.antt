-- ===== src/Trace.antt =====
-- src/proc/ptrace/mut_trace.c and src/proc/ptrace/arch/x86/os/linux/mut_trace_arch.c: ptrace(2)
-- made safe. A result of -1 is an error only if `errno` is set, since -1 may be what was read.
use mut.Base.{
  ℕ, ◌*◌, ◌^◌, ◌-◌, Bool, not, ◌&&◌, Cmd, ok, pure, failed, get, ◌>>=◌, ◌>>◌, if◌then◌else◌, leb,
  ◌==◌,
}
use mut.Machine.{
  Os, Request, trace_me, read_text, read_data, write_text, write_data, continue, kill, peek_user,
  poke_user, Machine,
}
use mut.Log.{log_fatal, log_info, log_uint, log_exec_addr, finish}

module _ {W : Type 0} (os : Os W) where
  unfoldable pub call : Request → ℕ → ℕ → Cmd (Machine W) ℕ
  call request addr value m =
      let (d, w) = os.ptrace request addr value m.world in ok d (record m { world = w })

  unfoldable pub errno : Cmd (Machine W) ℕ
  errno = get λ m. os.errno m.world

  -- `d == -1 && errno != 0`
  unfoldable pub is_error : ℕ → Cmd (Machine W) Bool
  unfolding errno
  is_error d = do pure (d == 2 ^ 32 - 1 && not ((← errno) == 0))

  unfoldable pub trace_trace_me : Cmd (Machine W) (Unit {0})
  unfolding call errno
  trace_trace_me = do
    d ← call trace_me 0 0
    if leb (2 ^ 31) d
        then (do log_fatal os "ptrace.traceme" (← errno); finish os; failed)
        else pure tt

  unfoldable pub trace_read_text : ℕ → Cmd (Machine W) ℕ
  unfolding call is_error
  trace_read_text addr = do
    d ← call read_text addr 0
    bad ← is_error d
    if bad
        then (do
          log_fatal os "ptrace.peek.text" (← errno)
          log_exec_addr os addr
          finish os
          failed)
        else pure d

  unfoldable pub trace_read_data : ℕ → Cmd (Machine W) ℕ
  unfolding call is_error
  trace_read_data addr = do
    d ← call read_data addr 0
    bad ← is_error d
    if bad
        then (do
          log_fatal os "ptrace.peek.data" (← errno)
          log_exec_addr os addr
          finish os
          failed)
        else pure d

  unfoldable pub trace_write_text : ℕ → ℕ → Cmd (Machine W) (Unit {0})
  unfolding call is_error
  trace_write_text addr value = do
    bad ← is_error (← call write_text addr value)
    if bad
        then (do
          log_fatal os "ptrace.poke.text" (← errno)
          log_exec_addr os addr
          finish os
          failed)
        else pure tt

  unfoldable pub trace_write_data : ℕ → ℕ → Cmd (Machine W) (Unit {0})
  unfolding call is_error
  trace_write_data addr value = do
    bad ← is_error (← call write_data addr value)
    if bad
        then (do
          log_fatal os "ptrace.poke.data" (← errno)
          log_exec_addr os addr
          finish os
          failed)
        else pure tt

  -- The address 1 means: go on from where the process stopped.
  unfoldable pub trace_continue : ℕ → Cmd (Machine W) (Unit {0})
  unfolding call
  trace_continue signal_number = do
    d ← call continue 1 signal_number
    if leb (2 ^ 31) d
        then (do log_fatal os "ptrace.cont" (← errno); log_uint os signal_number; finish os; failed)
        else pure tt

  unfoldable pub trace_kill : Cmd (Machine W) (Unit {0})
  unfolding call
  trace_kill = do
    d ← call kill 0 0
    if leb (2 ^ 31) d
        then (do log_info os "ptrace.kill"; log_uint os (← get (λ m. m.process.child)); finish os)
        else pure tt

  -- `reg * mut_reg_size` is the place of the register in the user area.
  unfoldable pub trace_read_reg : ℕ → Cmd (Machine W) ℕ
  unfolding call is_error
  trace_read_reg reg = do
    d ← call peek_user (reg * 4) 0
    bad ← is_error d
    if bad
        then (do log_fatal os "ptrace.peek.user" (← errno); log_uint os reg; finish os; failed)
        else pure d

  unfoldable pub trace_write_reg : ℕ → ℕ → Cmd (Machine W) (Unit {0})
  unfolding call is_error
  trace_write_reg reg value = do
    bad ← is_error (← call poke_user (reg * 4) value)
    if bad
        then (do log_fatal os "ptrace.poke.reg" (← errno); log_uint os reg; finish os; failed)
        else pure tt
