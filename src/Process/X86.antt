-- ===== src/Process/X86.antt =====
-- src/proc/ptrace/arch/x86/mut_process_arch.c: arguments, results and return addresses of the
-- stopped target, by the x86 calling convention.
use mut.Base.{
  ℕ, zero, suc, ◌+◌, ◌*◌, Bool, true, false, not, ◌&&◌, List, Cmd, exhausted, pure, get, modify,
  assert, ◌>>=◌, ◌>>◌, if◌then◌else◌, ltb, ◌==◌, add32, sub32,
}
use mut.Machine.{Os, Machine, Status, stopped, eip, eax, ebp, esp}
use mut.Trace.{trace_read_reg, trace_write_reg, trace_read_data, trace_write_data}
use mut.Backtrace.Frames.{enter}

abbrev pub is_stopped : Status → Bool
is_stopped stopped = true
is_stopped _ = false

module _ {W : Type 0} (os : Os W) where
  -- `mut_assert_pre(p->status == mut_process_status_stopped)`
  abbrev pub assert_stopped : Cmd (Machine W) (Unit {0})
  assert_stopped = do assert (is_stopped (← get (λ m. m.process.status)))

  unfoldable pub read_pc : Cmd (Machine W) ℕ
  read_pc = do assert_stopped; trace_read_reg os (os.reg eip)

  unfoldable pub write_pc : ℕ → Cmd (Machine W) (Unit {0})
  write_pc pc = do assert_stopped; trace_write_reg os (os.reg eip) pc

  -- The arguments stand behind the return address, `mut_arg_size` bytes each.
  unfoldable pub read_arg : ℕ → Cmd (Machine W) ℕ
  read_arg n = do
    assert_stopped
    sp ← trace_read_reg os (os.reg esp)
    trace_read_data os (add32 sp (4 + n * 4))

  unfoldable pub write_arg : ℕ → ℕ → Cmd (Machine W) (Unit {0})
  write_arg n arg = do
    assert_stopped
    sp ← trace_read_reg os (os.reg esp)
    trace_write_data os (add32 sp (4 + n * 4)) arg

  unfoldable pub function_return_addr : Cmd (Machine W) ℕ
  function_return_addr = do
    assert_stopped
    sp ← trace_read_reg os (os.reg esp)
    trace_read_data os sp

  unfoldable pub read_result : Cmd (Machine W) ℕ
  read_result = do assert_stopped; trace_read_reg os (os.reg eax)

  unfoldable pub write_result : ℕ → Cmd (Machine W) (Unit {0})
  write_result result = do assert_stopped; trace_write_reg os (os.reg eax) result

  -- Sets the program counter, and pops the return address so that the function is not called.
  unfoldable pub skip_to : ℕ → Cmd (Machine W) (Unit {0})
  skip_to pc = do
    assert_stopped
    modify λ m. record m { process = record m.process { pc = pc } }
    sp ← trace_read_reg os (os.reg esp)
    trace_write_reg os (os.reg esp) (add32 sp 4)

  -- The walk along the frame pointers: each must lie above the one before it. It ends when the
  -- backtrace is full, so a fuel above the number of frames suffices.
  unfoldable pub frame_loop : ℕ → (base bp : ℕ) → List ℕ → Cmd (Machine W) (List ℕ)
  frame_loop zero base bp frames = exhausted
  frame_loop (suc fuel) base bp frames =
      if not (bp == 0) && ltb base bp
      then (do
        return_addr ← trace_read_data os (add32 bp 4)
        if return_addr == 0
            then pure frames
            else (let (entered, frames') = enter frames (sub32 return_addr 5) in
                if not entered
                then pure frames'
                else (do next ← trace_read_data os bp; frame_loop fuel bp next frames')))
      else pure frames

  unfoldable pub function_backtrace : List ℕ → Cmd (Machine W) (List ℕ)
  unfolding frame_loop
  function_backtrace frames = do
    sp ← trace_read_reg os (os.reg esp)
    return_addr ← trace_read_data os sp
    let (entered, frames') = enter frames (sub32 return_addr 5)
    if not entered
        then pure frames'
        else (do bp ← trace_read_reg os (os.reg ebp); frame_loop 21 sp bp frames')
