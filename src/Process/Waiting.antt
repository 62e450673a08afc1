-- ===== src/Process/Waiting.antt =====
-- src/proc/ptrace/mut_process.c: mut_process_wait comes to an end when the target settles.
use mut.Base.{
  ◌-◌, ◌*◌, ◌^◌, inl, inr, ℕ, zero, suc, ◌≤◌, ◌<◌, ◌≢◌, refl, true, false, not, ◌&&◌, Option, none,
  some, arith, Outcome, ok, fail, halt, spent, and_then, pure, failed, assert, ◌>>=◌, ◌>>◌, ◌==◌,
  leb,
}
use mut.Machine.{
  Os, Machine, WaitStatus, Status, info, fatal, uint, int, hex, continue, peek_user, eip,
}
use mut.Log.{log_fatal, log_info, log_int, log_uint, log_uint_hex, finish}
use mut.Trace.{call, errno, is_error, trace_continue, trace_read_reg}
use mut.Process.X86.{read_pc, is_stopped}
use mut.Process.Core.{
  is_running, sigtrap, set_status, set_pc, pc_adjust, waitpid, wait_status, wait_loop, wait,
}
use mut.Process.Patience.{
  Settles, Script, Live, live_ok, live_fail, Anything, L, L-bind, L-assert, L-if, recorded-Live,
  coded-Live,
}

module _ {W : Type 0} {os : Os W} (script : Script os) (n : ℕ) where
  trace_continue-Live :
      (signal : ℕ) (m : Machine W)
      → script.ahead m.world ≤ n
      → L script n Anything (trace_continue os signal m)
  unfolding trace_continue log_fatal log_uint errno call
  trace_continue-Live signal m h =
      let (d, w) = os.ptrace continue 1 signal m.world in
      let m' : Machine W = record m { world = w } in
      let h' : script.ahead w ≤ n =
        omega (arith, h, script.quiet_ptrace continue 1 signal m.world) in
      L-if script n (leb (2 ^ 31) d)
        (do log_fatal os "ptrace.cont" (← errno os); log_uint os signal; finish os; failed)
        (pure tt) m'
        (λ _.
          recorded-Live script n true (λ name. fatal name (os.errno w) "ptrace.cont") (uint signal)
            failed m' h' (λ m h. live_fail))
        (λ _. live_ok tt h')

  read_reg-Live :
      (reg : ℕ) (m : Machine W)
      → script.ahead m.world ≤ n
      → L script n Anything (trace_read_reg os reg m)
  unfolding trace_read_reg is_error log_fatal log_uint errno call
  read_reg-Live reg m h =
      let (d, w) = os.ptrace peek_user (reg * 4) 0 m.world in
      let m' : Machine W = record m { world = w } in
      let h' : script.ahead w ≤ n =
        omega (arith, h, script.quiet_ptrace peek_user (reg * 4) 0 m.world) in
      L-if script n (d == 2 ^ 32 - 1 && not (os.errno w == 0))
        (do log_fatal os "ptrace.peek.user" (← errno os); log_uint os reg; finish os; failed)
        (pure d) m'
        (λ _.
          recorded-Live script n true (λ name. fatal name (os.errno w) "ptrace.peek.user")
            (uint reg) failed m' h' (λ m h. live_fail))
        (λ _. live_ok tt h')

  read_pc-Live : (m : Machine W) → script.ahead m.world ≤ n → L script n Anything (read_pc os m)
  unfolding read_pc
  read_pc-Live m h =
      L-bind script n (assert (is_stopped m.process.status) m) _ (L-assert script n _ m h)
        (λ _ m h. read_reg-Live (os.reg eip) m h)

  -- A status that settles is not sent back.
  wait_status-Live :
      (s : WaitStatus) (m : Machine W)
      → script.ahead m.world ≤ n
      → L script n (λ r. Settles s → r ≢ none) (wait_status os s m)
  unfolding wait_status log_fatal log_info log_int log_uint_hex errno
  wait_status-Live (WaitStatus.error c) m h =
      coded-Live script n true (λ name. fatal name (os.errno m.world) "waitpid") (int c) failed m h
        (λ m h. live_fail)
  wait_status-Live (WaitStatus.exited c) m h =
      coded-Live script n false (λ name. info name "process.exited") (int c)
        (set_status Status.exited >> pure (some none)) m h (λ m h. live_ok (λ _ e. cc) h)
  wait_status-Live (WaitStatus.signaled c) m h =
      coded-Live script n false (λ name. info name "process.signaled") (int c)
        (set_status Status.exited >> pure (some none)) m h (λ m h. live_ok (λ _ e. cc) h)
  wait_status-Live (WaitStatus.stopped c) m h =
      L-if script n (c == sigtrap)
        (do
          set_status Status.stopped
          pc ← read_pc os
          set_pc (pc_adjust pc)
          pure (some (some (pc_adjust pc))))
        (do trace_continue os c; pure none) m
        (λ _.
          let m' : Machine W = record m {
            process = record m.process { status = Status.stopped };
          } in
          L-bind script n (read_pc os m') _ (read_pc-Live m' h) (λ pc m h. live_ok (λ _ e. cc) h))
        (λ e.
          L-bind script n (trace_continue os c m) (λ _. pure none) (trace_continue-Live c m h)
            (λ _ m h. live_ok (λ settled. absurd (ground (arith, settled, e))) h))
  wait_status-Live (WaitStatus.other c) m h =
      recorded-Live script n false (λ name. info name "process.unknown") (hex c)
        (trace_continue os 0 >> pure none) m h
        (λ m h.
          L-bind script n (trace_continue os 0 m) (λ _. pure none) (trace_continue-Live 0 m h)
            (λ _ m h. live_ok (λ settled. absurd settled) h))

-- What the loop does after one status ends, if it ends where the status is sent back.
after_status :
    {W : Type 0} (os : Os W) (ahead : W → ℕ) (n : ℕ) (Q : Option (Option ℕ) → Type 0) (fuel : ℕ)
    (t : Machine W) (o : Outcome (Machine W) (Option (Option ℕ)))
    → Live ahead n Q o
    → ((u : Machine W) → Q none → ahead u.world ≤ n → wait_loop os fuel u ≢ spent t)
    → and_then o (λ r u. elim r [ none ↦ wait_loop os fuel u | some result ↦ ok result u ])
      ≢ spent t
after_status os ahead n Q fuel t (ok none u) (live_ok q h) back = back u q h
after_status os ahead n Q fuel t (ok (some x) u) l back = λ e. cc
after_status os ahead n Q fuel t (fail u) l back = λ e. cc
after_status os ahead n Q fuel t (halt u) l back = λ e. cc
after_status os ahead n Q fuel t (spent u) l back = elim l [ ]

-- Fuel above the statuses that are still sent back is enough for the loop.
wait_loop-ends :
    {W : Type 0} {os : Os W} (script : Script os) (fuel : ℕ) (m t : Machine W)
    → script.ahead m.world < fuel
    → wait_loop os fuel m ≢ spent t
unfolding wait_loop waitpid
wait_loop-ends script zero m t h = absurd (omega (arith, h))
wait_loop-ends {W} {os} script (suc fuel) m t h =
    let (s, w) = os.waitpid m.world in
    let m' : Machine W = record m { world = w } in
    let Q : Option (Option ℕ) → Type 0 = λ r. Settles s → r ≢ none in
    let l = wait_status-Live script (script.ahead w) s m' (omega arith) in
    elim (script.on m.world) [
      | inl now ↦
          after_status os script.ahead (script.ahead w) Q fuel t (wait_status os s m') l
            (λ u q _. absurd (q (script.last m.world now) refl))
      | inr less ↦
          after_status os script.ahead (script.ahead w) Q fuel t (wait_status os s m') l
            (λ u _ k. wait_loop-ends script fuel u t (omega (arith, h, less, k)))
    ]

-- For a target that settles after some stops, where the writes to the log and the requests of
-- ptrace(2) do not add to these stops, mut_process_wait does not use up its fuel if that is above
-- the number of stops ahead: it returns its result, fails or stops on an assertion.
pub wait-ends :
    {W : Type 0} {os : Os W} (script : Script os) (fuel : ℕ) (m t : Machine W)
    → script.ahead m.world < fuel
    → wait os fuel m ≢ spent t
unfolding wait
wait-ends {W} {os} script fuel m t h =
    elim (is_running m.process.status)
      as (λ b. and_then (assert b m) (λ _. wait_loop os fuel) ≢ spent t) [
        | true ↦ wait_loop-ends script fuel m t h
        | false ↦ λ e. cc
      ]
