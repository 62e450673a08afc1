-- ===== src/Tests/Target.antt =====
-- src/proc/ptrace/mut_process.c at a concrete target: it stops for a signal a few times and exits.
use mut.Base.{Returns, ◌≡◌, ℕ, zero, suc, ◌≢◌, refl, arith, inl, inr, spent}
use mut.Machine.{Os, WaitStatus}
use mut.Process.{wait}
use mut.Process.Patience.{Script}
use mut.Process.Waiting.{wait-ends}
use mut.Process.Finite.{Finite}
use mut.Machine.{Status}
use mut.Manager.Run.{run}
use mut.Manager.Ending.Loop.{run-ends}
use mut.Tests.Sample.{toy_os, toy_env, toy_machine, toy_state}

abbrev signal_reply : ℕ → WaitStatus × ℕ
signal_reply zero = (WaitStatus.exited 0, 0)
signal_reply (suc n) = (WaitStatus.stopped 17, n)

abbrev signalled_os : Os ℕ
signalled_os = record toy_os { waitpid = signal_reply }

abbrev signals_left : Script signalled_os
signals_left = record {
  ahead = λ w. w;
  on = elim [ zero ↦ inl refl | suc n ↦ inr (omega arith) ];
  last = elim [ zero ↦ λ _. tt | suc n ↦ λ h. absurd (omega (arith, h)) ];
  quiet_print = λ item w. omega arith;
  quiet_ptrace = λ r addr value w. omega arith;
}

wait-ends_example : wait signalled_os 4 toy_machine ≢ spent toy_machine
wait-ends_example = wait-ends signals_left 4 toy_machine toy_machine (omega arith)

abbrev stops_left : Finite toy_os
stops_left = record {
  ahead = λ w. w;
  on = elim [ zero ↦ inl tt | suc n ↦ inr (omega arith) ];
  by_waitpid = elim [ zero ↦ omega arith | suc n ↦ omega arith ];
  by_print = λ item w. omega arith;
  by_ptrace = λ r addr value w. omega arith;
  by_malloc = λ w. omega arith;
}

run-ends_example :
    Returns (λ _ t. t.machine.process.status ≡ Status.exited) (λ _. Unit) (run toy_env 4 toy_state)
run-ends_example = run-ends toy_env stops_left 4 toy_state (omega arith) (omega arith)
