-- ===== src/Process/SteadyTarget.antt =====
-- src/proc/ptrace/mut_process.c and src/proc/ptrace/arch/x86: what MUT reads and changes in a stopped
-- target comes to an end.
use mut.Base.{
  ℕ, zero, suc, ◌+◌, ◌<◌, ◌≤◌, Bool, not, ◌&&◌, List, [], ◌∷◌, length, arith, lasts_ok, lasting,
  Lasts-bind, Lasts-if, of_test, Cmd, pure, ◌>>=◌, ltb, ◌==◌, sub32, add32,
}
use mut.Machine.{Os, Machine, esp, ebp}
use mut.Trace.{trace_read_data}
use mut.Backtrace.Frames.{frames_max, enter, enter_bounds}
use mut.Process.X86.{
  read_pc, write_pc, read_arg, write_arg, function_return_addr, read_result, write_result, skip_to,
  frame_loop, function_backtrace,
}
use mut.Process.Core.{breakpoint, restore, resume, read_word, write_word}
use mut.Process.Blocks.{memcpy_words, memcpy_tail, memcpy, memset_words, memset_tail, memset}
use mut.Process.Walk.{longer}
use mut.Process.Steady.{Steady, Runs, Holds, tracing, trace_read_data-Lasts, trace_read_reg-Lasts}

module _ {W : Type 0} {os : Os W} {P : W → Type 0} (steady : Steady os P) where
  pub read_pc-Lasts : (m : Machine W) → Holds P m → Runs P (read_pc os m)
  unfolding read_pc
  read_pc-Lasts m p = search (lasting, tracing) depth 14

  pub write_pc-Lasts : (pc : ℕ) (m : Machine W) → Holds P m → Runs P (write_pc os pc m)
  unfolding write_pc
  write_pc-Lasts pc m p = search (lasting, tracing) depth 14

  pub read_arg-Lasts : (n : ℕ) (m : Machine W) → Holds P m → Runs P (read_arg os n m)
  unfolding read_arg
  read_arg-Lasts n m p = search (lasting, tracing) depth 14

  pub write_arg-Lasts : (n arg : ℕ) (m : Machine W) → Holds P m → Runs P (write_arg os n arg m)
  unfolding write_arg
  write_arg-Lasts n arg m p = search (lasting, tracing) depth 14

  pub function_return_addr-Lasts : (m : Machine W) → Holds P m → Runs P (function_return_addr os m)
  unfolding function_return_addr
  function_return_addr-Lasts m p = search (lasting, tracing) depth 14

  pub write_result-Lasts : (n : ℕ) (m : Machine W) → Holds P m → Runs P (write_result os n m)
  unfolding write_result
  write_result-Lasts n m p = search (lasting, tracing) depth 14

  pub read_result-Lasts : (m : Machine W) → Holds P m → Runs P (read_result os m)
  unfolding read_result
  read_result-Lasts m p = search (lasting, tracing) depth 14

  pub skip_to-Lasts : (pc : ℕ) (m : Machine W) → Holds P m → Runs P (skip_to os pc m)
  unfolding skip_to
  skip_to-Lasts pc m p = search (lasting, tracing) depth 14

  pub breakpoint-Lasts : (pc : ℕ) (m : Machine W) → Holds P m → Runs P (breakpoint os pc m)
  unfolding breakpoint
  breakpoint-Lasts pc m p = search (lasting, tracing) depth 14

  pub restore-Lasts : (pc instr : ℕ) (m : Machine W) → Holds P m → Runs P (restore os pc instr m)
  unfolding restore
  restore-Lasts pc instr m p = search (lasting, tracing) depth 14

  pub read_word-Lasts : (addr : ℕ) (m : Machine W) → Holds P m → Runs P (read_word os addr m)
  unfolding read_word
  read_word-Lasts addr m p = search (lasting, tracing) depth 14

  pub write_word-Lasts : (addr n : ℕ) (m : Machine W) → Holds P m → Runs P (write_word os addr n m)
  unfolding write_word
  write_word-Lasts addr n m p = search (lasting, tracing) depth 14

  pub resume-Lasts : (m : Machine W) → Holds P m → Runs P (resume os m)
  unfolding resume
  resume-Lasts m p = search (lasting, tracing, write_pc-Lasts) depth 14

  memcpy_words-Lasts :
      (n dest src : ℕ) (m : Machine W) → Holds P m → Runs P (memcpy_words os n dest src m)
  unfolding memcpy_words
  memcpy_words-Lasts zero dest src m p = lasts_ok p
  memcpy_words-Lasts (suc n) dest src m p = search (lasting, tracing, memcpy_words-Lasts n) depth 14

  pub memcpy-Lasts : (dest src n : ℕ) (m : Machine W) → Holds P m → Runs P (memcpy os dest src n m)
  unfolding memcpy memcpy_tail
  memcpy-Lasts dest src n m p = search (lasting, tracing, memcpy_words-Lasts) depth 18

  memset_words-Lasts :
      (n addr w : ℕ) (m : Machine W) → Holds P m → Runs P (memset_words os n addr w m)
  unfolding memset_words
  memset_words-Lasts zero addr w m p = lasts_ok p
  memset_words-Lasts (suc n) addr w m p = search (lasting, tracing, memset_words-Lasts n) depth 14

  pub memset-Lasts : (addr c n : ℕ) (m : Machine W) → Holds P m → Runs P (memset os addr c n m)
  unfolding memset memset_tail
  memset-Lasts addr c n m p = search (lasting, tracing, memset_words-Lasts) depth 18

  frame_loop-Lasts :
      (fuel base bp : ℕ) (frames : List ℕ) (m : Machine W)
      → length frames ≤ frames_max
      → frames_max < length frames + fuel
      → Holds P m
      → Runs P (frame_loop os fuel base bp frames m)
  unfolding frame_loop
  frame_loop-Lasts zero base bp frames m h k p = absurd (omega arith)
  frame_loop-Lasts (suc fuel) base bp frames m h k p =
      Lasts-if (not (bp == 0) && ltb base bp) _ (pure frames)
        (Lasts-bind (trace_read_data-Lasts steady (add32 bp 4) m p) (λ ra n q.
          let e : Bool × List ℕ = enter frames (sub32 ra 5) in
          Lasts-if (ra == 0) (pure frames) _ (lasts_ok q) (
            of_test (λ (c : Cmd (Machine W) (List ℕ)). Runs P (c n)) (not e.0) (pure e.1)
              (do next ← trace_read_data os bp; frame_loop os fuel bp next e.1) (λ _. lasts_ok q)
              (λ entered. Lasts-bind (trace_read_data-Lasts steady bp n q) (λ next u r.
                frame_loop-Lasts fuel bp next e.1 u (enter_bounds frames (sub32 ra 5) h).0
                  (longer frames (sub32 ra 5) fuel k entered) r)))))
        (lasts_ok p)

  pub function_backtrace-Lasts : (m : Machine W) → Holds P m → Runs P (function_backtrace os [] m)
  unfolding function_backtrace enter
  function_backtrace-Lasts m p =
      Lasts-bind (trace_read_reg-Lasts steady (os.reg esp) m p) (λ sp n q.
        Lasts-bind (trace_read_data-Lasts steady sp n q) (λ ra u r.
          Lasts-bind (trace_read_reg-Lasts steady (os.reg ebp) u r) (λ bp v t.
            frame_loop-Lasts 21 sp bp (sub32 ra 5 ∷ []) v (omega arith) (omega arith) t)))

  pub ruleset target = (
    read_pc-Lasts, read_arg-Lasts, write_arg-Lasts, function_return_addr-Lasts, read_result-Lasts,
    write_result-Lasts, skip_to-Lasts, breakpoint-Lasts, restore-Lasts, resume-Lasts,
    read_word-Lasts, write_word-Lasts, memcpy-Lasts, memset-Lasts, function_backtrace-Lasts,
  )
