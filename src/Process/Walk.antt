-- ===== src/Process/Walk.antt =====
-- How the walk along the frame pointers in src/proc/ptrace/arch/x86/mut_process_arch.c can end.
use mut.Base.{
  ℕ, zero, suc, ◌+◌, ◌<◌, ◌≤◌, ◌≡◌, refl, Bool, true, false, not, ◌&&◌, List, [], ◌∷◌, length, Cmd,
  Outcome, ok, fail, halt, spent, pure, and_then, arith, ltb, ◌==◌, if◌then◌else◌, sub32, add32,
  length-append,
}
use mut.Machine.{Os, Machine, esp, ebp}
use mut.Log.{start, argument, emit, finish, log_end, log_fatal, log_exec_addr, log_string, log_uint}
use mut.Trace.{errno, trace_read_data, trace_read_reg}
use mut.Backtrace.Frames.{frames_max, enter, enter_bounds}
use mut.Process.X86.{frame_loop, function_backtrace}

module _ {W : Type 0} where
  -- Fuel has not run out.
  abbrev Ends : {A : Type 0} → Outcome (Machine W) A → Type 0
  Ends (ok a m) = Unit
  Ends (fail m) = Unit
  Ends (halt m) = Unit
  Ends (spent m) = ⊥

  -- Fuel has not run out, and no more frames are returned than a backtrace holds.
  abbrev pub Walked : Outcome (Machine W) (List ℕ) → Type 0
  Walked (ok frames m) = length frames ≤ frames_max
  Walked (fail m) = Unit
  Walked (halt m) = Unit
  Walked (spent m) = ⊥

  Walked-bind :
      {A : Type 0} (o : Outcome (Machine W) A) (k : A → Cmd (Machine W) (List ℕ))
      → Ends o
      → ((a : A) (m : Machine W) → Walked (k a m))
      → Walked (and_then o k)
  Walked-bind (ok a m) k e next = next a m
  Walked-bind (fail m) k e next = tt
  Walked-bind (halt m) k e next = tt
  Walked-bind (spent m) k e next = e

  Walked-if :
      (b : Bool) (c d : Cmd (Machine W) (List ℕ)) (m : Machine W)
      → (b ≡ true → Walked (c m))
      → (b ≡ false → Walked (d m))
      → Walked ((if b then c else d) m)
  Walked-if true c d m p q = p refl
  Walked-if false c d m p q = q refl

pub longer :
    (frames : List ℕ) (ra fuel : ℕ)
    → frames_max < length frames + suc fuel
    → not (enter frames ra).0 ≡ false
    → frames_max < length (enter frames ra).1 + fuel
unfolding enter
longer frames ra fuel h e = ground (arith, length-append frames (ra ∷ []))

module _ {W : Type 0} (os : Os W) where
  trace_read_data-Ends : (a : ℕ) (m : Machine W) → Ends (trace_read_data os a m)
  unfolding trace_read_data errno log_fatal log_exec_addr finish start argument emit log_string
      log_end
  trace_read_data-Ends a m = ground arith

  frame_loop-Walked :
      (fuel base bp : ℕ) (frames : List ℕ) (m : Machine W)
      → length frames ≤ frames_max
      → frames_max < length frames + fuel
      → Walked (frame_loop os fuel base bp frames m)
  unfolding frame_loop
  frame_loop-Walked zero base bp frames m h k = absurd (omega arith)
  frame_loop-Walked (suc fuel) base bp frames m h k =
      Walked-if (not (bp == 0) && ltb base bp) _ (pure frames) m
        (λ _.
          Walked-bind (trace_read_data os (add32 bp 4) m) _ (trace_read_data-Ends (add32 bp 4) m)
            λ ra n.
              Walked-if (ra == 0) (pure frames) _ n (λ _. h)
                λ _.
                  Walked-if (not (enter frames (sub32 ra 5)).0) (pure (enter frames (sub32 ra 5)).1)
                    _ n (λ _. (enter_bounds frames (sub32 ra 5) h).0)
                    (λ entered.
                      Walked-bind (trace_read_data os bp n) _ (trace_read_data-Ends bp n) λ next q.
                        frame_loop-Walked fuel bp next (enter frames (sub32 ra 5)).1 q
                          (enter_bounds frames (sub32 ra 5) h).0
                          (longer frames (sub32 ra 5) fuel k entered)))
        (λ _. h)

  trace_read_reg-Ends : (r : ℕ) (m : Machine W) → Ends (trace_read_reg os r m)
  unfolding trace_read_reg errno log_fatal log_uint finish start argument emit log_end
  trace_read_reg-Ends r m = ground arith

  -- Whatever the memory of the target holds, the walk along the frame pointers from an empty
  -- backtrace does not run out of its fuel, and where it succeeds it returns no more frames than a
  -- backtrace holds.
  pub function_backtrace-Walked : (m : Machine W) → Walked (function_backtrace os [] m)
  unfolding function_backtrace enter
  function_backtrace-Walked m =
      Walked-bind (trace_read_reg os (os.reg esp) m) _ (trace_read_reg-Ends (os.reg esp) m) λ sp n.
        Walked-bind (trace_read_data os sp n) _ (trace_read_data-Ends sp n) λ ra p.
          Walked-bind (trace_read_reg os (os.reg ebp) p) _ (trace_read_reg-Ends (os.reg ebp) p)
            λ bp q. frame_loop-Walked 21 sp bp (sub32 ra 5 ∷ []) q (omega arith) (omega arith)
