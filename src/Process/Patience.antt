-- ===== src/Process/Patience.antt =====
-- src/log/tty/mut_log.c and src/proc/ptrace/mut_process.c: a target that settles after some stops,
-- and that writing a record to the log does not hold it up.
use mut.Base.{
  ◌⊎◌, ℕ, String, ◌≤◌, ◌<◌, ◌≡◌, refl, Bool, true, false, not, ◌||◌, arith, Outcome, Cmd, ok, fail,
  halt, spent, and_then, assert, when, ◌>>◌, if◌then◌else◌,
}
use mut.Machine.{Os, Machine, Item, Request, WaitStatus, newline}
use mut.Log.{emit, start, argument, log_end, finish}
use mut.Trace.{call}
use mut.Process.Core.{sigtrap}

-- The statuses that mut_process_wait does not send back to waitpid(2).
abbrev pub Settles : WaitStatus → Type 0
Settles (WaitStatus.error _) = Unit
Settles (WaitStatus.exited _) = Unit
Settles (WaitStatus.signaled _) = Unit
Settles (WaitStatus.stopped n) = n ≡ sigtrap
Settles (WaitStatus.other _) = ⊥

-- How many statuses the target will still report that mut_process_wait sends back to waitpid(2).
-- One that it does not send back may come at any time, and when none is ahead the next is such.
-- Only waitpid goes on in the script: MUT's own writes and requests add nothing to it.
pub record Script {W : Type 0} (os : Os W) : Type 0 where
  pub ahead : W → ℕ
  pub on : (w : W) → (ahead w ≡ 0) ⊎ (ahead (os.waitpid w).1 < ahead w)
  pub last : (w : W) → ahead w ≡ 0 → Settles (os.waitpid w).0
  pub quiet_print : (item : Item) (w : W) → ahead (os.print item w).1 ≤ ahead w
  pub quiet_ptrace :
      (r : Request) (addr value : ℕ) (w : W) → ahead (os.ptrace r addr value w).1 ≤ ahead w

-- A run that does not use up its fuel; it leaves at most `n` statuses ahead, and a result that `Q`
-- holds of.
pub data Live {W A : Type 0} (ahead : W → ℕ) (n : ℕ) (Q : A → Type 0)
    : Outcome (Machine W) A → Type 0 where
  live_ok : {a : A} {m : Machine W} → Q a → ahead m.world ≤ n → Live ahead n Q (ok a m)
  live_fail : {m : Machine W} → Live ahead n Q (fail m)
  live_halt : {m : Machine W} → Live ahead n Q (halt m)

abbrev pub Anything : {A : Type 0} → A → Type 0
Anything _ = Unit

module _ {W : Type 0} {os : Os W} (script : Script os) (n : ℕ) where
  abbrev pub L : {A : Type 0} → (A → Type 0) → Outcome (Machine W) A → Type 0
  L Q o = Live script.ahead n Q o

  pub L-bind :
      {A B : Type 0} {Q : B → Type 0} (o : Outcome (Machine W) A) (k : A → Cmd (Machine W) B)
      → L Anything o
      → ((a : A) (m : Machine W) → script.ahead m.world ≤ n → L Q (k a m))
      → L Q (and_then o k)
  L-bind (ok a m) k (live_ok _ h) next = next a m h
  L-bind (fail m) k l next = live_fail
  L-bind (halt m) k l next = live_halt
  L-bind (spent m) k l next = elim l [ ]

  pub L-assert : (b : Bool) (m : Machine W) → script.ahead m.world ≤ n → L Anything (assert b m)
  L-assert true m h = live_ok tt h
  L-assert false m h = live_halt

  pub L-if :
      {A : Type 0} {Q : A → Type 0} (b : Bool) (c d : Cmd (Machine W) A) (m : Machine W)
      → (b ≡ true → L Q (c m))
      → (b ≡ false → L Q (d m))
      → L Q ((if b then c else d) m)
  L-if true c d m p q = p refl
  L-if false c d m p q = q refl

  L-when :
      (b : Bool) (c : Cmd (Machine W) (Unit {0})) (m : Machine W)
      → script.ahead m.world ≤ n
      → L Anything (c m)
      → L Anything (when b c m)
  L-when true c m h l = l
  L-when false c m h l = live_ok tt h

  emit-Live : (item : Item) (m : Machine W) → script.ahead m.world ≤ n → L Anything (emit os item m)
  unfolding emit
  emit-Live item m h = live_ok tt (omega (arith, h, script.quiet_print item m.world))

  call-Live :
      (r : Request) (addr value : ℕ) (m : Machine W)
      → script.ahead m.world ≤ n
      → L Anything (call os r addr value m)
  unfolding call
  call-Live r addr value m h =
      live_ok tt (omega (arith, h, script.quiet_ptrace r addr value m.world))

  start-Live :
      (is_fatal : Bool) (head : String → Item) (m : Machine W)
      → script.ahead m.world ≤ n
      → L Anything (start os is_fatal head m)
  unfolding start
  start-Live is_fatal head m h =
      L-bind (assert (not m.log.fatal_error) m) _ (L-assert _ m h) (λ _ m h.
        L-bind (assert (not m.log.logging) m) _ (L-assert _ m h) (λ _ m h.
          L-bind (assert (not m.log.internal_error) m) _ (L-assert _ m h) (λ _ m h.
            let begun : Machine W = record m {
              log = record m.log { logging = true; fatal_error = is_fatal || m.log.fatal_error };
            } in
            emit-Live (head m.log.program_name) begun h)))

  argument-Live :
      (item : Item) (m : Machine W) → script.ahead m.world ≤ n → L Anything (argument os item m)
  unfolding argument
  argument-Live item m h =
      L-bind (assert m.log.logging m) _ (L-assert _ m h)
        (λ _ m h. L-when (not m.log.internal_error) (emit os item) m h (emit-Live item m h))

  finish-Live : (m : Machine W) → script.ahead m.world ≤ n → L Anything (finish os m)
  unfolding finish log_end
  finish-Live m h =
      L-bind (log_end os m) _
        (L-bind (assert m.log.logging m) _ (L-assert _ m h) (λ _ m h.
          let shut : Machine W = record m { log = record m.log { logging = false } } in
          L-bind (when (not m.log.internal_error) (emit os newline) shut) _
            (L-when (not m.log.internal_error) (emit os newline) shut h (emit-Live newline shut h))
            (λ _ m h. live_ok tt h)))
        (λ _ m h. live_ok tt h)

  -- A record of one argument, and then `k`.
  pub recorded-Live :
      {A : Type 0} {Q : A → Type 0} (is_fatal : Bool) (head : String → Item) (item : Item)
      (k : Cmd (Machine W) A) (m : Machine W)
      → script.ahead m.world ≤ n
      → ((m : Machine W) → script.ahead m.world ≤ n → L Q (k m))
      → L Q ((start os is_fatal head >> (argument os item >> (finish os >> k))) m)
  recorded-Live is_fatal head item k m h next =
      L-bind (start os is_fatal head m) _ (start-Live is_fatal head m h) (λ _ m h.
        L-bind (argument os item m) _ (argument-Live item m h)
          (λ _ m h. L-bind (finish os m) (λ _. k) (finish-Live m h) (λ _ m h. next m h)))

  -- The same with the argument and the end as one command, `log_code`.
  pub coded-Live :
      {A : Type 0} {Q : A → Type 0} (is_fatal : Bool) (head : String → Item) (item : Item)
      (k : Cmd (Machine W) A) (m : Machine W)
      → script.ahead m.world ≤ n
      → ((m : Machine W) → script.ahead m.world ≤ n → L Q (k m))
      → L Q ((start os is_fatal head >> ((argument os item >> finish os) >> k)) m)
  coded-Live is_fatal head item k m h next =
      L-bind (start os is_fatal head m) _ (start-Live is_fatal head m h) (λ _ m h.
        L-bind ((argument os item >> finish os) m) (λ _. k)
          (L-bind (argument os item m) (λ _. finish os) (argument-Live item m h)
            (λ _ m h. finish-Live m h))
          (λ _ m h. next m h))
