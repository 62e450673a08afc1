-- ===== src/Process/Finite.antt =====
-- src/proc/ptrace/mut_process.c: mut_process_wait for a target that stops only so often.
use mut.Base.{
  if◌then◌else◌, Bool, true, false, ◌⊎◌, inl, inr, ℕ, zero, suc, ◌≤◌, ◌<◌, ◌≡◌, Option, none, some,
  arith, Outcome, Cmd, ok, fail, halt, spent, and_then, lasts_ok, lasts_fail, lasts_halt, lasting,
  Returns, Returns-after, Returns-Lasts, returns_ok, returns_fail, returns_halt, Lasts-assert,
}
use mut.Machine.{Os, Machine, Status, WaitStatus, Item, Request}
use mut.Trace.{errno}
use mut.Process.Core.{is_running, waitpid, wait_status, wait_loop, wait}
use mut.Process.Steady.{Steady, Holds, Runs, logging, tracing}
use mut.Process.SteadyTarget.{read_pc-Lasts}

-- The statuses that are a target's last, or that say that there is none.
abbrev pub Ends : WaitStatus → Type 0
Ends (WaitStatus.error _) = Unit
Ends (WaitStatus.exited _) = Unit
Ends (WaitStatus.signaled _) = Unit
Ends (WaitStatus.stopped _) = ⊥
Ends (WaitStatus.other _) = ⊥

-- At most how many statuses come before the last one, whatever MUT writes, asks or allocates.
pub record Finite {W : Type 0} (os : Os W) : Type 0 where
  pub ahead : W → ℕ
  pub on : (w : W) → Ends (os.waitpid w).0 ⊎ (ahead (os.waitpid w).1 < ahead w)
  pub by_waitpid : (w : W) → ahead (os.waitpid w).1 ≤ ahead w
  pub by_print : (item : Item) (w : W) → ahead (os.print item w).1 ≤ ahead w
  pub by_ptrace :
      (r : Request) (addr value : ℕ) (w : W) → ahead (os.ptrace r addr value w).1 ≤ ahead w
  pub by_malloc : (w : W) → ahead (os.malloc w).1 ≤ ahead w

-- A result and a state that are given only where `Q` holds of them.
data Gives {S A : Type 0} (Q : A → S → Type 0) : Outcome S A → Type 0 where
  gives_ok : {a : A} {s : S} → Q a s → Gives Q (ok a s)
  gives_fail : {s : S} → Gives Q (fail s)
  gives_halt : {s : S} → Gives Q (halt s)
  gives_spent : {s : S} → Gives Q (spent s)

module _ {S : Type 0} where
  Gives-bind :
      {A B : Type 0} {Q : B → S → Type 0} (o : Outcome S A) {k : A → Cmd S B}
      → ((a : A) (t : S) → Gives Q (k a t))
      → Gives Q (and_then o k)
  Gives-bind (ok a s) next = next a s
  Gives-bind (fail s) next = gives_fail
  Gives-bind (halt s) next = gives_halt
  Gives-bind (spent s) next = gives_spent

  Gives-if :
      {A : Type 0} {Q : A → S → Type 0} (b : Bool) (m n : Cmd S A) {t : S}
      → Gives Q (m t)
      → Gives Q (n t)
      → Gives Q ((if b then m else n) t)
  Gives-if true m n p q = p
  Gives-if false m n p q = q

  ruleset giving = (Gives-bind, Gives-if, gives_ok, gives_fail)

-- What mut_process_wait makes of a status: the target is gone, or `L` holds.
abbrev Made : {W : Type 0} → Type 0 → Option (Option ℕ) → Machine W → Type 0
Made L none m = L
Made L (some none) m = m.process.status ≡ Status.exited
Made L (some (some pc)) m = L

wait_status-Made :
    {W : Type 0} (os : Os W) {L : Type 0} (s : WaitStatus) (m : Machine W)
    → Ends s ⊎ L
    → Gives (Made L) (wait_status os s m)
unfolding wait_status
wait_status-Made os (WaitStatus.error c) m e = search (giving) depth 14
wait_status-Made os (WaitStatus.exited c) m e = search (giving) depth 14
wait_status-Made os (WaitStatus.signaled c) m e = search (giving) depth 14
wait_status-Made os (WaitStatus.stopped c) m (inl e) = absurd e
wait_status-Made os (WaitStatus.stopped c) m (inr l) = search (giving) depth 14
wait_status-Made os (WaitStatus.other c) m (inl e) = absurd e
wait_status-Made os (WaitStatus.other c) m (inr l) = search (giving) depth 14

module _ {W : Type 0} {os : Os W} {P : W → Type 0} (steady : Steady os P) where
  wait_status-Lasts : (s : WaitStatus) (m : Machine W) → Holds P m → Runs P (wait_status os s m)
  unfolding wait_status errno
  wait_status-Lasts (WaitStatus.error c) m p = search (lasting, logging) depth 14
  wait_status-Lasts (WaitStatus.exited c) m p = search (lasting, logging) depth 14
  wait_status-Lasts (WaitStatus.signaled c) m p = search (lasting, logging) depth 14
  wait_status-Lasts (WaitStatus.stopped c) m p = search (lasting, tracing, read_pc-Lasts) depth 14
  wait_status-Lasts (WaitStatus.other c) m p = search (lasting, logging, tracing) depth 14

module _ {W : Type 0} {os : Os W} (finite : Finite os) where
  -- No more than `n` statuses are ahead.
  abbrev pub Within : ℕ → W → Type 0
  Within n w = finite.ahead w ≤ n

  pub Within-Steady : (n : ℕ) → Steady os (Within n)
  Within-Steady n = record {
    by_print = λ item w h. omega (arith, h, finite.by_print item w);
    by_ptrace = λ r addr value w h. omega (arith, h, finite.by_ptrace r addr value w);
    by_malloc = λ w h. omega (arith, h, finite.by_malloc w);
  }

  -- Fewer are ahead when the target has stopped; otherwise it is gone.
  abbrev pub Stop : ℕ → Option ℕ → Machine W → Type 0
  Stop n none m = (finite.ahead m.world ≤ n) × (m.process.status ≡ Status.exited)
  Stop n (some pc) m = finite.ahead m.world < n

  abbrev pub Stops : ℕ → Outcome (Machine W) (Option ℕ) → Type 0
  Stops n o = Returns (Stop n) (Holds (Within n)) o

  Stops-more : (k n : ℕ) {o : Outcome (Machine W) (Option ℕ)} → k ≤ n → Stops k o → Stops n o
  Stops-more k n {o = ok none m} h (returns_ok (q, gone)) = returns_ok (omega arith, gone)
  Stops-more k n {o = ok (some pc) m} h (returns_ok q) = returns_ok (omega arith)
  Stops-more k n {o = fail m} h (returns_fail p) =
      returns_fail (record { holds = omega (arith, p.holds) })
  Stops-more k n {o = halt m} h (returns_halt p) =
      returns_halt (record { holds = omega (arith, p.holds) })
  Stops-more k n {o = spent m} h e = elim e [ ]

  after_status :
      (fuel k n : ℕ) (o : Outcome (Machine W) (Option (Option ℕ)))
      → k ≤ n
      → Runs (Within k) o
      → Gives (Made (k < n)) o
      → ((u : Machine W) → k < n → finite.ahead u.world ≤ k → Stops k (wait_loop os fuel u))
      → Stops n
          (and_then o (λ r u. elim r [ none ↦ wait_loop os fuel u | some result ↦ ok result u ]))
  after_status fuel k n (ok none u) h (lasts_ok p) (gives_ok l) next =
      Stops-more k n h (next u l p.holds)
  after_status fuel k n (ok (some none) u) h (lasts_ok p) (gives_ok gone) next =
      returns_ok (omega (arith, p.holds), gone)
  after_status fuel k n (ok (some (some pc)) u) h (lasts_ok p) (gives_ok l) next =
      returns_ok (omega (arith, p.holds, l))
  after_status fuel k n (fail u) h (lasts_fail p) g next =
      returns_fail (record { holds = omega (arith, p.holds) })
  after_status fuel k n (halt u) h (lasts_halt p) g next =
      returns_halt (record { holds = omega (arith, p.holds) })
  after_status fuel k n (spent u) h e g next = elim e [ ]

  wait_loop-Stops :
      (fuel n : ℕ) (m : Machine W)
      → finite.ahead m.world ≤ n
      → n < fuel
      → Stops n (wait_loop os fuel m)
  unfolding wait_loop waitpid
  wait_loop-Stops zero n m h k = absurd (omega arith)
  wait_loop-Stops (suc fuel) n m h k =
      let (s, w) = os.waitpid m.world in
      let t : Machine W = record m { world = w } in
      after_status fuel (finite.ahead w) n (wait_status os s t)
        (omega (arith, h, finite.by_waitpid m.world))
        (wait_status-Lasts (Within-Steady (finite.ahead w)) s t (record { holds = omega arith }))
        (wait_status-Made os s t
          (elim (finite.on m.world) [ inl e ↦ inl e | inr l ↦ inr (omega (arith, h, l)) ]))
        (λ u l p. wait_loop-Stops fuel (finite.ahead w) u p (omega arith))

  pub wait-Stops :
      (fuel n : ℕ) (m : Machine W) → Holds (Within n) m → n < fuel → Stops n (wait os fuel m)
  unfolding wait
  wait-Stops fuel n m p k =
      Returns-after (Lasts-assert (is_running m.process.status) m p) (λ t q. q)
        (λ _ t q. wait_loop-Stops fuel n t q.holds k)

  pub wait-Lasts :
      (fuel n : ℕ)
      → n < fuel
      → (m : Machine W) → Holds (Within n) m
      → Runs (Within n) (wait os fuel m)
  wait-Lasts fuel n k m p = Returns-Lasts stopped (λ t q. q) (wait-Stops fuel n m p k)
    where
      stopped : (r : Option ℕ) (t : Machine W) → Stop n r t → Holds (Within n) t
      stopped none t q = record { holds = q.0 }
      stopped (some pc) t q = record { holds = omega (arith, q) }
