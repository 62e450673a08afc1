-- ===== src/Manager/Ending/Loop.antt =====
-- src/mut.c: the loop of mut_run comes to an end.
use mut.Base.{
  ◌≡◌, ℕ, zero, suc, ◌≤◌, ◌<◌, Bool, true, false, Option, none, some, arith, Outcome, Returns,
  Returns-after, Returns-bind, returns_ok, Returns-within, Returns-more, skip, if◌then◌else◌,
}
use mut.Process.SteadyTarget.{resume-Lasts}
use mut.Process.Finite.{Finite, Within, Within-Steady, Stop, wait-Stops, wait-Lasts}
use mut.Machine.{Status}
use mut.Manager.State.{Mut, Env, put_machine}
use mut.Manager.Run.{after_wait, round, run}
use mut.Manager.Patient.{Held, lift-Lasts}
use mut.Manager.Ending.Whole.{handle-Lasts}

module _ {W C : Type 0} (env : Env W C) (finite : Finite env.os) where
  -- Fewer statuses are ahead when there is another round.
  abbrev More : ℕ → Bool → Mut W C → Type 0
  More n true s = finite.ahead s.machine.world < n
  More n false s = (finite.ahead s.machine.world ≤ n) × (s.machine.process.status ≡ Status.exited)

  abbrev Halts : ℕ → Mut W C → Type 0
  Halts n s = Held (Within finite n) s

  after_wait-Returns :
      (n : ℕ) (r : Option ℕ) (s : Mut W C)
      → n < env.fuel
      → Stop finite n r s.machine
      → Returns (More n) (Halts n) (after_wait env r s)
  unfolding after_wait
  after_wait-Returns n none s f q = returns_ok q
  after_wait-Returns n (some pc) s f q =
      let k = finite.ahead s.machine.world in
      Returns-after
        (handle-Lasts env (Within-Steady finite k) (wait-Lasts finite env.fuel k (omega arith)) pc s
          (record { held = record { holds = omega arith } }))
        (λ t h. record { held = record { holds = omega (arith, h.held.holds) } })
        (λ _ t h. returns_ok (omega (arith, h.held.holds)))

  round-Returns :
      (n : ℕ) (s : Mut W C) → n < env.fuel → Halts n s → Returns (More n) (Halts n) (round env s)
  unfolding round
  round-Returns n s f h =
      Returns-after (lift-Lasts s _ (resume-Lasts (Within-Steady finite n) s.machine h.held))
        (λ t q. q)
        (λ _ t q.
          Returns-bind
            (Returns-within put_machine t (λ r u e. e) (λ u p. record { held = p })
              (wait-Stops finite env.fuel n t.machine q.held f))
            (λ r u e. after_wait-Returns n r u f e))

  abbrev Done : ℕ → Outcome (Mut W C) (Unit {0}) → Type 0
  Done n o = Returns (λ _ t. t.machine.process.status ≡ Status.exited) (Halts n) o

  -- The rest of the loop, where another round starts with fewer statuses ahead.
  rounds_left :
      (rounds n : ℕ) (more : Bool) (s : Mut W C)
      → ((k : ℕ) → k < n → Halts k s → Done k (run env rounds s))
      → More n more s
      → Done n ((if more then run env rounds else skip) s)
  rounds_left rounds n true s next q =
      let k = finite.ahead s.machine.world in
      let fewer : (t : Mut W C) → Halts k t → Halts n t =
        λ t h. record { held = record { holds = omega (arith, q, h.held.holds) } } in
      Returns-more (λ _ t gone. gone) fewer
        (next k q (record { held = record { holds = omega arith } }))
  rounds_left rounds n false s next q = returns_ok q.1

  run-Returns :
      (rounds n : ℕ) (s : Mut W C)
      → n < rounds
      → n < env.fuel
      → Halts n s
      → Done n (run env rounds s)
  unfolding run
  run-Returns zero n s h f p = absurd (omega arith)
  run-Returns (suc rounds) n s h f p = Returns-bind (round-Returns n s f p) (λ more t q.
      rounds_left rounds n more t
        (λ k l r. run-Returns rounds k t (omega (arith, h, l)) (omega (arith, f, l)) r) q)

  -- For a target that reports at most a given number of statuses before its last one, whatever MUT
  -- writes, asks and allocates, mut_run comes to an end when the rounds and the fuel of each wait
  -- are above that number: it returns with the target gone, or it fails, or it stops on an
  -- assertion.
  pub run-ends :
      (rounds : ℕ) (s : Mut W C)
      → finite.ahead s.machine.world < rounds
      → finite.ahead s.machine.world < env.fuel
      → Returns (λ _ t. t.machine.process.status ≡ Status.exited) (λ _. Unit) (run env rounds s)
  run-ends rounds s h f =
      Returns-more (λ _ t gone. gone) (λ _ _. tt)
        (run-Returns rounds (finite.ahead s.machine.world) s h f
          (record { held = record { holds = omega arith } }))
