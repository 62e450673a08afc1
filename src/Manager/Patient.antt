-- ===== src/Manager/Patient.antt =====
-- src/mut.c: what the handlers share comes to an end, where each wait for the target does.
use mut.Base.{
  ◌≡◌, subst, sym, ℕ, Option, none, some, ok, halt, Bool, true, false, Outcome, Cmd, within, get,
  pure, failed, ◌>>◌, ◌>>=◌, ◌==◌, if◌then◌else◌, Lasts, lasts_ok, lasts_halt, lasts_fail,
  Lasts-within, Lasts-option, lasting, Lasts-bind,
}
use mut.Machine.{Os, Machine}
use mut.Log.{log_mem_full}
use mut.Exec.Symtab.{mem_malloc}
use mut.Resources.Defs.{ActionId, Resource, lookup, insert, fresh}
use mut.Process.{wait}
use mut.Process.Steady.{Steady, Runs, Holds, same_world, logging}
use mut.Process.SteadyTarget.{target, breakpoint-Lasts, resume-Lasts, restore-Lasts}
use mut.Manager.State.{Mut, Env, put_machine, or_halt, lift, set_resources}
use mut.Manager.SteadyReports.{reports}
use mut.Manager.Common.{
  close_backtrace, delete_resource, do_action_machine, do_action, maybe_usage, produce_backtrace,
  create_resource, maybe_collect, maybe_release, act_or_skip,
}

-- `P` holds of the world of the manager.
pub record Held {W C : Type 0} (P : W → Type 0) (s : Mut W C) : Type 0 where
  pub held : Holds P s.machine

-- A run of the manager that ends with fuel left, where `P` holds of the world.
abbrev pub Goes : {W C A : Type 0} → (W → Type 0) → Outcome (Mut W C) A → Type 0
Goes P o = Lasts (Held P) o

module _ {W C : Type 0} {P : W → Type 0} where
  pub same_machine : (s t : Mut W C) → Held P s → t.machine ≡ s.machine → Held P t
  same_machine s t h e = record { held = subst (Holds P) (sym e) h.held }

  pub held_machine : (s : Mut W C) → Held P s → Holds P s.machine
  held_machine s h = h.held

  pub lift-Lasts :
      {A : Type 0} (s : Mut W C) (o : Outcome (Machine W) A)
      → Runs P o
      → Goes P (within put_machine s o)
  lift-Lasts s o l = Lasts-within put_machine s (λ u q. record { held = q }) l

  pub or_halt-Lasts : {A : Type 0} (o : Option A) (s : Mut W C) → Held P s → Goes P (or_halt o s)
  or_halt-Lasts none s h = lasts_halt h
  or_halt-Lasts (some a) s h = lasts_ok h

  pub ruleset holding = (lasting, same_world, same_machine, held_machine, lift-Lasts, or_halt-Lasts)

  pub close_backtrace-Lasts : (bt : ℕ) (s : Mut W C) → Held P s → Goes P (close_backtrace bt s)
  unfolding close_backtrace
  close_backtrace-Lasts bt s h = search (holding) depth 14

  pub delete_resource-Lasts :
      (r : Resource) (id : ActionId) (bt : ℕ) (s : Mut W C)
      → Held P s
      → Goes P (delete_resource r id bt s)
  unfolding delete_resource
  delete_resource-Lasts r id bt s h = search (holding) depth 14

mem_malloc-Lasts :
    {W : Type 0} {os : Os W} {P : W → Type 0}
    → Steady os P
    → (m : Machine W) → Holds P m
    → Runs P (mem_malloc os m)
unfolding mem_malloc
mem_malloc-Lasts steady m h = lasts_ok (record { holds = steady.by_malloc m.world h.holds })

module _ {W C : Type 0} {P : W → Type 0} (env : Env W C) (steady : Steady env.os P)
    (by_wait : (m : Machine W) → Holds P m → Runs P (wait env.os env.fuel m)) where
  do_action_machine-Lasts :
      (a : ℕ) (s : Mut W C) (id : ActionId) (m : Machine W)
      → Holds P m
      → Runs P (do_action_machine env a s id m)
  unfolding do_action_machine
  do_action_machine-Lasts a s id m h = Lasts-bind (breakpoint-Lasts steady a m h) (λ instr n q.
      Lasts-bind (resume-Lasts steady n q) (λ _ u r. Lasts-bind (by_wait u r) (λ stop v t.
        Lasts-option stop failed _ (lasts_fail t)
          (λ pc. search (lasting, logging, restore-Lasts) depth 24))))

  pub do_action-Lasts :
      (a : ℕ) (id : ActionId) (s : Mut W C) → Held P s → Goes P (do_action env a id s)
  unfolding do_action
  do_action-Lasts a id s h = search (holding, do_action_machine-Lasts) depth 14

  pub maybe_usage-Lasts : (s : Mut W C) → Held P s → Goes P (maybe_usage env s)
  unfolding maybe_usage
  maybe_usage-Lasts s h = search (holding, reports) depth 14

  pub produce_backtrace-Lasts : (s : Mut W C) → Held P s → Goes P (produce_backtrace env s)
  unfolding produce_backtrace
  produce_backtrace-Lasts s h =
      search (holding, logging, target, mem_malloc-Lasts, close_backtrace-Lasts) depth 24

  pub create_resource-Lasts : (a : ℕ) (s : Mut W C) → Held P s → Goes P (create_resource env a s)
  unfolding create_resource
  create_resource-Lasts a s h =
      let create : Cmd (Mut W C) Resource = (do
        granted ← lift (mem_malloc env.os)
        if granted
            then (do set_resources (insert env.junk a s.resources); pure (fresh env.junk a))
            else (do lift (do log_mem_full env.os (← get (λ m. env.os.errno m.world))); failed)) in
      Lasts-option (lookup s.resources a) create pure
        (search (holding, logging, mem_malloc-Lasts) depth 24) (λ r. lasts_ok h)

  pub maybe_collect-Lasts : (n : ℕ) (s : Mut W C) → Held P s → Goes P (maybe_collect env n s)
  unfolding maybe_collect
  maybe_collect-Lasts n s h = search (holding) depth 14

  pub maybe_release-Lasts : (n : ℕ) (s : Mut W C) → Held P s → Goes P (maybe_release env n s)
  unfolding maybe_release
  maybe_release-Lasts n s h = search (holding) depth 14

  pub act_or_skip-Lasts :
      (a : ℕ) (id : ActionId) (s : Mut W C) → Held P s → Goes P (act_or_skip env a id s)
  unfolding act_or_skip
  act_or_skip-Lasts a id s h = search (holding, target, do_action-Lasts) depth 14

  pub ruleset steps = (
    close_backtrace-Lasts, delete_resource-Lasts, do_action-Lasts, maybe_usage-Lasts,
    produce_backtrace-Lasts, create_resource-Lasts, maybe_collect-Lasts, maybe_release-Lasts,
    act_or_skip-Lasts,
  )
