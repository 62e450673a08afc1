-- ===== src/Manager/Invariant/Opened.antt =====
-- The state that `mut_open` of src/mut.c leaves, and `mut_run` from there.
use mut.Base.{
  ℕ, String, ◌≡◌, refl, ap, subst, sym, ◌∙◌, Option, none, some, List, [], ◌∷◌, Outcome, ok, fail,
  halt, spent, final, arith, when, after_fail,
}
use mut.Exec.{Exec, Function, functions_addr}
use mut.Process.{process_close, process_open}
use mut.Resources.Defs.{ActionId, open_resources}
use mut.Resources.Counted.{open_resources-Counted}
use mut.Manager.State.{Mut, Env, Control, lift}
use mut.Manager.Frame.{after_ok, ok-Same, Same, Same-trans, Same-bind, within-Same}
use mut.Manager.Actions.{manage_action, manage_each, manage_names, manage_actions}
use mut.Manager.Run.{open_mut, chosen, unsupported, warn_off, run}
use mut.Manager.Invariant.{TableInv}
use mut.Manager.Stats.{open_stats}
use mut.Manager.Invariant.Resize.{logged-Same}
use mut.Manager.Invariant.Whole.{run-Keeps}

module _ {W C : Type 0} (env : Env W C) where
  manage_action-Same :
      (id : ActionId) (f : Function) (s : Mut W C) → Same s (final (manage_action env id f s))
  unfolding manage_action
  manage_action-Same id f s = ground arith

  manage_each-Same :
      (ids : List ActionId) (fs : List Function) (s : Mut W C)
      → Same s (final (manage_each env ids fs s))
  unfolding manage_each
  manage_each-Same [] fs s = record { resources = refl; flags = refl }
  manage_each-Same (id ∷ ids) [] s = record { resources = refl; flags = refl }
  manage_each-Same (id ∷ ids) (f ∷ fs) s =
      Same-bind (manage_action env id f s) _ s (manage_action-Same id f s)
        λ _ t. manage_each-Same ids fs t

  manage_names-Same :
      (ids : List ActionId) (names : List String) (s : Mut W C)
      → Same s (final (manage_names env ids names s))
  unfolding manage_names
  manage_names-Same ids names s = manage_each-Same ids (functions_addr s.exec names) s

  renamed-Same :
      (u : String) (s : Mut W C)
      → Same s (record s { actions = record s.actions { usage_name = u } })
  renamed-Same u s = record { resources = refl; flags = refl }

  manage_actions-Same : (u : Option String) (s : Mut W C) → Same s (final (manage_actions env u s))
  unfolding manage_actions
  manage_actions-Same none s = search manage_names-Same
  manage_actions-Same (some u) s = Same-trans (renamed-Same u s) (search manage_names-Same)

  -- With the failure path that closes the process.
  manage_or_close-Same :
      (u : Option String) (s : Mut W C)
      → Same s (final (after_fail (manage_actions env u s) (lift (process_close env.os))))
  manage_or_close-Same u s = go (manage_actions env u s) (manage_actions-Same u s)
    where
      go :
          (o : Outcome (Mut W C) (Unit {0}))
          → Same s (final o)
          → Same s (final (after_fail o (lift (process_close env.os))))
      go (ok a t) e = e
      go (fail t) e = Same-trans e (ground (arith, within-Same (process_close env.os t.machine) t))
      go (halt t) e = e
      go (spent t) e = e

  chosen-free : (e : Exec) (flags : Control) → (chosen env e flags).free ≡ flags.free
  unfolding chosen
  chosen-free e flags = ground arith

  -- Statistics and the list of actions start empty.
  abbrev managing : Mut W C → Mut W C
  managing v = record v { stats = open_stats env.ops; actions = record v.actions { root = [] } }

  opened :
      (flags : Control) (t x : Mut W C) {c : Control}
      → ◌≡◌ {A = Outcome (Mut W C) (Unit {0})}
          (ok tt (record x { resources = open_resources flags.free }))
          (ok tt t)
      → x.flags ≡ c
      → c.free ≡ flags.free
      → TableInv t
  unfolding open_resources
  opened flags t x h e k =
      subst (λ o. TableInv (final o)) h
        (record {
          counted = open_resources-Counted flags.free;
          mode = sym (ap (λ c. c.free) e ∙ k);
        })

  -- A successful `mut_open` leaves an empty table that frees as the flags say.
  pub open_mut-TableInv :
      (e : Exec) (name : String) (flags : Control) (usage : Option String) (s t : Mut W C)
      → open_mut env e name flags usage s ≡ ok tt t
      → TableInv t
  unfolding open_mut
  open_mut-TableInv e name flags usage s t h =
      after_ok (lift (process_open env.os name) (record s { exec = e })) _ h λ _ u _ h₁.
        after_ok
          (when (unsupported env e flags) (lift (warn_off env))
            (record u { flags = chosen env e flags }))
          _ h₁
          λ _ v h₂ h₃.
            after_ok
              (after_fail (manage_actions env usage (managing v)) (lift (process_close env.os))) _
              h₃
              λ _ x h₄ h₅.
                opened flags t x h₅
                  ((ok-Same _ tt (managing v) x (manage_or_close-Same usage (managing v)) h₄).flags
                    ∙ (ok-Same _ tt (record u { flags = chosen env e flags }) v
                        (logged-Same env (unsupported env e flags) (warn_off env)
                          (record u { flags = chosen env e flags }))
                        h₂).flags)
                  (chosen-free e flags)

  -- If mut_open succeeds, then after any number of rounds of mut_run, however it ends, the counts
  -- of the table of resources are those of its list modulo 2 ^ 32, the table really frees exactly
  -- if the flag says so, and where it does, no freed resource is listed.
  pub session-TableInv :
      (e : Exec) (name : String) (flags : Control) (usage : Option String) (rounds : ℕ)
      (s t : Mut W C)
      → open_mut env e name flags usage s ≡ ok tt t
      → TableInv (final (run env rounds t))
  session-TableInv e name flags usage rounds s t h =
      (run-Keeps env rounds t).holds (open_mut-TableInv e name flags usage s t h)
