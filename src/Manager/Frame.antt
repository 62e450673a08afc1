-- ===== src/Manager/Frame.antt =====
-- The steps of src/mut.c that do not touch the table of resources and the flags.
use mut.Base.{
  subst, ℕ, String, ◌≡◌, refl, List, Outcome, ok, fail, halt, spent, Cmd, final, within, and_then,
  after_fail, ◌∙◌, arith, Keeps,
}
use mut.Machine.{Machine}
use mut.Resources.Defs.{ActionId}
use mut.Manager.State.{put_machine, Mut, Env}
use mut.Manager.Common.{
  close_backtrace, do_action, maybe_usage, produce_backtrace, maybe_collect, maybe_release,
  act_or_skip,
}
use mut.Manager.Producers.{maybe_hit, maybe_install, producer_failure}

module _ {W C : Type 0} where
  -- Table and flags are the same.
  pub record Same (s t : Mut W C) : Type 0 where
    pub resources : t.resources ≡ s.resources
    pub flags : t.flags ≡ s.flags

  pub within-Same :
      {A : Type 0} (o : Outcome (Machine W) A) (s : Mut W C)
      → Same s (final (within put_machine s o))
  within-Same (ok a m) s = record { resources = refl; flags = refl }
  within-Same (fail m) s = record { resources = refl; flags = refl }
  within-Same (halt m) s = record { resources = refl; flags = refl }
  within-Same (spent m) s = record { resources = refl; flags = refl }

  pub Same-trans : {s t u : Mut W C} → Same s t → Same t u → Same s u
  Same-trans e f = record { resources = f.resources ∙ e.resources; flags = f.flags ∙ e.flags }

  pub close_backtrace-Same : (bt : ℕ) (s : Mut W C) → Same s (final (close_backtrace bt s))
  unfolding close_backtrace
  close_backtrace-Same bt s = ground arith

  -- A step whose failures close the backtrace.
  pub on_fail_close-Same :
      {A : Type 0} (o : Outcome (Mut W C) A) (bt : ℕ) (s : Mut W C)
      → Same s (final o)
      → Same s (final (after_fail o (close_backtrace bt)))
  on_fail_close-Same (ok a t) bt s e = e
  on_fail_close-Same (fail t) bt s e = Same-trans e (ground (arith, close_backtrace-Same bt t))
  on_fail_close-Same (halt t) bt s e = e
  on_fail_close-Same (spent t) bt s e = e

  -- A predicate that depends on table and flags alone.
  pub record Closed (P : Mut W C → Type 0) : Type 0 where
    pub along : {s t : Mut W C} → Same s t → P s → P t

  pub Keeps-Same :
      {P : Mut W C → Type 0} {A : Type 0} {o : Outcome (Mut W C) A} {s : Mut W C}
      → Closed P
      → Same s (final o)
      → Keeps P s o
  Keeps-Same c e = record { holds = c.along e }

  -- A first step that leaves the table alone: the rest may use that.
  pub Keeps-first :
      {P : Mut W C → Type 0} {A B : Type 0} (o : Outcome (Mut W C) A) (k : A → Cmd (Mut W C) B)
      {s : Mut W C}
      → Closed P
      → Same s (final o)
      → ((a : A) (t : Mut W C) → Same s t → Keeps P t (k a t))
      → Keeps P s (and_then o k)
  Keeps-first (ok a t) k c e next = record { holds = λ p. (next a t e).holds (c.along e p) }
  Keeps-first (fail t) k c e next = record { holds = c.along e }
  Keeps-first (halt t) k c e next = record { holds = c.along e }
  Keeps-first (spent t) k c e next = record { holds = c.along e }

  -- A sequence of steps that leave the table alone.
  pub Same-bind :
      {A B : Type 0} (o : Outcome (Mut W C) A) (k : A → Cmd (Mut W C) B) (s : Mut W C)
      → Same s (final o)
      → ((a : A) (t : Mut W C) → Same t (final (k a t)))
      → Same s (final (and_then o k))
  Same-bind (ok a t) k s e next = Same-trans e (next a t)
  Same-bind (fail t) k s e next = e
  Same-bind (halt t) k s e next = e
  Same-bind (spent t) k s e next = e

  -- A step that succeeds.
  pub ok-Same :
      {A : Type 0} (o : Outcome (Mut W C) A) (a : A) (s t : Mut W C)
      → Same s (final o)
      → o ≡ ok a t
      → Same s t
  ok-Same o a s t e h = subst (λ x. Same s (final x)) h e

  -- A sequence that succeeds: both of its parts have.
  pub after_ok :
      {A B : Type 0} {P : Type 0} {b : B} {t : Mut W C} (o : Outcome (Mut W C) A)
      (k : A → Cmd (Mut W C) B)
      → and_then o k ≡ ok b t
      → ((a : A) (u : Mut W C) → o ≡ ok a u → k a u ≡ ok b t → P)
      → P
  after_ok (ok a u) k h next = next a u refl h
  after_ok (fail u) k h next = cc
  after_ok (halt u) k h next = cc
  after_ok (spent u) k h next = cc

module _ {W C : Type 0} (env : Env W C) where
  pub do_action-Same : (a : ℕ) (id : ActionId) (s : Mut W C) → Same s (final (do_action env a id s))
  unfolding do_action
  do_action-Same a id s = ground arith

  pub maybe_usage-Same : (s : Mut W C) → Same s (final (maybe_usage env s))
  unfolding maybe_usage
  maybe_usage-Same s = ground arith

  pub produce_backtrace-Same : (s : Mut W C) → Same s (final (produce_backtrace env s))
  unfolding produce_backtrace
  produce_backtrace-Same s = ground arith

  pub maybe_collect-Same : (n : ℕ) (s : Mut W C) → Same s (final (maybe_collect env n s))
  unfolding maybe_collect
  maybe_collect-Same n s = ground arith

  pub maybe_release-Same : (n : ℕ) (s : Mut W C) → Same s (final (maybe_release env n s))
  unfolding maybe_release
  maybe_release-Same n s = ground arith

  pub maybe_hit-Same : (id : ActionId) (s : Mut W C) → Same s (final (maybe_hit env id s))
  unfolding maybe_hit
  maybe_hit-Same id s = ground arith

  pub maybe_install-Same : (a n : ℕ) (s : Mut W C) → Same s (final (maybe_install env a n s))
  unfolding maybe_install
  maybe_install-Same a n s = ground arith

  pub producer_failure-Same :
      (code : String) (id : ActionId) (sizes : List ℕ) (bt : ℕ) (s : Mut W C)
      → Same s (final (producer_failure env code id sizes bt s))
  unfolding producer_failure
  producer_failure-Same code id sizes bt s = grind (arith, close_backtrace-Same)

  pub act_or_skip-Same :
      (a : ℕ) (id : ActionId) (s : Mut W C) → Same s (final (act_or_skip env a id s))
  unfolding act_or_skip
  act_or_skip-Same a id s = ground (arith, do_action-Same a id s)
