-- ===== src/Manager/Invariant.antt =====
-- The counts of the table of resources and the handlers of src/mut.c.
pub mod Consume
pub mod Steps
pub mod Resize
pub mod Whole
pub mod Opened
use mut.Base.{
  ℕ, zero, suc, String, ◌≡◌, refl, Bool, true, false, not, Option, none, some, List, [], ◌∷◌, Cmd,
  Outcome, ok, fail, halt, spent, final, within, arith, Keeps, keeping,
}
use mut.Backtrace.Store.{Store}
use mut.Machine.{Machine}
use mut.Resources.Defs.{
  ActionId, Resource, Resources, lookup, insert, assign, make_producer, deleted, delete,
}
use mut.Resources.Counted.{
  Counted, insert-Counted, assign-Counted, delete-Counted, lookup-live, open_resources-Counted,
}
use mut.Manager.State.{Control, Mut, Env, lift, put_machine}
use mut.Manager.Frame.{
  Same, Closed, Keeps-Same, Keeps-first, within-Same, maybe_hit-Same, maybe_install-Same,
  producer_failure-Same, close_backtrace-Same, do_action-Same, maybe_usage-Same,
  produce_backtrace-Same, maybe_collect-Same, maybe_release-Same, act_or_skip-Same,
}
use mut.Manager.Common.{
  create_resource, delete_resource, close_backtrace, do_action, produce_backtrace, maybe_collect,
  maybe_release, maybe_usage, act_or_skip,
}
use mut.Manager.Producers.{
  producer_success, malloc_success, calloc_success, run_producer, maybe_install, maybe_hit,
  producer_failure, do_malloc, do_calloc,
}
use mut.Manager.Consumer.{do_consumer}
use mut.Manager.Realloc.{do_realloc}

module _ {W C : Type 0} where
  -- The table's counts are right, and it frees as the flags say.
  pub record TableInv (s : Mut W C) : Type 0 where
    pub counted : Counted s.resources
    pub mode : s.resources.really_free ≡ s.flags.free

  pub TableInv-closed : Closed TableInv
  TableInv-closed = record {
    along = λ {s} {t} e v. record { counted = rw e.resources v.counted; mode = ground arith };
  }

pub ruleset keeping_frame = (
  Keeps-Same, TableInv-closed, within-Same, close_backtrace-Same, do_action-Same, maybe_usage-Same,
  produce_backtrace-Same, maybe_collect-Same, maybe_release-Same, act_or_skip-Same, maybe_hit-Same,
  maybe_install-Same, producer_failure-Same,
)

module _ {W C : Type 0} (env : Env W C) where
  pub create_resource-Keeps : (a : ℕ) (s : Mut W C) → Keeps TableInv s (create_resource env a s)
  unfolding create_resource
  create_resource-Keeps a s = record {
    holds = λ v. ground (arith, insert-Counted env.junk a s.resources);
  }

  -- An assignment to a resource of the current table.
  pub assign-Keeps :
      (a : ℕ) (f : Resource → Resource) (s : Mut W C)
      → ((r : Resource) → deleted (f r) ≡ deleted r)
      → Keeps TableInv s (ok tt (record s { resources = assign a f s.resources }))
  assign-Keeps a f s k = record {
    holds = λ v. ground (arith, assign-Counted a f s.resources (λ r _. k r) v.counted);
  }

  pub make_producer-deleted :
      (id : ActionId) (size bt : ℕ) (r : Resource)
      → deleted (make_producer id size bt r) ≡ deleted r
  unfolding make_producer
  make_producer-deleted id size bt r = refl

  pub delete_resource-Keeps :
      (obj : Resource) (id : ActionId) (bt : ℕ) (s : Mut W C)
      → lookup s.resources obj.addr ≡ some obj
      → Keeps TableInv s (delete_resource obj id bt s)
  unfolding delete_resource
  delete_resource-Keeps obj id bt s found = go (delete obj id bt s.resources s.backtraces) refl
    where
      go :
          (o : Option (Resources × Store))
          → delete obj id bt s.resources s.backtraces ≡ o
          → Keeps TableInv s (delete_resource obj id bt s)
      go none e = record { holds = λ v. ground arith }
      go (some (rs, bts)) e = record {
        holds = λ v.
            ground
              (arith, delete-Counted obj id bt s.resources s.backtraces rs bts v.counted found e);
      }

  pub run_producer-Keeps :
      (id : ActionId) (m : Cmd (Machine W) (Unit {0})) (s : Mut W C)
      → Keeps TableInv s (run_producer env id (lift m) s)
  unfolding run_producer
  run_producer-Keeps id m s =
      search (keeping, Keeps-Same, TableInv-closed, within-Same, do_action-Same) depth 14

  producer_success-Keeps :
      (code : String) (id : ActionId) (sizes : List ℕ) (size a bt : ℕ) (s : Mut W C)
      → Keeps TableInv s (producer_success env code id sizes size a bt s)
  unfolding producer_success
  producer_success-Keeps code id sizes size a bt s =
      search (keeping, keeping_frame, create_resource-Keeps, assign-Keeps, make_producer-deleted)
        depth 14

  -- The counts of the table through `mut_do_malloc`.
  pub do_malloc-Keeps : (s : Mut W C) → Keeps TableInv s (do_malloc env s)
  unfolding do_malloc malloc_success
  do_malloc-Keeps s =
      search (keeping, keeping_frame, run_producer-Keeps, producer_success-Keeps) depth 18

  -- The counts of the table through `mut_do_calloc`.
  pub do_calloc-Keeps : (s : Mut W C) → Keeps TableInv s (do_calloc env s)
  unfolding do_calloc calloc_success
  do_calloc-Keeps s =
      search (keeping, keeping_frame, run_producer-Keeps, producer_success-Keeps) depth 18
