-- ===== src/Manager/Ending/Objects.antt =====
-- src/mut.c: the handlers of malloc, calloc, free and cfree come to an end.
use mut.Base.{ℕ, String, List, ◌==◌, Cmd, lasting, Lasts-option, Lasts-if}
use mut.Machine.{Machine}
use mut.Resources.Defs.{ActionId, Resource, lookup}
use mut.Process.{wait}
use mut.Process.Steady.{Steady, Runs, Holds, log_int-Lasts, log_ulong-Lasts}
use mut.Process.SteadyTarget.{target}
use mut.Manager.State.{Mut, Env}
use mut.Manager.SteadyReports.{reports}
use mut.Manager.Zones.{install_check_zones, zone_check}
use mut.Manager.Reports.{View}
use mut.Manager.Producers.{
  producer_failure, producer_success, malloc_success, calloc_success, run_producer, maybe_install,
  maybe_hit, do_malloc, do_calloc,
}
use mut.Manager.Consumer.{
  consume_null, consume_unknown, consume_deleted, check_and_zero, consume_live, consume_known,
  consume_addr, do_consumer,
}
use mut.Manager.Patient.{Held, Goes, holding, steps}

module _ {W C : Type 0} {P : W → Type 0} (env : Env W C) (steady : Steady env.os P)
    (by_wait : (m : Machine W) → Holds P m → Runs P (wait env.os env.fuel m)) where
  install_check_zones-Lasts :
      (a n : ℕ) (m : Machine W) → Holds P m → Runs P (install_check_zones env.os a n m)
  unfolding install_check_zones
  install_check_zones-Lasts a n m h = search (lasting, target) depth 18

  zone_check-Lasts :
      (v : View) (a : ℕ) (r : Resource) (id : ActionId) (bt : ℕ) (m : Machine W)
      → Holds P m
      → Runs P (zone_check env.os v a r id bt m)
  unfolding zone_check
  zone_check-Lasts v a r id bt m h = search (lasting, target, reports) depth 18

  producer_failure-Lasts :
      (c : String) (id : ActionId) (l : List ℕ) (bt : ℕ) (s : Mut W C)
      → Held P s
      → Goes P (producer_failure env c id l bt s)
  unfolding producer_failure
  producer_failure-Lasts c id l bt s h = search (holding, reports, steps) depth 18

  producer_success-Lasts :
      (c : String) (id : ActionId) (l : List ℕ) (n a bt : ℕ) (s : Mut W C)
      → Held P s
      → Goes P (producer_success env c id l n a bt s)
  unfolding producer_success
  producer_success-Lasts c id l n a bt s h = search (holding, reports, steps) depth 24

  malloc_success-Lasts :
      (n a bt : ℕ) (s : Mut W C) → Held P s → Goes P (malloc_success env n a bt s)
  unfolding malloc_success
  malloc_success-Lasts n a bt s h = search (holding, producer_success-Lasts) depth 18

  pub maybe_install-Lasts : (a n : ℕ) (s : Mut W C) → Held P s → Goes P (maybe_install env a n s)
  unfolding maybe_install
  maybe_install-Lasts a n s h = search (holding, install_check_zones-Lasts) depth 18

  pub maybe_hit-Lasts : (id : ActionId) (s : Mut W C) → Held P s → Goes P (maybe_hit env id s)
  unfolding maybe_hit
  maybe_hit-Lasts id s h = search (holding) depth 18

  run_producer-Lasts :
      (id : ActionId) (widen : Cmd (Mut W C) (Unit {0}))
      → ((s : Mut W C) → Held P s → Goes P (widen s))
      → (s : Mut W C) → Held P s
      → Goes P (run_producer env id widen s)
  unfolding run_producer
  run_producer-Lasts id widen k s h = search (holding, target, steps, k) depth 24

  pub do_malloc-Lasts : (s : Mut W C) → Held P s → Goes P (do_malloc env s)
  unfolding do_malloc
  do_malloc-Lasts s h =
      search
        (
          holding, target, steps, run_producer-Lasts, maybe_hit-Lasts, maybe_install-Lasts,
          producer_failure-Lasts, malloc_success-Lasts,
        )
        depth 30

  pub do_calloc-Lasts : (s : Mut W C) → Held P s → Goes P (do_calloc env s)
  unfolding do_calloc calloc_success
  do_calloc-Lasts s h =
      search
        (
          holding, target, steps, run_producer-Lasts, maybe_hit-Lasts, maybe_install-Lasts,
          producer_failure-Lasts, producer_success-Lasts,
        )
        depth 30

  consume_null-Lasts :
      (id : ActionId) (a bt : ℕ) (s : Mut W C) → Held P s → Goes P (consume_null env id a bt s)
  unfolding consume_null
  consume_null-Lasts id a bt s h = search (holding, reports, steps) depth 24

  consume_unknown-Lasts :
      (id : ActionId) (o a bt : ℕ) (s : Mut W C)
      → Held P s
      → Goes P (consume_unknown env id o a bt s)
  unfolding consume_unknown
  consume_unknown-Lasts id o a bt s h = search (holding, reports, steps, log_int-Lasts) depth 24

  consume_deleted-Lasts :
      (id : ActionId) (r : Resource) (o a bt : ℕ) (s : Mut W C)
      → Held P s
      → Goes P (consume_deleted env id r o a bt s)
  unfolding consume_deleted
  consume_deleted-Lasts id r o a bt s h = search (holding, reports, steps) depth 24

  check_and_zero-Lasts :
      (id : ActionId) (r : Resource) (o bt : ℕ) (s : Mut W C)
      → Held P s
      → Goes P (check_and_zero env id r o bt s)
  unfolding check_and_zero
  check_and_zero-Lasts id r o bt s h = search (holding, target, zone_check-Lasts) depth 24

  consume_live-Lasts :
      (id : ActionId) (r : Resource) (o a bt : ℕ) (s : Mut W C)
      → Held P s
      → Goes P (consume_live env id r o a bt s)
  unfolding consume_live
  consume_live-Lasts id r o a bt s h = search (holding, steps, check_and_zero-Lasts) depth 24

  consume_known-Lasts :
      (id : ActionId) (r : Resource) (o a bt : ℕ) (s : Mut W C)
      → Held P s
      → Goes P (consume_known env id r o a bt s)
  unfolding consume_known
  consume_known-Lasts id r o a bt s h =
      search (holding, reports, log_ulong-Lasts, consume_deleted-Lasts, consume_live-Lasts) depth 24

  consume_addr-Lasts :
      (id : ActionId) (o a bt : ℕ) (s : Mut W C) → Held P s → Goes P (consume_addr env id o a bt s)
  unfolding consume_addr
  consume_addr-Lasts id o a bt s h =
      Lasts-if (o == 0) (consume_null env id a bt) _ (consume_null-Lasts id a bt s h) (
        Lasts-option (lookup s.resources o) (consume_unknown env id o a bt)
          (λ r. consume_known env id r o a bt) (consume_unknown-Lasts id o a bt s h)
          (λ r. consume_known-Lasts id r o a bt s h))

  pub do_consumer-Lasts : (id : ActionId) (s : Mut W C) → Held P s → Goes P (do_consumer env id s)
  unfolding do_consumer
  do_consumer-Lasts id s h =
      search (holding, target, steps, maybe_hit-Lasts, consume_addr-Lasts) depth 24
