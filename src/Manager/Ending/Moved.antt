-- ===== src/Manager/Ending/Moved.antt =====
-- src/mut.c: the handler of realloc comes to an end.
use mut.Base.{ℕ, Bool, ◌==◌, Lasts-option, Lasts-if}
use mut.Machine.{Machine}
use mut.Resources.Defs.{Resource, lookup}
use mut.Process.{wait}
use mut.Process.Steady.{Steady, Runs, Holds}
use mut.Process.SteadyTarget.{target}
use mut.Manager.State.{Mut, Env}
use mut.Manager.SteadyReports.{reports}
use mut.Manager.Realloc.{
  realloc_failure, enter_object, report_realloc, realloc_malloc, close_old, move_object,
  leave_object, move_entry, realloc_realloc, copy_object, hit_and_collect, fill_object,
  replace_object, realloc_realloc_no_free, realloc_malloc_no_free, run_realloc, realloc_unknown,
  realloc_known, realloc_null, realloc_addr, do_realloc,
}
use mut.Manager.Patient.{Held, Goes, holding, steps}
use mut.Manager.Ending.Objects.{maybe_hit-Lasts, maybe_install-Lasts}

module _ {W C : Type 0} {P : W → Type 0} (env : Env W C) (steady : Steady env.os P)
    (by_wait : (m : Machine W) → Holds P m → Runs P (wait env.os env.fuel m)) where
  realloc_failure-Lasts :
      (a b c d : ℕ) (s : Mut W C) → Held P s → Goes P (realloc_failure env a b c d s)
  unfolding realloc_failure
  realloc_failure-Lasts a b c d s h = search (holding, reports, steps) depth 24

  enter_object-Lasts : (a b c : ℕ) (s : Mut W C) → Held P s → Goes P (enter_object env a b c s)
  unfolding enter_object
  enter_object-Lasts a b c s h = search (holding, steps, maybe_install-Lasts) depth 24

  report_realloc-Lasts :
      (a b c d e : ℕ) (s : Mut W C) → Held P s → Goes P (report_realloc env a b c d e s)
  unfolding report_realloc
  report_realloc-Lasts a b c d e s h = search (holding, reports, steps) depth 24

  ruleset entering =
      (realloc_failure-Lasts, enter_object-Lasts, report_realloc-Lasts, maybe_hit-Lasts)

  realloc_malloc-Lasts : (a b : ℕ) (s : Mut W C) → Held P s → Goes P (realloc_malloc env a b s)
  unfolding realloc_malloc
  realloc_malloc-Lasts a b s h = search (holding, target, steps, entering) depth 30

  close_old-Lasts : (r : Resource) (s : Mut W C) → Held P s → Goes P (close_old env r s)
  unfolding close_old
  close_old-Lasts r s h = search (holding, steps) depth 24

  move_object-Lasts :
      (r : Resource) (a : ℕ) (s : Mut W C) → Held P s → Goes P (move_object env r a s)
  unfolding move_object
  move_object-Lasts r a s h = search (holding, target) depth 24

  leave_object-Lasts :
      (r : Resource) (a b : ℕ) (s : Mut W C) → Held P s → Goes P (leave_object env r a b s)
  unfolding leave_object
  leave_object-Lasts r a b s h =
      search (holding, steps, move_object-Lasts, close_old-Lasts) depth 24

  move_entry-Lasts :
      (r : Resource) (a b c : ℕ) (s : Mut W C) → Held P s → Goes P (move_entry env r a b c s)
  unfolding move_entry
  move_entry-Lasts r a b c s h = search (holding, entering, leave_object-Lasts) depth 24

  realloc_realloc-Lasts :
      (r : Resource) (a b : ℕ) (s : Mut W C) → Held P s → Goes P (realloc_realloc env r a b s)
  unfolding realloc_realloc
  realloc_realloc-Lasts r a b s h = search (holding, target, entering, move_entry-Lasts) depth 30

  copy_object-Lasts :
      (r : Resource) (a b : ℕ) (s : Mut W C) → Held P s → Goes P (copy_object env r a b s)
  unfolding copy_object
  copy_object-Lasts r a b s h = search (holding, target) depth 24

  hit_and_collect-Lasts : (a : ℕ) (s : Mut W C) → Held P s → Goes P (hit_and_collect env a s)
  unfolding hit_and_collect
  hit_and_collect-Lasts a s h = search (holding, steps, entering) depth 24

  fill_object-Lasts : (a b c : ℕ) (s : Mut W C) → Held P s → Goes P (fill_object env a b c s)
  unfolding fill_object
  fill_object-Lasts a b c s h = search (holding) depth 24

  ruleset filling = (copy_object-Lasts, hit_and_collect-Lasts, fill_object-Lasts)

  replace_object-Lasts :
      (r : Resource) (a b c : ℕ) (s : Mut W C) → Held P s → Goes P (replace_object env r a b c s)
  unfolding replace_object
  replace_object-Lasts r a b c s h = search (holding, steps, entering, filling) depth 30

  realloc_realloc_no_free-Lasts :
      (r : Resource) (a b : ℕ) (s : Mut W C)
      → Held P s
      → Goes P (realloc_realloc_no_free env r a b s)
  unfolding realloc_realloc_no_free
  realloc_realloc_no_free-Lasts r a b s h =
      search (holding, target, steps, entering, replace_object-Lasts) depth 30

  realloc_malloc_no_free-Lasts :
      (a b : ℕ) (s : Mut W C) → Held P s → Goes P (realloc_malloc_no_free env a b s)
  unfolding realloc_malloc_no_free
  realloc_malloc_no_free-Lasts a b s h =
      search (holding, target, reports, steps, entering, filling) depth 30

  run_realloc-Lasts :
      (b : Bool) (n a : ℕ) (s : Mut W C) → Held P s → Goes P (run_realloc env b n a s)
  unfolding run_realloc
  run_realloc-Lasts b n a s h = search (holding, target, steps) depth 24

  realloc_unknown-Lasts :
      (a b c d : ℕ) (s : Mut W C) → Held P s → Goes P (realloc_unknown env a b c d s)
  unfolding realloc_unknown
  realloc_unknown-Lasts a b c d s h =
      search (holding, reports, steps, entering, run_realloc-Lasts, realloc_malloc_no_free-Lasts)
        depth 30

  realloc_known-Lasts :
      (r : Resource) (a b c d : ℕ) (s : Mut W C) → Held P s → Goes P (realloc_known env r a b c d s)
  unfolding realloc_known
  realloc_known-Lasts r a b c d s h =
      search
        (
          holding, reports, steps, run_realloc-Lasts, realloc_realloc-Lasts,
          realloc_realloc_no_free-Lasts,
        )
        depth 30

  realloc_null-Lasts : (a b c : ℕ) (s : Mut W C) → Held P s → Goes P (realloc_null env a b c s)
  unfolding realloc_null
  realloc_null-Lasts a b c s h =
      search (holding, steps, run_realloc-Lasts, realloc_malloc-Lasts) depth 30

  realloc_addr-Lasts : (a b c d : ℕ) (s : Mut W C) → Held P s → Goes P (realloc_addr env a b c d s)
  unfolding realloc_addr
  realloc_addr-Lasts a b c d s h =
      Lasts-if (a == 0) (realloc_null env b c d) _ (realloc_null-Lasts b c d s h) (
        Lasts-option (lookup s.resources a) (realloc_unknown env a b c d)
          (λ r. realloc_known env r a b c d) (realloc_unknown-Lasts a b c d s h)
          (λ r. realloc_known-Lasts r a b c d s h))

  pub do_realloc-Lasts : (s : Mut W C) → Held P s → Goes P (do_realloc env s)
  unfolding do_realloc
  do_realloc-Lasts s h = search (holding, target, steps, realloc_addr-Lasts) depth 24
