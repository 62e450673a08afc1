-- ===== src/Manager/Invariant/Resize.antt =====
-- The counts of the table through `mut_do_realloc` of src/mut.c.
use mut.Base.{
  ℕ, ◌≡◌, refl, ◌∙◌, Bool, true, false, not, none, some, Cmd, final, Keeps, keeping, Keeps-bind,
  Keeps-if, Keeps-option, after_fail, ◌==◌, failed, when, ◌>>◌, assert, ◌||◌,
}
use mut.Process.{read_result}
use mut.Resources.Defs.{ActionId, Resource, lookup, deleted}
use mut.Manager.State.{Mut, Env, lift}
use mut.Machine.{Machine}
use mut.Manager.Reports.{log_ffm}
use mut.Manager.Common.{view, maybe_release, close_backtrace}
use mut.Manager.Producers.{maybe_hit}
use mut.Manager.Frame.{
  Same, Keeps-first, within-Same, maybe_release-Same, maybe_hit-Same, on_fail_close-Same,
}
use mut.Manager.Realloc.{
  realloc_failure, leave_object, realloc_realloc, move_entry, replace_object,
  realloc_realloc_no_free, run_realloc, realloc_unknown, realloc_known, realloc_null, realloc_addr,
  do_realloc,
}
use mut.Manager.Invariant.{
  TableInv, TableInv-closed, keeping_frame, delete_resource-Keeps, create_resource-Keeps,
}
use mut.Manager.Invariant.Consume.{lookup_self}
use mut.Manager.Invariant.Steps.{
  realloc_failure-Keeps, report_realloc-Keeps, fill_object-Keeps, hit_and_collect-Keeps,
  copy_object-Keeps, run_realloc-Same, realloc_null-Keeps, realloc_unknown-Keeps, enter_new-Keeps,
  leave_object-Same, assert-Same,
}

module _ {W C : Type 0} (env : Env W C) where
  move_entry-Keeps :
      (obj : Resource) (a n bt : ℕ) (s : Mut W C)
      → lookup s.resources obj.addr ≡ some obj
      → s.flags.free ≡ true
      → Keeps TableInv s (move_entry env obj a n bt s)
  unfolding move_entry
  move_entry-Keeps obj a n bt s found free =
      Keeps-first (leave_object env obj a n s) _ TableInv-closed (leave_object-Same env obj a n s)
        λ _ t e.
          Keeps-bind
            (enter_new-Keeps env obj t.flags.backtrace a n bt t (rw e.resources found)
              (rw e.flags free))
            λ _ u. report_realloc-Keeps env obj.addr obj.size n a bt u

  replace_object-Keeps :
      (old : Resource) (a n bt : ℕ) (s : Mut W C)
      → lookup s.resources old.addr ≡ some old
      → Keeps TableInv s (replace_object env old a n bt s)
  unfolding replace_object
  replace_object-Keeps old a n bt s found =
      Keeps-first (maybe_release env old.size s) _ TableInv-closed
        (maybe_release-Same env old.size s)
        λ _ t e.
          Keeps-bind (delete_resource-Keeps env old ActionId.realloc bt t (rw e.resources found))
            λ _ u.
              search
                (
                  keeping, keeping_frame, create_resource-Keeps, fill_object-Keeps,
                  copy_object-Keeps, hit_and_collect-Keeps, report_realloc-Keeps,
                )
                depth 18

  realloc_realloc-Keeps :
      (obj : Resource) (n bt : ℕ) (s : Mut W C)
      → lookup s.resources obj.addr ≡ some obj
      → s.flags.free ≡ true
      → Keeps TableInv s (realloc_realloc env obj n bt s)
  unfolding realloc_realloc
  realloc_realloc-Keeps obj n bt s found free =
      Keeps-first (assert s.flags.free s) _ TableInv-closed (assert-Same env s.flags.free s)
        λ _ t d.
          Keeps-first (assert (t.flags.backtrace || (bt == 0)) t) _ TableInv-closed
            (assert-Same env (t.flags.backtrace || (bt == 0)) t)
            λ _ u e.
              Keeps-first (lift (read_result env.os) u) _ TableInv-closed
                (within-Same (read_result env.os u.machine) u)
                λ new_addr v f.
                  Keeps-first (maybe_hit env ActionId.realloc v) _ TableInv-closed
                    (maybe_hit-Same env ActionId.realloc v)
                    λ _ w g.
                      Keeps-if (new_addr == 0)
                        (do realloc_failure env n obj.addr obj.size bt; failed)
                        (move_entry env obj new_addr n bt)
                        (λ _. search (keeping, realloc_failure-Keeps))
                        (λ _.
                          move_entry-Keeps obj new_addr n bt w
                            (rw (g.resources ∙ f.resources ∙ e.resources ∙ d.resources) found)
                            (rw (g.flags ∙ f.flags ∙ e.flags ∙ d.flags) free))

  realloc_realloc_no_free-Keeps :
      (old : Resource) (n bt : ℕ) (s : Mut W C)
      → lookup s.resources old.addr ≡ some old
      → Keeps TableInv s (realloc_realloc_no_free env old n bt s)
  unfolding realloc_realloc_no_free
  realloc_realloc_no_free-Keeps old n bt s found =
      Keeps-first (assert (s.flags.backtrace || (bt == 0)) s) _ TableInv-closed
        (assert-Same env (s.flags.backtrace || (bt == 0)) s)
        λ _ t d.
          Keeps-first (after_fail (lift (read_result env.os) t) (close_backtrace bt)) _
            TableInv-closed
            (on_fail_close-Same (lift (read_result env.os) t) bt t
              (within-Same (read_result env.os t.machine) t))
            λ a u e.
              Keeps-first (assert (not (old.addr == a)) u) _ TableInv-closed
                (assert-Same env (not (old.addr == a)) u)
                λ _ v f.
                  Keeps-if (a == 0) (do realloc_failure env n old.addr old.size bt; failed)
                    (replace_object env old a n bt) (λ _. search (keeping, realloc_failure-Keeps))
                    (λ _.
                      replace_object-Keeps old a n bt v
                        (rw (f.resources ∙ e.resources ∙ d.resources) found))

  pub logged-Same :
      (b : Bool) (m : Cmd (Machine W) (Unit {0})) (s : Mut W C) → Same s (final (when b (lift m) s))
  logged-Same true m s = within-Same (m s.machine) s
  logged-Same false m s = record { resources = refl; flags = refl }

  realloc_known-Keeps :
      (obj : Resource) (a n return_addr bt : ℕ) (s : Mut W C)
      → lookup s.resources a ≡ some obj
      → Keeps TableInv s (realloc_known env obj a n return_addr bt s)
  unfolding realloc_known
  realloc_known-Keeps obj a n return_addr bt s found =
      Keeps-first (when (deleted obj) (lift (log_ffm env.os (view s) a ActionId.realloc obj bt)) s)
        _ TableInv-closed
        (logged-Same (deleted obj) (log_ffm env.os (view s) a ActionId.realloc obj bt) s)
        λ _ t d.
          Keeps-first
            (after_fail (run_realloc env (not s.flags.free) n return_addr t) (close_backtrace bt)) _
            TableInv-closed
            (on_fail_close-Same (run_realloc env (not s.flags.free) n return_addr t) bt t
              (run_realloc-Same env (not s.flags.free) n return_addr t))
            λ _ u e.
              Keeps-if s.flags.free (realloc_realloc env obj n bt)
                (realloc_realloc_no_free env obj n bt)
                (λ free.
                  realloc_realloc-Keeps obj n bt u
                    (lookup_self u.resources a obj (rw (e.resources ∙ d.resources) found))
                    (rw (e.flags ∙ d.flags) free))
                (λ _.
                  realloc_realloc_no_free-Keeps obj n bt u
                    (lookup_self u.resources a obj (rw (e.resources ∙ d.resources) found)))

  realloc_addr-Keeps :
      (a n return_addr bt : ℕ) (s : Mut W C)
      → Keeps TableInv s (realloc_addr env a n return_addr bt s)
  unfolding realloc_addr
  realloc_addr-Keeps a n return_addr bt s =
      Keeps-if (a == 0) (realloc_null env n return_addr bt)
        (elim (lookup s.resources a) as (λ _. Cmd (Mut W C) (Unit {0})) [
          | none ↦ realloc_unknown env a n return_addr bt
          | some obj ↦ realloc_known env obj a n return_addr bt
        ])
        (λ _. realloc_null-Keeps env n return_addr bt s)
        λ _.
          Keeps-option (lookup s.resources a) (realloc_unknown env a n return_addr bt)
            (λ obj. realloc_known env obj a n return_addr bt)
            (λ _. realloc_unknown-Keeps env a n return_addr bt s)
            (λ obj e. realloc_known-Keeps obj a n return_addr bt s e)

  -- The counts of the table through `mut_do_realloc`.
  pub do_realloc-Keeps : (s : Mut W C) → Keeps TableInv s (do_realloc env s)
  unfolding do_realloc
  do_realloc-Keeps s = search (keeping, keeping_frame, realloc_addr-Keeps) depth 14
