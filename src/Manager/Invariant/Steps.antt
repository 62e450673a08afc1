-- ===== src/Manager/Invariant/Steps.antt =====
-- The steps of the realloc functions of src/mut.c and the counts of the table.
use mut.Base.{
  ℕ, ◌≡◌, refl, sym, ◌∙◌, Bool, true, false, some, ok, final, arith, Keeps, keeping, assert,
}
use mut.Resources.Defs.{Resource, lookup, deleted, assign}
use mut.Resources.Counted.{assign-Counted, lookup-live}
use mut.Manager.State.{Mut, Env}
use mut.Manager.Common.{maybe_release, maybe_collect, close_backtrace, do_action}
use mut.Manager.Frame.{Same, Same-bind, maybe_release-Same, maybe_collect-Same}
use mut.Manager.Realloc.{
  realloc_failure, enter_object, realloc_producer, report_realloc, realloc_malloc, reallocated,
  close_old, move_object, leave_object, copy_object, hit_and_collect, fill_object,
  realloc_malloc_no_free, run_realloc, realloc_unknown, realloc_null,
}
use mut.Manager.Invariant.{
  TableInv, keeping_frame, assign-Keeps, create_resource-Keeps, make_producer-deleted,
}

module _ {W C : Type 0} (env : Env W C) where
  pub realloc_failure-Keeps :
      (n a k bt : ℕ) (s : Mut W C) → Keeps TableInv s (realloc_failure env n a k bt s)
  unfolding realloc_failure
  realloc_failure-Keeps n a k bt s = search (keeping, keeping_frame) depth 14

  pub enter_object-Keeps : (a n bt : ℕ) (s : Mut W C) → Keeps TableInv s (enter_object env a n bt s)
  unfolding enter_object
  enter_object-Keeps a n bt s = search (keeping, keeping_frame, create_resource-Keeps) depth 14

  pub realloc_producer-deleted :
      (b : Bool) (size bt : ℕ) (r : Resource)
      → deleted (realloc_producer env b size bt r) ≡ deleted r
  unfolding realloc_producer
  realloc_producer-deleted b size bt r = refl

  pub report_realloc-Keeps :
      (old k n a bt : ℕ) (s : Mut W C) → Keeps TableInv s (report_realloc env old k n a bt s)
  unfolding report_realloc
  report_realloc-Keeps old k n a bt s = search (keeping, keeping_frame) depth 14

  pub realloc_malloc-Keeps : (n bt : ℕ) (s : Mut W C) → Keeps TableInv s (realloc_malloc env n bt s)
  unfolding realloc_malloc
  realloc_malloc-Keeps n bt s =
      search
        (
          keeping, keeping_frame, realloc_failure-Keeps, enter_object-Keeps, assign-Keeps,
          realloc_producer-deleted, report_realloc-Keeps,
        )
        depth 18

  pub fill_object-Keeps : (a n bt : ℕ) (s : Mut W C) → Keeps TableInv s (fill_object env a n bt s)
  unfolding fill_object
  fill_object-Keeps a n bt s = search (assign-Keeps, make_producer-deleted)

  pub hit_and_collect-Keeps : (n : ℕ) (s : Mut W C) → Keeps TableInv s (hit_and_collect env n s)
  unfolding hit_and_collect
  hit_and_collect-Keeps n s = search (keeping, keeping_frame) depth 14

  pub copy_object-Keeps :
      (old : Resource) (a n : ℕ) (s : Mut W C) → Keeps TableInv s (copy_object env old a n s)
  unfolding copy_object
  copy_object-Keeps old a n s = search (keeping, keeping_frame) depth 14

  pub realloc_malloc_no_free-Keeps :
      (n bt : ℕ) (s : Mut W C) → Keeps TableInv s (realloc_malloc_no_free env n bt s)
  unfolding realloc_malloc_no_free
  realloc_malloc_no_free-Keeps n bt s =
      search
        (
          keeping, keeping_frame, realloc_failure-Keeps, enter_object-Keeps, fill_object-Keeps,
          hit_and_collect-Keeps,
        )
        depth 18

  pub run_realloc-Same :
      (b : Bool) (n a : ℕ) (s : Mut W C) → Same s (final (run_realloc env b n a s))
  unfolding run_realloc do_action
  run_realloc-Same b n a s = ground arith

  pub realloc_null-Keeps : (n a bt : ℕ) (s : Mut W C) → Keeps TableInv s (realloc_null env n a bt s)
  unfolding realloc_null
  realloc_null-Keeps n a bt s =
      search (keeping, keeping_frame, run_realloc-Same, realloc_malloc-Keeps) depth 14

  pub realloc_unknown-Keeps :
      (a n return_addr bt : ℕ) (s : Mut W C)
      → Keeps TableInv s (realloc_unknown env a n return_addr bt s)
  unfolding realloc_unknown
  realloc_unknown-Keeps a n return_addr bt s =
      search (keeping, keeping_frame, run_realloc-Same, realloc_malloc_no_free-Keeps) depth 14

  pub close_old-Same : (obj : Resource) (s : Mut W C) → Same s (final (close_old env obj s))
  unfolding close_old close_backtrace
  close_old-Same obj s = ground arith

  pub move_object-Same :
      (obj : Resource) (a : ℕ) (s : Mut W C) → Same s (final (move_object env obj a s))
  unfolding move_object
  move_object-Same obj a s = ground arith

  pub reallocated-deleted :
      (b : Bool) (a n bt : ℕ) (r : Resource) → deleted (reallocated env b a n bt r) ≡ false
  unfolding reallocated
  reallocated-deleted b a n bt r = ground arith

  -- The object is live where memory is really freed.
  pub enter_new-Keeps :
      (obj : Resource) (b : Bool) (a n bt : ℕ) (s : Mut W C)
      → lookup s.resources obj.addr ≡ some obj
      → s.flags.free ≡ true
      → Keeps TableInv s
          (ok tt (record s { resources = assign obj.addr (reallocated env b a n bt) s.resources }))
  enter_new-Keeps obj b a n bt s found free = record {
    holds = λ v. ground (
      arith,
      assign-Counted obj.addr (reallocated env b a n bt) s.resources
          (λ r h.
            reallocated-deleted b a n bt r
            ∙ sym (lookup-live s.resources obj.addr r v.counted (v.mode ∙ free) h))
          v.counted,
    );
  }

  pub leave_object-Same :
      (obj : Resource) (a n : ℕ) (s : Mut W C) → Same s (final (leave_object env obj a n s))
  unfolding leave_object
  leave_object-Same obj a n s =
      Same-bind (maybe_release env obj.size s) _ s (maybe_release-Same env obj.size s) λ _ t.
        Same-bind (move_object env obj a t) _ t (move_object-Same obj a t) λ _ u.
          Same-bind (maybe_collect env n u) _ u (maybe_collect-Same env n u)
            λ _ v. close_old-Same obj v

  pub assert-Same : (b : Bool) (s : Mut W C) → Same s (final (assert b s))
  assert-Same true s = record { resources = refl; flags = refl }
  assert-Same false s = record { resources = refl; flags = refl }
