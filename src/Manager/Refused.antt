-- ===== src/Manager/Refused.antt =====
-- realloc of an object that has been freed, where memory is kept (src/mut.c).
use mut.Base.{
  ℕ, ◌≡◌, ◌≢◌, Bool, true, false, not, ok, when, after_fail, arith, sym, ap, ◌∙◌, assert, ◌||◌,
  ◌==◌, if◌then◌else◌, Cmd, failed, ◌>>◌,
}
use mut.Process.{read_result}
use mut.Resources.Defs.{ActionId, Resource, deleted, delete, really_delete, mark_as_free}
use mut.Manager.State.{Mut, Env, lift}
use mut.Manager.Reports.{log_ffm}
use mut.Manager.Frame.{after_ok}
use mut.Manager.Common.{view, close_backtrace, delete_resource, maybe_release}
use mut.Manager.Realloc.{
  replace_object, realloc_realloc, realloc_realloc_no_free, realloc_failure, run_realloc,
  realloc_known,
}

module _ {W C : Type 0} (env : Env W C) where
  delete_resource-deleted :
      (obj : Resource) (id : ActionId) (bt : ℕ) (s t : Mut W C)
      → deleted obj ≡ true
      → delete_resource obj id bt s ≢ ok tt t
  unfolding delete_resource delete really_delete mark_as_free
  delete_resource-deleted obj id bt s t d h = ground arith

  replace_object-deleted :
      (old : Resource) (a n bt : ℕ) (s t : Mut W C)
      → deleted old ≡ true
      → replace_object env old a n bt s ≢ ok tt t
  unfolding replace_object
  replace_object-deleted old a n bt s t d h =
      after_ok (maybe_release env old.size s) _ h λ _ u _ h₁.
        after_ok (delete_resource old ActionId.realloc bt u) _ h₁
          λ _ v h₂ _. delete_resource-deleted old ActionId.realloc bt u v d h₂

  failed_if :
      (b : Bool) (m n : Cmd (Mut W C) (Unit {0})) (s t : Mut W C)
      → ((u : Mut W C) → m u ≢ ok tt t)
      → ((u : Mut W C) → n u ≢ ok tt t)
      → (if b then m else n) s ≢ ok tt t
  failed_if true m n s t h k = h s
  failed_if false m n s t h k = k s

  realloc_realloc_no_free-deleted :
      (old : Resource) (n bt : ℕ) (s t : Mut W C)
      → deleted old ≡ true
      → realloc_realloc_no_free env old n bt s ≢ ok tt t
  unfolding realloc_realloc_no_free
  realloc_realloc_no_free-deleted old n bt s t d h =
      after_ok (assert (s.flags.backtrace || (bt == 0)) s) _ h λ _ u _ h₁.
        after_ok (after_fail (lift (read_result env.os) u) (close_backtrace bt)) _ h₁ λ a v _ h₂.
          after_ok (assert (not (old.addr == a)) v) _ h₂ λ _ w _ h₃.
            failed_if (a == 0) (do realloc_failure env n old.addr old.size bt; failed)
              (replace_object env old a n bt) w t
              (λ x e. after_ok (realloc_failure env n old.addr old.size bt x) _ e λ _ y _ f. cc)
              (λ x e. replace_object-deleted old a n bt x t d e) h₃

  -- Where memory is kept, the handling of a realloc of a listed object that has been freed never
  -- succeeds.
  pub realloc_known-deleted :
      (obj : Resource) (a n return_addr bt : ℕ) (s t : Mut W C)
      → s.flags.free ≡ false
      → deleted obj ≡ true
      → realloc_known env obj a n return_addr bt s ≢ ok tt t
  unfolding realloc_known
  realloc_known-deleted obj a n return_addr bt s t free d h =
      after_ok (when (deleted obj) (lift (log_ffm env.os (view s) a ActionId.realloc obj bt)) s) _ h
        λ _ u _ h₁.
          after_ok
            (after_fail (run_realloc env (not s.flags.free) n return_addr u) (close_backtrace bt)) _
            h₁
            λ _ v _ h₂. realloc_realloc_no_free-deleted obj n bt v t d (
              sym (
                ap
                  (λ b.
                    (if b
                        then realloc_realloc env obj n bt
                        else realloc_realloc_no_free env obj n bt)
                      v)
                  free)
              ∙ h₂)
