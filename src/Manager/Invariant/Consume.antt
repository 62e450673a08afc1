-- ===== src/Manager/Invariant/Consume.antt =====
-- The counts of the table through `mut_do_consumer` of src/mut.c.
use mut.Base.{
  ℕ, ◌≡◌, none, some, Cmd, final, arith, Keeps, keeping, Keeps-bind, Keeps-if, Keeps-option,
  after_fail, ◌==◌,
}
use mut.Resources.Defs.{ActionId, Resource, Resources, lookup, deleted}
use mut.Resources.Count.{find-addr}
use mut.Manager.State.{Mut, Env, lift}
use mut.Manager.Reports.{free_trace}
use mut.Log.{log_ulong}
use mut.Manager.Frame.{Same, Keeps-first, within-Same, maybe_release-Same, on_fail_close-Same}
use mut.Manager.Common.{view, maybe_release, close_backtrace}
use mut.Manager.Consumer.{
  consume_addr, consume_null, consume_unknown, consume_deleted, consume_live, consume_known,
  check_and_zero, do_consumer,
}
use mut.Manager.Invariant.{TableInv, TableInv-closed, keeping_frame, delete_resource-Keeps}

-- A resource is found under its own address.
pub lookup_self :
    (rs : Resources) (a : ℕ) (r : Resource) → lookup rs a ≡ some r → lookup rs r.addr ≡ some r
unfolding lookup
lookup_self rs a r h = ground (arith, find-addr a rs.elems r h)

module _ {W C : Type 0} (env : Env W C) (consumer : ActionId) where
  pub check_and_zero-Same :
      (obj : Resource) (a bt : ℕ) (s : Mut W C)
      → Same s (final (check_and_zero env consumer obj a bt s))
  unfolding check_and_zero
  check_and_zero-Same obj a bt s = ground arith

  consume_null-Keeps :
      (return_addr bt : ℕ) (s : Mut W C)
      → Keeps TableInv s (consume_null env consumer return_addr bt s)
  unfolding consume_null
  consume_null-Keeps return_addr bt s = search (keeping, keeping_frame) depth 14

  consume_unknown-Keeps :
      (a return_addr bt : ℕ) (s : Mut W C)
      → Keeps TableInv s (consume_unknown env consumer a return_addr bt s)
  unfolding consume_unknown
  consume_unknown-Keeps a return_addr bt s = search (keeping, keeping_frame) depth 14

  consume_deleted-Keeps :
      (obj : Resource) (a return_addr bt : ℕ) (s : Mut W C)
      → Keeps TableInv s (consume_deleted env consumer obj a return_addr bt s)
  unfolding consume_deleted
  consume_deleted-Keeps obj a return_addr bt s = search (keeping, keeping_frame) depth 14

  consume_live-Keeps :
      (obj : Resource) (a return_addr bt : ℕ) (s : Mut W C)
      → lookup s.resources a ≡ some obj
      → Keeps TableInv s (consume_live env consumer obj a return_addr bt s)
  unfolding consume_live
  consume_live-Keeps obj a return_addr bt s found =
      Keeps-first (maybe_release env obj.size s) _ TableInv-closed
        (maybe_release-Same env obj.size s)
        λ _ t e.
          Keeps-first (after_fail (check_and_zero env consumer obj a bt t) (close_backtrace bt)) _
            TableInv-closed
            (on_fail_close-Same (check_and_zero env consumer obj a bt t) bt t
              (check_and_zero-Same obj a bt t))
            λ _ u f.
              Keeps-bind
                (delete_resource-Keeps env obj consumer bt u
                  (lookup_self u.resources a obj (ground (arith, e.resources, f.resources))))
                λ _ v. search (keeping, keeping_frame) depth 14

  consume_known-Keeps :
      (obj : Resource) (a return_addr bt : ℕ) (s : Mut W C)
      → lookup s.resources a ≡ some obj
      → Keeps TableInv s (consume_known env consumer obj a return_addr bt s)
  unfolding consume_known
  consume_known-Keeps obj a return_addr bt s found =
      Keeps-first (lift (free_trace env.os (view s) consumer a (log_ulong env.os obj.size)) s) _
        TableInv-closed
        (within-Same (free_trace env.os (view s) consumer a (log_ulong env.os obj.size) s.machine)
          s)
        λ _ t e.
          Keeps-if (deleted obj) (consume_deleted env consumer obj a return_addr bt)
            (consume_live env consumer obj a return_addr bt)
            (λ _. consume_deleted-Keeps obj a return_addr bt t)
            (λ _. consume_live-Keeps obj a return_addr bt t (rw e.resources found))

  consume_addr-Keeps :
      (a return_addr bt : ℕ) (s : Mut W C)
      → Keeps TableInv s (consume_addr env consumer a return_addr bt s)
  unfolding consume_addr
  consume_addr-Keeps a return_addr bt s =
      Keeps-if (a == 0) (consume_null env consumer return_addr bt)
        (elim (lookup s.resources a) as (λ _. Cmd (Mut W C) (Unit {0})) [
          | none ↦ consume_unknown env consumer a return_addr bt
          | some obj ↦ consume_known env consumer obj a return_addr bt
        ])
        (λ _. consume_null-Keeps return_addr bt s)
        λ _.
          Keeps-option (lookup s.resources a) (consume_unknown env consumer a return_addr bt)
            (λ obj. consume_known env consumer obj a return_addr bt)
            (λ _. consume_unknown-Keeps a return_addr bt s)
            (λ obj e. consume_known-Keeps obj a return_addr bt s e)

  -- The counts of the table through `mut_do_consumer`.
  pub do_consumer-Keeps : (s : Mut W C) → Keeps TableInv s (do_consumer env consumer s)
  unfolding do_consumer
  do_consumer-Keeps s = search (keeping, keeping_frame, consume_addr-Keeps) depth 14
