-- ===== src/Manager/Recorded.antt =====
-- The table of resources before and after the handlers of src/mut.c.
use mut.Base.{
  ℕ, String, ◌≡◌, refl, sym, ap, subst, Option, ◌∙◌, Bool, true, false, not, none, some, List, ok,
  arith, ◌==◌, if◌then◌else◌, Cmd, after_fail,
}
use mut.Exec.Symtab.{mem_malloc}
use mut.Backtrace.Store.{Store}
use mut.Resources.Defs.{
  ActionId, Resource, Resources, owner, nobody, lookup, insert, assign, fresh, make_producer,
  is_new, delete,
}
use mut.Resources.Count.{IsValid}
use mut.Resources.Lookup.{remains, lookup-insert, lookup-assign, lookup-delete}
use mut.Manager.State.{Mut, Env, lift}
use mut.Manager.Reports.{alloc_trace}
use mut.Manager.Frame.{
  after_ok, ok-Same, within-Same, maybe_collect-Same, maybe_usage-Same, maybe_release-Same,
  close_backtrace-Same, act_or_skip-Same, on_fail_close-Same,
}
use mut.Manager.Common.{
  view, create_resource, delete_resource, maybe_collect, maybe_usage, maybe_release,
  close_backtrace,
}
use mut.Manager.Producers.{producer_success}
use mut.Manager.Consumer.{consume_live, check_and_zero}
use mut.Manager.Invariant.Consume.{check_and_zero-Same}

module _ {W C : Type 0} (env : Env W C) where
  ok-else :
      (b : Bool) (m n : Cmd (Mut W C) (Unit {0})) (s t : Mut W C)
      → b ≡ false
      → (if b then m else n) s ≡ ok tt t
      → n s ≡ ok tt t
  ok-else true m n s t e h = cc
  ok-else false m n s t e h = h

  fresh-is_new : (junk a : ℕ) → not (is_new (fresh junk a)) ≡ false
  unfolding fresh
  fresh-is_new junk a = refl

  -- The table once the new entry is filled in.
  lookup-filled :
      (junk : ℕ) (id : ActionId) (size a bt b : ℕ) (rs : Resources)
      → lookup (assign a (make_producer id size bt) (insert junk a rs)) b ≡ (
          if a == b
          then some
              (record { addr = a; size = size; producer = owner (some id) bt; consumer = nobody })
          else lookup rs b)
  unfolding make_producer fresh
  lookup-filled junk id size a bt b rs = ground (
    arith,
    lookup-assign a b (make_producer id size bt) (insert junk a rs) (λ r. refl),
    lookup-insert junk a b rs,
  )

  create_resource_new :
      (a : ℕ) (s t : Mut W C) (obj : Resource)
      → lookup s.resources a ≡ none
      → create_resource env a s ≡ ok obj t
      → (t.resources ≡ insert env.junk a s.resources) × (obj ≡ fresh env.junk a)
  unfolding create_resource mem_malloc
  create_resource_new a s t obj new h = ground arith

  abbrev filled : ActionId → (size a bt : ℕ) → Mut W C → Mut W C
  filled id size a bt v = record v { resources = assign a (make_producer id size bt) v.resources }

  -- Where what follows a successful malloc or calloc succeeds, and the table did not list the new
  -- address, the table lists there the object with its size, its routine and its backtrace, not
  -- deleted; every other address leads to what it led to before.
  pub producer_success-lookup :
      (code : String) (id : ActionId) (sizes : List ℕ) (size a bt b : ℕ) (s t : Mut W C)
      → lookup s.resources a ≡ none
      → producer_success env code id sizes size a bt s ≡ ok tt t
      → lookup t.resources b ≡ (
          if a == b
          then some
              (record { addr = a; size = size; producer = owner (some id) bt; consumer = nobody })
          else lookup s.resources b)
  unfolding producer_success
  producer_success-lookup code id sizes size a bt b s t new h =
      after_ok (maybe_collect env size s) _ h λ _ u e h₁.
        after_ok (create_resource env a u) _ h₁ λ obj v e₂ h₂.
          let (entered, is_fresh) =
            create_resource_new a u v obj
              (ap (λ rs. lookup rs a) (ok-Same _ tt s u (maybe_collect-Same env size s) e).resources
                ∙ new)
              e₂ in
          let h₃ =
            ok-else (not (is_new obj)) _ _ v t
              (ap (λ o. not (is_new o)) is_fresh ∙ fresh-is_new env.junk a) h₂ in
          after_ok (lift (alloc_trace env.os (view v) id sizes a bt) (filled id size a bt v)) _ h₃
            λ _ w e₄ h₄.
              ap (λ rs. lookup rs b)
                ((ok-Same _ tt w t (maybe_usage-Same env w) h₄).resources
                  ∙ (ok-Same _ tt (filled id size a bt v) w
                      (within-Same (alloc_trace env.os (view v) id sizes a bt v.machine)
                        (filled id size a bt v))
                      e₄).resources
                  ∙ ap (assign a (make_producer id size bt)) (
                      entered
                      ∙ ap (insert env.junk a)
                          (ok-Same _ tt s u (maybe_collect-Same env size s) e).resources))
              ∙ lookup-filled env.junk id size a bt b s.resources

  deleted-lookup :
      (obj : Resource) (c : ActionId) (bt b : ℕ) (s t : Mut W C)
      → IsValid s.resources
      → lookup s.resources obj.addr ≡ some obj
      → delete_resource obj c bt s ≡ ok tt t
      → lookup t.resources b
        ≡ (if obj.addr == b then remains s.resources.really_free c bt obj else lookup s.resources b)
  unfolding delete_resource
  deleted-lookup obj c bt b s t v found h = go (delete obj c bt s.resources s.backtraces) refl
    where
      go :
          (o : Option (Resources × Store))
          → delete obj c bt s.resources s.backtraces ≡ o
          → lookup t.resources b ≡ (
              if obj.addr == b
              then remains s.resources.really_free c bt obj
              else lookup s.resources b)
      go none e = ground arith
      go (some (rs, bts)) e =
          ground (arith, lookup-delete obj c bt s.resources s.backtraces rs bts b v found e)

  -- Where free or cfree of a listed object of a valid table, once it has been found not to be
  -- deleted, succeeds, the address leads to nothing if memory is really freed, and otherwise to
  -- the object with its consumer; every other address leads to what it led to before.
  pub consume_live-lookup :
      (c : ActionId) (obj : Resource) (return_addr bt b : ℕ) (s t : Mut W C)
      → IsValid s.resources
      → lookup s.resources obj.addr ≡ some obj
      → consume_live env c obj obj.addr return_addr bt s ≡ ok tt t
      → lookup t.resources b
        ≡ (if obj.addr == b then remains s.resources.really_free c bt obj else lookup s.resources b)
  unfolding consume_live
  consume_live-lookup c obj return_addr bt b s t valid found h =
      after_ok (maybe_release env obj.size s) _ h λ _ u e₁ h₁.
        after_ok (after_fail (check_and_zero env c obj obj.addr bt u) (close_backtrace bt)) _ h₁
          λ _ v e₂ h₂. after_ok (delete_resource obj c bt v) _ h₂ λ _ w e₃ h₃.
            after_ok (close_backtrace bt w) _ h₃ λ _ x e₄ h₄.
              after_ok (maybe_usage env x) _ h₄ λ _ y e₅ h₅.
                let before : v.resources ≡ s.resources =
                  (ok-Same _ tt u v
                    (on_fail_close-Same (check_and_zero env c obj obj.addr bt u) bt u
                      (check_and_zero-Same env c obj obj.addr bt u))
                    e₂).resources
                  ∙ (ok-Same _ tt s u (maybe_release-Same env obj.size s) e₁).resources in
                let after : t.resources ≡ w.resources =
                  (ok-Same _ tt y t (act_or_skip-Same env return_addr c y) h₅).resources
                  ∙ (ok-Same _ tt x y (maybe_usage-Same env x) e₅).resources
                  ∙ (ok-Same _ tt w x (close_backtrace-Same bt w) e₄).resources in
                ap (λ rs. lookup rs b) after
                ∙ deleted-lookup obj c bt b v w (subst IsValid (sym before) valid)
                    (ap (λ rs. lookup rs obj.addr) before ∙ found) e₃
                ∙ ap (λ rs. if obj.addr == b then remains rs.really_free c bt obj else lookup rs b)
                    before
