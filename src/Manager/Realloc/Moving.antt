-- ===== src/Manager/Realloc/Moving.antt =====
-- `mut_realloc_malloc` and `mut_realloc_realloc` of src/mut.c, and the steps that the other realloc
-- functions share with them.
use mut.Base.{
  ℕ, Bool, not, ◌||◌, none, some, Cmd, pure, failed, get, modify, assert, when, ◌>>=◌, ◌>>◌,
  ◌on_fail◌, if◌then◌else◌, ◌==◌,
}
use mut.Process.{read_result, memset}
use mut.Backtrace.Store.{close_any}
use mut.Resources.Defs.{ActionId, owner, Resource, deleted, is_new, assign}
use mut.Manager.State.{Mut, Env, lift, set_backtraces, or_halt}
use mut.Manager.Reports.{log_realloc_failure, realloc_trace}
use mut.Manager.Zones.{round_up}
use mut.Manager.Common.{
  view, close_backtrace, maybe_usage, create_resource, maybe_collect, maybe_release,
}
use mut.Manager.Producers.{maybe_hit, maybe_install}

module _ {W C : Type 0} (env : Env W C) where
  abbrev realloc : ActionId
  realloc = ActionId.realloc

  -- `mut_realloc_failure`
  unfoldable pub realloc_failure : (new_size old_addr old_size bt : ℕ) → Cmd (Mut W C) (Unit {0})
  realloc_failure new_size old_addr old_size bt = do
    s ← get (λ s. s)
    lift (log_realloc_failure env.os (view s) new_size old_addr old_size bt)
    close_backtrace bt

  abbrev pub assert_backtrace : ℕ → Cmd (Mut W C) (Unit {0})
  assert_backtrace bt = do assert ((← get (λ s. s.flags.backtrace)) || (bt == 0))

  -- Zones and table entry of the object that a realloc has made: the steps of
  -- `mut_realloc_malloc` and `mut_realloc_malloc_no_free` that can end in `goto free_backtrace`.
  unfoldable pub enter_object : (obj_addr obj_size bt : ℕ) → Cmd (Mut W C) ℕ
  enter_object obj_addr obj_size bt = do
    shown ← maybe_install env obj_addr (round_up obj_size)
    obj ← create_resource env shown
    assert (is_new obj)
    pure shown

  -- The assignments of `mut_realloc_malloc`: the backtrace is kept where none are wanted.
  unfoldable pub realloc_producer : Bool → (size bt : ℕ) → Resource → Resource
  realloc_producer backtraces size bt r = record r {
    producer = owner (some realloc) (if backtraces then bt else r.producer.backtrace);
    size = size;
  }

  -- The trace and the usage report at the end of three of the realloc functions.
  unfoldable pub report_realloc :
      (old_addr old_size new_size obj_addr bt : ℕ) → Cmd (Mut W C) (Unit {0})
  report_realloc old_addr old_size new_size obj_addr bt = do
    s ← get (λ s. s)
    lift (realloc_trace env.os (view s) old_addr old_size new_size obj_addr bt)
    maybe_usage env

  -- `mut_realloc_malloc`: realloc(0, n)
  unfoldable pub realloc_malloc : (obj_size bt : ℕ) → Cmd (Mut W C) (Unit {0})
  unfolding realloc_failure enter_object realloc_producer report_realloc
  realloc_malloc obj_size bt = do
    assert_backtrace bt
    obj_addr ← lift (read_result env.os) on_fail close_backtrace bt
    maybe_hit env realloc
    if obj_addr == 0 then (do realloc_failure obj_size 0 0 bt; failed) else (do
      shown ← enter_object obj_addr obj_size bt on_fail close_backtrace bt
      maybe_collect env obj_size
      modify λ s. record s {
        resources = assign shown (realloc_producer s.flags.backtrace obj_size bt) s.resources;
      }
      report_realloc 0 0 obj_size shown bt)

  -- The assignments of `mut_realloc_realloc` to the object, made at once: what comes between them
  -- in the code can end MUT, but cannot return.
  unfoldable pub reallocated : Bool → (new_addr new_size bt : ℕ) → Resource → Resource
  reallocated backtraces new_addr new_size bt r = record {
    addr = new_addr;
    size = new_size;
    producer = owner (some realloc) (if backtraces then bt else r.producer.backtrace);
    consumer = owner none (if backtraces then 0 else r.consumer.backtrace);
  }

  -- With backtraces: the old ones are closed.
  unfoldable pub close_old : Resource → Cmd (Mut W C) (Unit {0})
  close_old obj = do
    s ← get (λ s. s)
    when s.flags.backtrace (do
      bts ← or_halt (close_any obj.consumer.backtrace s.backtraces)
      set_backtraces bts
      close_backtrace obj.producer.backtrace)

  -- Where the object has moved, its old memory is zeroed on request.
  unfoldable pub move_object : Resource → (new_addr : ℕ) → Cmd (Mut W C) (Unit {0})
  move_object obj new_addr = do
    s ← get (λ s. s)
    if obj.addr == new_addr
        then assert (not (deleted obj))
        else when s.flags.zero (lift (memset env.os obj.addr 0 obj.size))

  -- What `mut_realloc_realloc` does before it writes to the entry.
  unfoldable pub leave_object : Resource → (new_addr new_size : ℕ) → Cmd (Mut W C) (Unit {0})
  unfolding move_object close_old
  leave_object obj new_addr new_size = do
    maybe_release env obj.size
    move_object obj new_addr
    maybe_collect env new_size
    close_old obj

  -- The rest of `mut_realloc_realloc`, once the target's realloc has given memory.
  unfoldable pub move_entry : Resource → (new_addr new_size bt : ℕ) → Cmd (Mut W C) (Unit {0})
  unfolding leave_object reallocated report_realloc
  move_entry obj new_addr new_size bt = do
    leave_object obj new_addr new_size
    modify λ s. record s {
      resources = assign obj.addr (reallocated s.flags.backtrace new_addr new_size bt) s.resources;
    }
    report_realloc obj.addr obj.size new_size new_addr bt

  -- `mut_realloc_realloc`: realloc(p, n) where memory is really freed.
  unfoldable pub realloc_realloc : Resource → (new_size bt : ℕ) → Cmd (Mut W C) (Unit {0})
  unfolding realloc_failure move_entry
  realloc_realloc obj new_size bt = do
    assert (← get (λ s. s.flags.free))
    assert_backtrace bt
    new_addr ← lift (read_result env.os)
    maybe_hit env realloc
    if new_addr == 0
        then (do realloc_failure new_size obj.addr obj.size bt; failed)
        else move_entry obj new_addr new_size bt
