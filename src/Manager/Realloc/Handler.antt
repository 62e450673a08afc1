-- ===== src/Manager/Realloc/Handler.antt =====
-- `mut_do_realloc` of src/mut.c, and the realloc functions for memory that is kept.
use mut.Base.{
  ℕ, Bool, true, false, not, none, some, Cmd, failed, get, modify, assert, when, ◌>>=◌, ◌>>◌,
  ◌on_fail◌, if◌then◌else◌, ◌==◌, ltb,
}
use mut.Process.{read_arg, write_arg, function_return_addr, read_result, memset, memcpy}
use mut.Resources.Defs.{ActionId, Resource, lookup, deleted, is_new, make_producer, assign}
use mut.Manager.State.{Mut, Env, lift}
use mut.Manager.Reports.{log_fum, log_ffm, realloc_trace, realloc_fum_trace}
use mut.Manager.Zones.{round_up}
use mut.Manager.Common.{
  view, close_backtrace, delete_resource, do_action, produce_backtrace, create_resource,
  maybe_collect, maybe_release,
}
use mut.Manager.Producers.{maybe_hit}
use mut.Manager.Realloc.Moving.{
  assert_backtrace, realloc_failure, enter_object, report_realloc, realloc_malloc, realloc_realloc,
}

module _ {W C : Type 0} (env : Env W C) where
  -- The copy of `mut_realloc_realloc_no_free`, and the zeroing of what was copied.
  unfoldable pub copy_object : Resource → (obj_addr new_size : ℕ) → Cmd (Mut W C) (Unit {0})
  copy_object old obj_addr new_size = do
    s ← get (λ s. s)
    lift (memcpy env.os obj_addr old.addr (if ltb old.size new_size then old.size else new_size))
    when s.flags.zero (lift (memset env.os old.addr 0 old.size))

  -- The statistics of `mut_realloc_realloc_no_free` and `mut_realloc_malloc_no_free`.
  unfoldable pub hit_and_collect : (size : ℕ) → Cmd (Mut W C) (Unit {0})
  hit_and_collect size = do maybe_hit env ActionId.realloc; maybe_collect env size

  unfoldable pub fill_object : (obj_addr size bt : ℕ) → Cmd (Mut W C) (Unit {0})
  fill_object obj_addr size bt = modify λ s. record s {
    resources = assign obj_addr (make_producer ActionId.realloc size bt) s.resources;
  }

  -- The rest of `mut_realloc_realloc_no_free`, once the target's realloc has given memory.
  unfoldable pub replace_object : Resource → (obj_addr new_size bt : ℕ) → Cmd (Mut W C) (Unit {0})
  unfolding copy_object hit_and_collect fill_object report_realloc
  replace_object old obj_addr new_size bt = do
    maybe_release env old.size
    delete_resource old ActionId.realloc bt
    obj ← create_resource env obj_addr on_fail close_backtrace bt
    assert (is_new obj)
    fill_object obj_addr new_size bt
    copy_object old obj_addr new_size
    hit_and_collect new_size
    report_realloc env old.addr old.size new_size obj_addr bt

  -- `mut_realloc_realloc_no_free`: realloc(p, n) where memory is kept.
  unfoldable pub realloc_realloc_no_free : Resource → (new_size bt : ℕ) → Cmd (Mut W C) (Unit {0})
  unfolding realloc_failure replace_object
  realloc_realloc_no_free old new_size bt = do
    assert_backtrace env bt
    obj_addr ← lift (read_result env.os) on_fail close_backtrace bt
    assert (not (old.addr == obj_addr))
    if obj_addr == 0
        then (do realloc_failure env new_size old.addr old.size bt; failed)
        else replace_object old obj_addr new_size bt

  -- `mut_realloc_malloc_no_free`: realloc(p, n) of an unknown p, turned into realloc(0, n).
  unfoldable pub realloc_malloc_no_free : (new_size bt : ℕ) → Cmd (Mut W C) (Unit {0})
  unfolding realloc_failure enter_object hit_and_collect fill_object
  realloc_malloc_no_free new_size bt = do
    assert_backtrace env bt
    obj_addr ← lift (read_result env.os) on_fail close_backtrace bt
    if obj_addr == 0 then (do realloc_failure env new_size 0 0 bt; failed) else (do
      shown ← enter_object env obj_addr new_size bt on_fail close_backtrace bt
      fill_object shown new_size bt
      hit_and_collect new_size
      s ← get (λ s. s)
      lift (realloc_trace env.os (view s) 0 0 new_size shown bt))

  -- The arguments are changed, then the target's realloc runs: each step can end in
  -- `goto free_backtrace`. `null_first` says whether the address is replaced by 0.
  unfoldable pub run_realloc :
      (null_first : Bool) → (new_size return_addr : ℕ) → Cmd (Mut W C) (Unit {0})
  run_realloc null_first new_size return_addr = do
    s ← get (λ s. s)
    when null_first (lift (write_arg env.os 0 0))
    when s.flags.check (lift (write_arg env.os 1 (round_up new_size)))
    do_action env return_addr ActionId.realloc

  -- The address is not in the table.
  unfoldable pub realloc_unknown : (obj_addr new_size return_addr bt : ℕ) → Cmd (Mut W C) (Unit {0})
  unfolding run_realloc
  realloc_unknown obj_addr new_size return_addr bt = do
    maybe_hit env ActionId.realloc
    s ← get (λ s. s)
    lift (log_fum env.os (view s) obj_addr ActionId.realloc bt)
    if s.flags.free
        then (do
          when s.flags.trace (lift (realloc_fum_trace env.os (view s) obj_addr new_size))
          close_backtrace bt
          do_action env return_addr ActionId.realloc)
        else (do
          run_realloc true new_size return_addr on_fail close_backtrace bt
          realloc_malloc_no_free new_size bt)

  -- The address is in the table.
  unfoldable pub realloc_known :
      Resource → (obj_addr new_size return_addr bt : ℕ) → Cmd (Mut W C) (Unit {0})
  unfolding run_realloc
  realloc_known obj obj_addr new_size return_addr bt = do
    s ← get (λ s. s)
    when (deleted obj) (lift (log_ffm env.os (view s) obj_addr ActionId.realloc obj bt))
    run_realloc (not s.flags.free) new_size return_addr on_fail close_backtrace bt
    if s.flags.free
        then realloc_realloc env obj new_size bt
        else realloc_realloc_no_free obj new_size bt

  unfoldable pub realloc_null : (new_size return_addr bt : ℕ) → Cmd (Mut W C) (Unit {0})
  unfolding run_realloc
  realloc_null new_size return_addr bt = do
    run_realloc false new_size return_addr on_fail close_backtrace bt
    realloc_malloc env new_size bt

  -- What is done once the arguments are known.
  unfoldable pub realloc_addr : (obj_addr new_size return_addr bt : ℕ) → Cmd (Mut W C) (Unit {0})
  unfolding realloc_null realloc_unknown realloc_known
  realloc_addr obj_addr new_size return_addr bt = do
    s ← get (λ s. s)
    if obj_addr == 0
        then realloc_null new_size return_addr bt
        else elim (lookup s.resources obj_addr) [
          | none ↦ realloc_unknown obj_addr new_size return_addr bt
          | some obj ↦ realloc_known obj obj_addr new_size return_addr bt
        ]

  -- `mut_do_realloc`
  unfoldable pub do_realloc : Cmd (Mut W C) (Unit {0})
  unfolding realloc_addr
  do_realloc = do
    obj_addr ← lift (read_arg env.os 0)
    new_size ← lift (read_arg env.os 1)
    return_addr ← lift (function_return_addr env.os)
    bt ← produce_backtrace env
    realloc_addr obj_addr new_size return_addr bt
