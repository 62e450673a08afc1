-- ===== src/Manager/Reports/Calls.antt =====
-- The records of src/mut.c about single calls of the routines, and the final statistics.
use mut.Base.{ℕ, String, not, ◌||◌, List, [], ◌∷◌, Cmd, skip, assert, when, ◌>>◌, ◌==◌}
use mut.Machine.{Os, Machine}
use mut.Log.{
  log_error, log_warning, log_info, log_string, log_int, log_uint, log_ulong, log_uint_hex,
  log_exec_addr, argument, finish,
}
use mut.Machine.{Item}
use mut.Counter.{CounterOps}
use mut.Resources.Defs.{ActionId, malloc, calloc, realloc, free, cfree, Resource, deleted}
use mut.Manager.State.{Stats, Stat, Actions, action_name}
use mut.Manager.Reports.Tables.{View, maybe_backtrace, log_owner}

module _ {W : Type 0} (os : Os W) where
  -- The arguments of a trace or a warning are the same numbers in each place that logs them.
  unfoldable pub log_uints : List ℕ → Cmd (Machine W) (Unit {0})
  log_uints [] = skip
  log_uints (n ∷ ns) = do log_uint os n; log_uints ns

  -- `mut_malloc_failure` (sizes: the size) and `mut_calloc_failure` (sizes: count and size).
  unfoldable pub alloc_failure :
      View → (code : String) → ActionId → (sizes : List ℕ) → ℕ → Cmd (Machine W) (Unit {0})
  unfolding log_uints maybe_backtrace
  alloc_failure v code id sizes bt = do
    when v.flags.trace (do
      log_info os "trace"
      log_string os (action_name v.usage_name id)
      log_uints sizes
      log_exec_addr os 0
      maybe_backtrace os v bt
      finish os)
    log_warning os code
    log_string os (action_name v.usage_name id)
    log_uints sizes
    maybe_backtrace os v bt
    finish os

  -- The trace at the end of `mut_malloc_success` and `mut_calloc_success`.
  unfoldable pub alloc_trace :
      View → ActionId → (sizes : List ℕ) → (addr bt : ℕ) → Cmd (Machine W) (Unit {0})
  unfolding log_uints maybe_backtrace
  alloc_trace v id sizes addr bt = when v.flags.trace (do
    log_info os "trace"
    log_string os (action_name v.usage_name id)
    log_uints sizes
    log_exec_addr os addr
    maybe_backtrace os v bt
    finish os)

  -- The record MMM or CMM: the new object is already in the table.
  unfoldable pub log_clash :
      View → (code : String) → ActionId → Resource → ℕ → Cmd (Machine W) (Unit {0})
  unfolding log_owner
  log_clash v code id obj addr = do
    log_error os code
    log_string os (action_name v.usage_name id)
    log_owner os v obj.producer
    log_exec_addr os addr
    finish os

  -- `mut_log_fum`
  unfoldable pub log_fum : View → ℕ → ActionId → ℕ → Cmd (Machine W) (Unit {0})
  unfolding maybe_backtrace
  log_fum v obj_addr consumer bt = do
    log_error os "FUM"
    log_string os (action_name v.usage_name consumer)
    log_exec_addr os obj_addr
    maybe_backtrace os v bt
    finish os

  -- `mut_log_ffm`
  unfoldable pub log_ffm : View → ℕ → ActionId → Resource → ℕ → Cmd (Machine W) (Unit {0})
  unfolding maybe_backtrace log_owner
  log_ffm v obj_addr consumer obj bt = do
    assert (not v.flags.free)
    assert (deleted obj)
    log_error os "FFM"
    log_string os (action_name v.usage_name consumer)
    log_exec_addr os obj_addr
    maybe_backtrace os v bt
    log_owner os v obj.consumer
    maybe_backtrace os v obj.consumer.backtrace
    finish os

  -- `mut_log_wum`
  unfoldable pub log_wum :
      View
      → (obj_addr zone_addr zone_value : ℕ) → ActionId
      → Resource
      → ℕ
      → Cmd (Machine W) (Unit {0})
  unfolding maybe_backtrace log_owner
  log_wum v obj_addr zone_addr zone_value consumer obj bt = do
    assert v.flags.check
    log_error os "WUM"
    log_string os (action_name v.usage_name consumer)
    log_exec_addr os obj_addr
    log_ulong os obj.size
    log_exec_addr os zone_addr
    log_uint_hex os zone_value
    maybe_backtrace os v bt
    log_owner os v obj.producer
    maybe_backtrace os v obj.producer.backtrace
    finish os

  -- The trace of free and cfree: for a null address, for no object, and for an object.
  unfoldable pub free_trace :
      View → ActionId → ℕ → Cmd (Machine W) (Unit {0}) → Cmd (Machine W) (Unit {0})
  free_trace v consumer obj_addr more = when v.flags.trace (do
    log_info os "trace"
    log_string os (action_name v.usage_name consumer)
    log_exec_addr os obj_addr
    more
    finish os)

  -- The record of `mut_realloc_failure`.
  unfoldable pub log_realloc_failure :
      View → (new_size old_addr old_size bt : ℕ) → Cmd (Machine W) (Unit {0})
  unfolding maybe_backtrace
  log_realloc_failure v new_size old_addr old_size bt = do
    assert (v.flags.backtrace || (bt == 0))
    when v.flags.trace (do
      log_info os "trace"
      log_string os (action_name v.usage_name realloc)
      log_exec_addr os old_addr
      log_uint os old_size
      log_uint os new_size
      log_exec_addr os 0
      maybe_backtrace os v bt
      finish os)
    log_warning os "RR0"
    log_string os (action_name v.usage_name realloc)
    log_exec_addr os old_addr
    log_uint os old_size
    log_uint os new_size
    maybe_backtrace os v bt
    finish os

  -- The trace of a realloc that has succeeded.
  unfoldable pub realloc_trace :
      View → (old_addr old_size new_size new_addr bt : ℕ) → Cmd (Machine W) (Unit {0})
  unfolding maybe_backtrace
  realloc_trace v old_addr old_size new_size new_addr bt = when v.flags.trace (do
    log_info os "trace"
    log_string os (action_name v.usage_name realloc)
    log_exec_addr os old_addr
    log_ulong os old_size
    log_ulong os new_size
    log_exec_addr os new_addr
    maybe_backtrace os v bt
    finish os)

  -- `mut_realloc_fum_trace`
  unfoldable pub realloc_fum_trace : View → (obj_addr new_size : ℕ) → Cmd (Machine W) (Unit {0})
  realloc_fum_trace v obj_addr new_size = do
    log_info os "trace"
    log_string os (action_name v.usage_name realloc)
    log_exec_addr os obj_addr
    log_uint os new_size
    log_int os 0
    finish os

module _ {W C : Type 0} (os : Os W) (ops : CounterOps C) where
  unfoldable pub log_counter : C → Cmd (Machine W) (Unit {0})
  log_counter c = argument os (Item.counter (ops.shown c))

  abbrev log_stat : String → Stat C → Cmd (Machine W) (Unit {0})
  log_stat name s = do log_string os name; log_counter s.space; log_counter s.count

  abbrev log_hits : Actions C → ActionId → Cmd (Machine W) (Unit {0})
  log_hits a id = do log_string os (action_name a.usage_name id); log_counter (a.action id).hits

  -- `mut_log_stats`
  unfoldable pub log_stats : Stats C → Actions C → Cmd (Machine W) (Unit {0})
  unfolding log_counter
  log_stats s a = do
    log_info os "stats"
    log_stat "alloc.now" s.now
    log_stat "alloc.total" s.total
    log_stat "alloc.max.space" s.max_space
    log_stat "alloc.max.count" s.max_count
    log_hits a malloc
    log_hits a free
    log_hits a realloc
    log_hits a calloc
    log_hits a cfree
    finish os
