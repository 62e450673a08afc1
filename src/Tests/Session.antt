-- ===== src/Tests/Session.antt =====
-- A target that calls malloc once, from `mut_open` to the end of `mut_run`, and single handlers.
use mut.Base.{false, some, ◌∷◌, ◌==◌, if◌then◌else◌, ℕ, ◌≡◌, ◌≢◌, [], refl, none, ok, final, arith}
use mut.Counter.{Uint64}
use mut.Exec.{functions_addr}
use mut.Exec.Symtab.{lookup_name, mem_malloc}
use mut.Process.{
  process_open, process_open_as, waitpid, process_open_status, read_pc, breakpoint, skip_to,
}
use mut.Trace.{trace_read_reg, trace_read_text, trace_write_text, trace_write_reg}
use mut.Manager.Actions.{manage_actions, actions_enter}
use mut.Manager.Realloc.{realloc_known}
use mut.Manager.Refused.{realloc_known-deleted}
use mut.Process.{function_backtrace}
use mut.Process.Walk.{Walked, function_backtrace-Walked}
use mut.Resources.Defs.{ActionId, lookup, fresh, delete, mark_as_free, owner, nobody}
use mut.Resources.Lookup.{remains}
use mut.Manager.Common.{
  maybe_collect, create_resource, maybe_usage, maybe_release, delete_resource, close_backtrace,
  act_or_skip,
}
use mut.Manager.Reports.{alloc_trace}
use mut.Manager.Producers.{producer_success}
use mut.Manager.Consumer.{consume_live}
use mut.Manager.Recorded.{producer_success-lookup, consume_live-lookup}
use mut.Resources.Count.{active, consumed}
use mut.Manager.State.{Mut, ActionType}
use mut.Manager.Run.{open_mut, run, dispatch}
use mut.Manager.Invariant.{TableInv}
use mut.Manager.Invariant.Whole.{dispatch-TableInv}
use mut.Manager.Invariant.Opened.{session-TableInv}
use mut.Tests.Sample.{
  toy_env, toy_exec, all_off, toy_os, toy_machine, block, freed_block, three_blocks,
  three_blocks-IsValid, toy_state,
}

abbrev opened : Mut ℕ Uint64
opened = final (open_mut toy_env toy_exec "target" all_off none toy_state)

opened_ok : open_mut toy_env toy_exec "target" all_off none toy_state ≡ ok tt opened
unfolding open_mut process_open process_open_as waitpid process_open_status read_pc trace_read_reg
    manage_actions functions_addr lookup_name actions_enter breakpoint trace_read_text
    trace_write_text
opened_ok = refl

session-TableInv_example : TableInv (final (run toy_env 3 opened))
session-TableInv_example =
    session-TableInv toy_env toy_exec "target" all_off none 3 toy_state opened opened_ok

-- One call of free, of an object that is in the table.
toy_state-TableInv : TableInv toy_state
unfolding active consumed
toy_state-TableInv = record {
  counted = record { active_count = refl; consumed_count = refl; mode = λ h. ground arith };
  mode = refl;
}

dispatch-TableInv_example :
    TableInv (final (dispatch toy_env ActionId.free ActionType.consumer toy_state))
dispatch-TableInv_example =
    dispatch-TableInv toy_env ActionId.free ActionType.consumer toy_state toy_state-TableInv

realloc_known-deleted_example :
    realloc_known toy_env (freed_block 0x20) 0x20 16 0x1000 0 toy_state ≢ ok tt toy_state
realloc_known-deleted_example =
    realloc_known-deleted toy_env (freed_block 0x20) 0x20 16 0x1000 0 toy_state toy_state refl refl

function_backtrace-Walked_example : Walked (function_backtrace toy_os [] toy_machine)
function_backtrace-Walked_example = function_backtrace-Walked toy_os toy_machine

-- malloc(16) has given 0x40, which the table does not hold yet.
abbrev produced : Mut ℕ Uint64
produced = final (producer_success toy_env "MMM" ActionId.malloc (16 ∷ []) 16 0x40 0 toy_state)

produced_ok :
    producer_success toy_env "MMM" ActionId.malloc (16 ∷ []) 16 0x40 0 toy_state ≡ ok tt produced
unfolding producer_success maybe_collect create_resource lookup mem_malloc fresh alloc_trace
    maybe_usage
produced_ok = refl

not_listed : lookup three_blocks 0x40 ≡ none
unfolding lookup
not_listed = refl

producer_success-lookup_example : lookup produced.resources 0x40 ≡ (
    if 0x40 == 0x40
    then some (record {
      addr = 0x40;
      size = 16;
      producer = owner (some ActionId.malloc) 0;
      consumer = nobody;
    })
    else lookup three_blocks 0x40)
producer_success-lookup_example =
    producer_success-lookup toy_env "MMM" ActionId.malloc (16 ∷ []) 16 0x40 0 0x40 toy_state
      produced not_listed produced_ok

-- free(0x10)
abbrev freed : Mut ℕ Uint64
freed = final (consume_live toy_env ActionId.free (block 0x10) 0x10 0x1000 0 toy_state)

freed_ok : consume_live toy_env ActionId.free (block 0x10) 0x10 0x1000 0 toy_state ≡ ok tt freed
unfolding consume_live maybe_release delete_resource delete mark_as_free close_backtrace maybe_usage
    act_or_skip skip_to trace_read_reg trace_write_reg
freed_ok = refl

listed : lookup three_blocks 0x10 ≡ some (block 0x10)
unfolding lookup
listed = refl

consume_live-lookup_example : lookup freed.resources 0x10 ≡ (
    if 0x10 == 0x10 then remains false ActionId.free 0 (block 0x10) else lookup three_blocks 0x10)
consume_live-lookup_example =
    consume_live-lookup toy_env ActionId.free (block 0x10) 0x1000 0 0x10 toy_state freed
      three_blocks-IsValid listed freed_ok
