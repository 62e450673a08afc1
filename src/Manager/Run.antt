-- ===== src/Manager/Run.antt =====
-- `mut_open`, `mut_run` and `mut_close` of src/mut.c.
use mut.Base.{
  ℕ, zero, suc, String, Bool, true, false, not, ◌&&◌, Option, none, some, [], Cmd, exhausted, pure,
  skip, get, modify, when, ◌>>=◌, ◌>>◌, ◌on_fail◌, if◌then◌else◌,
}
use mut.Machine.{Machine}
use mut.Log.{log_info, finish}
use mut.Process.{process_open, process_close, resume, wait, function_return_addr}
use mut.Exec.{Exec, has_backtrace_symbols}
use mut.Resources.Defs.{ActionId, open_resources, close_elems}
use mut.Manager.State.{Control, ActionType, Mut, Env, lift, or_halt, set_backtraces, action_type}
use mut.Manager.Reports.{log_leaks, log_stats, report_usage}
use mut.Manager.Stats.{open_stats}
use mut.Manager.Common.{view, do_action}
use mut.Manager.Producers.{do_malloc, do_calloc}
use mut.Manager.Consumer.{do_consumer}
use mut.Manager.Realloc.{do_realloc}
use mut.Manager.Actions.{
  actions_lookup, manage_actions, remove_action_breakpoints, install_action_breakpoints,
}

module _ {W C : Type 0} (env : Env W C) where
  -- Backtraces are wanted and there are no symbols for them.
  abbrev pub unsupported : Exec → Control → Bool
  unsupported e flags = flags.backtrace && not (has_backtrace_symbols e)

  -- The flags that `mut_open` puts in force.
  unfoldable pub chosen : Exec → Control → Control
  chosen e flags = if unsupported e flags then record flags { backtrace = false } else flags

  abbrev pub warn_off : Cmd (Machine W) (Unit {0})
  warn_off = do log_info env.os "backtrace.off"; finish env.os

  -- `mut_open`, from where `mut_exec_open` has given the executable; `path` is argv[0].
  unfoldable pub open_mut : Exec → String → Control → Option String → Cmd (Mut W C) (Unit {0})
  unfolding chosen
  open_mut e path flags usage_function = do
    modify λ s. record s { exec = e }
    lift (process_open env.os path)
    modify λ s. record s { flags = chosen e flags }
    when (unsupported e flags) (lift warn_off)
    modify λ s. record s { stats = open_stats env.ops; actions = record s.actions { root = [] } }
    manage_actions env usage_function on_fail lift (process_close env.os)
    modify λ s. record s { resources = open_resources flags.free }

  -- `mut_do_usage`
  unfoldable pub do_usage : Cmd (Mut W C) (Unit {0})
  do_usage = do
    s ← get (λ s. s)
    lift (report_usage env.os (view s) s.resources)
    return_addr ← lift (function_return_addr env.os)
    do_action env return_addr ActionId.usage

  -- The switch of `mut_run`.
  unfoldable pub dispatch : ActionId → ActionType → Cmd (Mut W C) (Unit {0})
  dispatch id ActionType.malloc = do_malloc env
  dispatch id ActionType.consumer = do_consumer env id
  dispatch id ActionType.realloc = do_realloc env
  dispatch id ActionType.calloc = do_calloc env
  dispatch id ActionType.usage = do_usage

  -- What `mut_run` does at a breakpoint: without an action there, nothing.
  unfoldable pub handle_action : Option ActionId → Cmd (Mut W C) (Unit {0})
  handle_action none = skip
  handle_action (some id) = do
    remove_action_breakpoints env
    dispatch id (action_type id)
    install_action_breakpoints env

  unfoldable pub handle : ℕ → Cmd (Mut W C) (Unit {0})
  unfolding handle_action
  handle pc = do s ← get (λ s. s); handle_action (actions_lookup s.actions pc)

  -- What `mut_process_wait` has found: false when the process is gone.
  unfoldable pub after_wait : Option ℕ → Cmd (Mut W C) Bool
  unfolding handle
  after_wait none = pure false
  after_wait (some pc) = do handle pc; pure true

  -- One round of the loop of `mut_run`.
  unfoldable pub round : Cmd (Mut W C) Bool
  unfolding after_wait
  round = do lift (resume env.os); stop ← lift (wait env.os env.fuel); after_wait stop

  -- `mut_run`, for at most so many rounds.
  unfoldable pub run : ℕ → Cmd (Mut W C) (Unit {0})
  run zero = exhausted
  run (suc rounds) = do more ← round; if more then run rounds else skip

  abbrev close_table : Cmd (Mut W C) (Unit {0})
  close_table = do
    s ← get (λ s. s)
    bts ← or_halt (close_elems s.resources.elems s.backtraces)
    set_backtraces bts

  -- `mut_close`; `mut_exec_close` gives back memory that the model does not hold.
  unfoldable pub close_mut : Cmd (Mut W C) (Unit {0})
  close_mut = do
    s ← get (λ s. s)
    lift (log_leaks env.os (view s) s.resources)
    when s.flags.stats (lift (log_stats env.os env.ops s.stats s.actions))
    close_table
    lift (process_close env.os)

  -- `mut_close_on_error`
  unfoldable pub close_on_error : Cmd (Mut W C) (Unit {0})
  close_on_error = do close_table; lift (process_close env.os)
