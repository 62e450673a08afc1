-- ===== src/Manager/Common.antt =====
-- The steps that the handlers of src/mut.c share.
use mut.Base.{
  ℕ, none, some, [], Cmd, pure, failed, get, modify, when, ◌>>=◌, ◌>>◌, ◌on_fail◌, if◌then◌else◌,
  ◌==◌,
}
use mut.Machine.{Machine}
use mut.Log.{log_fatal, log_string, log_exec_addr, log_mem_full, finish}
use mut.Process.{breakpoint, restore, resume, wait, skip_to, function_backtrace}
use mut.Backtrace.Store.{alloc, set_frames, close}
use mut.Exec.Symtab.{mem_malloc}
use mut.Resources.Defs.{ActionId, Resource, lookup, insert, fresh, delete}
use mut.Manager.State.{Mut, Env, lift, set_resources, set_backtraces, or_halt, action_name}
use mut.Manager.Reports.{View, report_usage}
use mut.Manager.Stats.{collect, release}

module _ {W C : Type 0} where
  abbrev pub view : Mut W C → View
  view s = record {
    flags = s.flags;
    exec = s.exec;
    backtraces = s.backtraces;
    usage_name = s.actions.usage_name;
  }

  -- `if (m->flags & mut_control_backtrace) mut_backtrace_close(bt)`
  unfoldable pub close_backtrace : ℕ → Cmd (Mut W C) (Unit {0})
  close_backtrace bt = do
    s ← get (λ s. s)
    when s.flags.backtrace (do bts ← or_halt (close bt s.backtraces); set_backtraces bts)

  -- `mut_resources_delete_resource`
  unfoldable pub delete_resource : Resource → ActionId → ℕ → Cmd (Mut W C) (Unit {0})
  delete_resource obj consumer bt = do
    s ← get (λ s. s)
    (rs, bts) ← or_halt (delete obj consumer bt s.resources s.backtraces)
    set_resources rs
    set_backtraces bts

module _ {W C : Type 0} (env : Env W C) where
  -- `mut_do_action`
  unfoldable pub do_action_machine :
      (return_addr : ℕ) → (name : Mut W C) → ActionId → Cmd (Machine W) (Unit {0})
  do_action_machine return_addr s id = do
    return_instr ← breakpoint env.os return_addr
    resume env.os
    stop ← wait env.os env.fuel
    elim stop [
      | none ↦ failed
      | some return_pc ↦
          if return_pc == return_addr then restore env.os return_addr return_instr else (do
            log_fatal env.os "action.addr" 0
            log_string env.os (action_name s.actions.usage_name id)
            log_exec_addr env.os return_pc
            log_exec_addr env.os return_addr
            finish env.os
            failed)
    ]

  unfoldable pub do_action : (return_addr : ℕ) → ActionId → Cmd (Mut W C) (Unit {0})
  do_action return_addr id = do s ← get (λ s. s); lift (do_action_machine return_addr s id)

  -- `mut_report_usage` under its flag
  unfoldable pub maybe_usage : Cmd (Mut W C) (Unit {0})
  maybe_usage = do
    s ← get (λ s. s)
    when s.flags.usage (lift (report_usage env.os (view s) s.resources))

  -- `mut_produce_backtrace`: a null pointer when no backtraces are wanted.
  unfoldable pub produce_backtrace : Cmd (Mut W C) ℕ
  unfolding close_backtrace
  produce_backtrace = do
    s ← get (λ s. s)
    if s.flags.backtrace
        then (do
          granted ← lift (mem_malloc env.os)
          if granted
              then (do
                let (bt, bts) = alloc s.backtraces
                set_backtraces bts
                frames ← lift (function_backtrace env.os []) on_fail close_backtrace bt
                modify λ t. record t { backtraces = set_frames bt frames t.backtraces }
                pure bt)
              else (do lift (do log_mem_full env.os (← get (λ m. env.os.errno m.world))); failed))
        else pure 0

  -- `mut_resources_create_resource`
  unfoldable pub create_resource : ℕ → Cmd (Mut W C) Resource
  create_resource addr = do
    s ← get (λ s. s)
    elim (lookup s.resources addr) [
      | some r ↦ pure r
      | none ↦ do
        granted ← lift (mem_malloc env.os)
        if granted
            then (do set_resources (insert env.junk addr s.resources); pure (fresh env.junk addr))
            else (do lift (do log_mem_full env.os (← get (λ m. env.os.errno m.world))); failed)
    ]

  -- `if (m->flags & mut_control_stats) mut_collect_producer_stats(m, size)`
  unfoldable pub maybe_collect : ℕ → Cmd (Mut W C) (Unit {0})
  maybe_collect size = do
    s ← get (λ s. s)
    when s.flags.stats (modify λ s. record s { stats = collect env.ops size s.stats })

  -- The same for an object that is consumed.
  unfoldable pub maybe_release : ℕ → Cmd (Mut W C) (Unit {0})
  maybe_release size = do
    s ← get (λ s. s)
    when s.flags.stats
        (do stats ← or_halt (release env.ops size s.stats); modify λ s. record s { stats = stats })

  -- `(m->flags & mut_control_free) ? mut_do_action(...) : mut_process_skip_to(...)`
  unfoldable pub act_or_skip : (return_addr : ℕ) → ActionId → Cmd (Mut W C) (Unit {0})
  unfolding do_action
  act_or_skip return_addr id = do
    s ← get (λ s. s)
    if s.flags.free then do_action return_addr id else lift (skip_to env.os return_addr)
