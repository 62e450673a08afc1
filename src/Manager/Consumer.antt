-- ===== src/Manager/Consumer.antt =====
-- `mut_do_consumer` of src/mut.c: a call of free or cfree.
use mut.Base.{ℕ, none, some, Cmd, skip, get, when, ◌>>=◌, ◌>>◌, ◌on_fail◌, if◌then◌else◌, ◌==◌}
use mut.Log.{log_int, log_ulong}
use mut.Process.{read_arg, function_return_addr, memset}
use mut.Resources.Defs.{ActionId, Resource, lookup, deleted}
use mut.Manager.State.{Mut, Env, lift}
use mut.Manager.Reports.{free_trace, log_fum, log_ffm}
use mut.Manager.Zones.{zone_check}
use mut.Manager.Common.{
  view, close_backtrace, delete_resource, do_action, maybe_usage, produce_backtrace, maybe_release,
  act_or_skip,
}
use mut.Manager.Producers.{maybe_hit}

module _ {W C : Type 0} (env : Env W C) (consumer : ActionId) where
  -- .free.0
  unfoldable pub consume_null : (return_addr bt : ℕ) → Cmd (Mut W C) (Unit {0})
  consume_null return_addr bt = do
    s ← get (λ s. s)
    lift (free_trace env.os (view s) consumer 0 skip)
    close_backtrace bt
    do_action env return_addr consumer

  -- .free.addr.unalloc
  unfoldable pub consume_unknown : (obj_addr return_addr bt : ℕ) → Cmd (Mut W C) (Unit {0})
  consume_unknown obj_addr return_addr bt = do
    s ← get (λ s. s)
    lift (free_trace env.os (view s) consumer obj_addr (log_int env.os 0))
    lift (log_fum env.os (view s) obj_addr consumer bt)
    close_backtrace bt
    act_or_skip env return_addr consumer

  -- .free.addr.alloc.free
  unfoldable pub consume_deleted :
      Resource → (obj_addr return_addr bt : ℕ) → Cmd (Mut W C) (Unit {0})
  consume_deleted obj obj_addr return_addr bt = do
    s ← get (λ s. s)
    lift (log_ffm env.os (view s) obj_addr consumer obj bt)
    close_backtrace bt
    act_or_skip env return_addr consumer

  -- The two checks of .free.addr.alloc.avail that can end in `goto free_backtrace`.
  unfoldable pub check_and_zero : Resource → (obj_addr bt : ℕ) → Cmd (Mut W C) (Unit {0})
  check_and_zero obj obj_addr bt = do
    s ← get (λ s. s)
    when s.flags.check (lift (zone_check env.os (view s) obj_addr obj consumer bt))
    when s.flags.zero (lift (memset env.os obj_addr 0 obj.size))

  -- .free.addr.alloc.avail
  unfoldable pub consume_live : Resource → (obj_addr return_addr bt : ℕ) → Cmd (Mut W C) (Unit {0})
  unfolding check_and_zero
  consume_live obj obj_addr return_addr bt = do
    maybe_release env obj.size
    check_and_zero obj obj_addr bt on_fail close_backtrace bt
    delete_resource obj consumer bt
    close_backtrace bt
    maybe_usage env
    act_or_skip env return_addr consumer

  -- .free.addr.alloc
  unfoldable pub consume_known : Resource → (obj_addr return_addr bt : ℕ) → Cmd (Mut W C) (Unit {0})
  unfolding consume_deleted consume_live
  consume_known obj obj_addr return_addr bt = do
    s ← get (λ s. s)
    lift (free_trace env.os (view s) consumer obj_addr (log_ulong env.os obj.size))
    if deleted obj
        then consume_deleted obj obj_addr return_addr bt
        else consume_live obj obj_addr return_addr bt

  -- What is done once the address is known.
  unfoldable pub consume_addr : (obj_addr return_addr bt : ℕ) → Cmd (Mut W C) (Unit {0})
  unfolding consume_null consume_unknown consume_known
  consume_addr obj_addr return_addr bt = do
    s ← get (λ s. s)
    if obj_addr == 0 then consume_null return_addr bt else elim (lookup s.resources obj_addr) [
      | none ↦ consume_unknown obj_addr return_addr bt
      | some obj ↦ consume_known obj obj_addr return_addr bt
    ]

  -- `mut_do_consumer`
  unfoldable pub do_consumer : Cmd (Mut W C) (Unit {0})
  unfolding consume_addr
  do_consumer = do
    maybe_hit env consumer
    obj_addr ← lift (read_arg env.os 0)
    return_addr ← lift (function_return_addr env.os)
    bt ← produce_backtrace env
    consume_addr obj_addr return_addr bt
