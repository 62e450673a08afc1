-- ===== src/Manager/Reports/Tables.antt =====
-- The usage report and the leaks of src/mut.c, and `mut_log_backtrace` of
-- src/backtrace/fixed/mut_backtrace.c.
use mut.Base.{
  ℕ, String, ◌+◌, false, not, none, some, List, [], ◌∷◌, Cmd, skip, halted, assert, when, ◌>>◌,
  ◌==◌, sub32, length,
}
use mut.Machine.{Os, Machine}
use mut.Log.{log_error, log_info, log_string, log_uint, log_ulong, log_exec_addr, finish}
use mut.Backtrace.Store.{Store, frames_at, count_at}
use mut.Exec.{Exec, addr_name}
use mut.Resources.Defs.{Owner, Resource, Resources}
use mut.Resources.Iter.{iter_open, drain}
use mut.Manager.State.{Control, action_name}

-- What every record may read: the flags, the executable, the backtraces, the name of the usage
-- function.
pub record View : Type 0 where
  pub flags : Control
  pub exec : Exec
  pub backtraces : Store
  pub usage_name : String

module _ {W : Type 0} (os : Os W) where
  unfoldable pub log_frame : Exec → ℕ → Cmd (Machine W) (Unit {0})
  log_frame e addr = elim (addr_name e addr) [
    | some f ↦ do
      log_string os f.name
      log_exec_addr os f.start_addr
      log_exec_addr os addr
      log_uint os (sub32 addr f.start_addr)
      log_string os (elim f.file_name [ none ↦ "?" | some n ↦ n ])
      log_uint os f.line
    | none ↦ do log_string os "?"; log_exec_addr os addr
  ]

  unfoldable pub log_frames : Exec → List ℕ → Cmd (Machine W) (Unit {0})
  unfolding log_frame
  log_frames e [] = skip
  log_frames e (addr ∷ rest) = do log_frame e addr; log_frames e rest

  -- `mut_log_backtrace`; a null or stale pointer ends MUT.
  unfoldable pub log_backtrace : View → ℕ → Cmd (Machine W) (Unit {0})
  unfolding log_frames
  log_backtrace v bt = do
    assert (not (count_at bt v.backtraces == 0))
    log_uint os (length (frames_at bt v.backtraces))
    log_frames v.exec (frames_at bt v.backtraces)

  -- `if (m->flags & mut_control_backtrace) mut_log_backtrace(m->log, bt)`
  unfoldable pub maybe_backtrace : View → ℕ → Cmd (Machine W) (Unit {0})
  unfolding log_backtrace
  maybe_backtrace v bt = when v.flags.backtrace (log_backtrace v bt)

  -- `mut_resource_producer_name`, `mut_resource_consumer_name`: through a null pointer, the end.
  unfoldable pub log_owner : View → Owner → Cmd (Machine W) (Unit {0})
  log_owner v o = elim o.action [
    | none ↦ halted
    | some id ↦ log_string os (action_name v.usage_name id)
  ]

  unfoldable pub report_each : View → List Resource → Cmd (Machine W) (Unit {0})
  unfolding log_owner maybe_backtrace
  report_each v [] = skip
  report_each v (r ∷ rs) = do
    log_owner v r.producer
    log_exec_addr os r.addr
    log_ulong os r.size
    maybe_backtrace v r.producer.backtrace
    report_each v rs

  -- `mut_report_usage`
  unfoldable pub report_usage : View → Resources → Cmd (Machine W) (Unit {0})
  unfolding report_each
  report_usage v rs = do
    let (n_obj, iter) = iter_open rs false
    log_info os "mem.usage"
    log_ulong os n_obj
    report_each v (drain (length rs.elems + 1) iter)
    finish os

  -- `mut_log_leaks`
  unfoldable pub leak_each : View → List Resource → Cmd (Machine W) (Unit {0})
  unfolding log_owner maybe_backtrace
  leak_each v [] = skip
  leak_each v (r ∷ rs) = do
    log_error os "MLK"
    log_owner v r.producer
    log_ulong os r.size
    log_exec_addr os r.addr
    maybe_backtrace v r.producer.backtrace
    finish os
    leak_each v rs

  unfoldable pub log_leaks : View → Resources → Cmd (Machine W) (Unit {0})
  unfolding leak_each
  log_leaks v rs = leak_each v (drain (length rs.elems + 1) (iter_open rs false).1)
