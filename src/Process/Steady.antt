-- ===== src/Process/Steady.antt =====
-- src/log/tty/mut_log.c and src/proc/ptrace/mut_trace.c: what MUT writes and asks of a stopped target
-- comes to an end.
use mut.Base.{◌≡◌, subst, sym, ℕ, String, Bool, true, false, Outcome, Lasts, lasts_ok, lasting}
use mut.Machine.{Os, Machine, Item, Request}
use mut.Log.{
  emit, start, log_fatal, log_mem_full, log_error, log_warning, log_info, argument, log_string,
  log_int, log_uint, log_uint_hex, log_ulong, log_exec_addr, log_end, finish,
}
use mut.Trace.{
  call, errno, is_error, trace_read_text, trace_read_data, trace_write_text, trace_write_data,
  trace_continue, trace_read_reg, trace_write_reg,
}

-- What holds of the world is not undone by MUT's own writes, requests and allocations.
pub record Steady {W : Type 0} (os : Os W) (P : W → Type 0) : Type 0 where
  pub by_print : (item : Item) (w : W) → P w → P (os.print item w).1
  pub by_ptrace : (r : Request) (addr value : ℕ) (w : W) → P w → P (os.ptrace r addr value w).1
  pub by_malloc : (w : W) → P w → P (os.malloc w).1

-- `P` holds of the world of a machine.
pub record Holds {W : Type 0} (P : W → Type 0) (m : Machine W) : Type 0 where
  pub holds : P m.world

-- It holds of every machine of the same world.
pub same_world :
    {W : Type 0} {P : W → Type 0} (m n : Machine W) → Holds P m → n.world ≡ m.world → Holds P n
same_world {P = P} m n h e = record { holds = subst P (sym e) h.holds }

-- A run on a machine that ends with fuel left, where `P` holds of the world.
abbrev pub Runs : {W A : Type 0} → (W → Type 0) → Outcome (Machine W) A → Type 0
Runs P o = Lasts (Holds P) o

module _ {W : Type 0} {os : Os W} {P : W → Type 0} (steady : Steady os P) where
  pub emit-Lasts : (item : Item) (m : Machine W) → Holds P m → Runs P (emit os item m)
  unfolding emit
  emit-Lasts item m p = lasts_ok (record { holds = steady.by_print item m.world p.holds })

  pub call-Lasts :
      (r : Request) (addr value : ℕ) (m : Machine W) → Holds P m → Runs P (call os r addr value m)
  unfolding call
  call-Lasts r addr value m p =
      lasts_ok (record { holds = steady.by_ptrace r addr value m.world p.holds })

  pub start-Lasts :
      (f : Bool) (head : String → Item) (m : Machine W) → Holds P m → Runs P (start os f head m)
  unfolding start
  start-Lasts f head m p = search (lasting, same_world, emit-Lasts) depth 14

  pub argument-Lasts : (item : Item) (m : Machine W) → Holds P m → Runs P (argument os item m)
  unfolding argument
  argument-Lasts item m p = search (lasting, emit-Lasts) depth 14

  pub finish-Lasts : (m : Machine W) → Holds P m → Runs P (finish os m)
  unfolding finish log_end
  finish-Lasts m p = search (lasting, same_world, emit-Lasts) depth 14

  pub log_error-Lasts : (s : String) (m : Machine W) → Holds P m → Runs P (log_error os s m)
  unfolding log_error
  log_error-Lasts s m p = start-Lasts false _ m p

  pub log_warning-Lasts : (s : String) (m : Machine W) → Holds P m → Runs P (log_warning os s m)
  unfolding log_warning
  log_warning-Lasts s m p = start-Lasts false _ m p

  pub log_info-Lasts : (s : String) (m : Machine W) → Holds P m → Runs P (log_info os s m)
  unfolding log_info
  log_info-Lasts s m p = start-Lasts false _ m p

  pub log_fatal-Lasts :
      (s : String) (n : ℕ) (m : Machine W) → Holds P m → Runs P (log_fatal os s n m)
  unfolding log_fatal
  log_fatal-Lasts s n m p = start-Lasts true _ m p

  pub log_mem_full-Lasts : (n : ℕ) (m : Machine W) → Holds P m → Runs P (log_mem_full os n m)
  unfolding log_mem_full
  log_mem_full-Lasts n m p = start-Lasts true _ m p

  pub log_string-Lasts : (s : String) (m : Machine W) → Holds P m → Runs P (log_string os s m)
  unfolding log_string
  log_string-Lasts s m p = argument-Lasts _ m p

  pub log_int-Lasts : (n : ℕ) (m : Machine W) → Holds P m → Runs P (log_int os n m)
  unfolding log_int
  log_int-Lasts n m p = argument-Lasts _ m p

  pub log_uint-Lasts : (n : ℕ) (m : Machine W) → Holds P m → Runs P (log_uint os n m)
  unfolding log_uint
  log_uint-Lasts n m p = argument-Lasts _ m p

  pub log_uint_hex-Lasts : (n : ℕ) (m : Machine W) → Holds P m → Runs P (log_uint_hex os n m)
  unfolding log_uint_hex
  log_uint_hex-Lasts n m p = argument-Lasts _ m p

  pub log_ulong-Lasts : (n : ℕ) (m : Machine W) → Holds P m → Runs P (log_ulong os n m)
  unfolding log_ulong
  log_ulong-Lasts n m p = argument-Lasts _ m p

  pub log_exec_addr-Lasts : (n : ℕ) (m : Machine W) → Holds P m → Runs P (log_exec_addr os n m)
  unfolding log_exec_addr
  log_exec_addr-Lasts n m p = log_uint_hex-Lasts n m p

  pub ruleset logging = (
    same_world, start-Lasts, argument-Lasts, finish-Lasts, log_error-Lasts, log_warning-Lasts,
    log_info-Lasts, log_fatal-Lasts, log_mem_full-Lasts, log_string-Lasts, log_int-Lasts,
    log_uint-Lasts, log_uint_hex-Lasts, log_ulong-Lasts, log_exec_addr-Lasts,
  )

  pub trace_read_text-Lasts :
      (addr : ℕ) (m : Machine W) → Holds P m → Runs P (trace_read_text os addr m)
  unfolding trace_read_text is_error errno
  trace_read_text-Lasts addr m p = search (lasting, logging, call-Lasts) depth 14

  pub trace_read_data-Lasts :
      (addr : ℕ) (m : Machine W) → Holds P m → Runs P (trace_read_data os addr m)
  unfolding trace_read_data is_error errno
  trace_read_data-Lasts addr m p = search (lasting, logging, call-Lasts) depth 14

  pub trace_read_reg-Lasts :
      (reg : ℕ) (m : Machine W) → Holds P m → Runs P (trace_read_reg os reg m)
  unfolding trace_read_reg is_error errno
  trace_read_reg-Lasts reg m p = search (lasting, logging, call-Lasts) depth 14

  pub trace_write_text-Lasts :
      (addr value : ℕ) (m : Machine W) → Holds P m → Runs P (trace_write_text os addr value m)
  unfolding trace_write_text is_error errno
  trace_write_text-Lasts addr value m p = search (lasting, logging, call-Lasts) depth 14

  pub trace_write_data-Lasts :
      (addr value : ℕ) (m : Machine W) → Holds P m → Runs P (trace_write_data os addr value m)
  unfolding trace_write_data is_error errno
  trace_write_data-Lasts addr value m p = search (lasting, logging, call-Lasts) depth 14

  pub trace_write_reg-Lasts :
      (reg value : ℕ) (m : Machine W) → Holds P m → Runs P (trace_write_reg os reg value m)
  unfolding trace_write_reg is_error errno
  trace_write_reg-Lasts reg value m p = search (lasting, logging, call-Lasts) depth 14

  pub trace_continue-Lasts :
      (signal : ℕ) (m : Machine W) → Holds P m → Runs P (trace_continue os signal m)
  unfolding trace_continue errno
  trace_continue-Lasts signal m p = search (lasting, logging, call-Lasts) depth 14

  pub ruleset tracing = (
    same_world, trace_read_text-Lasts, trace_read_data-Lasts, trace_read_reg-Lasts,
    trace_write_text-Lasts, trace_write_data-Lasts, trace_write_reg-Lasts, trace_continue-Lasts,
  )
