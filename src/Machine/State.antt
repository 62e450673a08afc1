-- ===== src/Machine/State.antt =====
-- src/log/tty/mut_log_type.h and src/proc/ptrace/mut_process_type.h.
use mut.Base.{ℕ, String, Bool, List}
use mut.Machine.System.{Item}

-- `struct mut_log`. `sink` is what has been written to the current sink, the last write first.
pub record Log : Type 0 where
  pub program_name : String
  pub fatal_error : Bool
  pub internal_error : Bool
  pub logging : Bool
  pub sink : List Item

-- `mut_process_status`
pub data Status : Type 0 where
  running stopped exited : Status

-- `struct mut_process`, less its two pointers to the log; `trace.pid` is `child`.
pub record Process : Type 0 where
  pub child : ℕ
  pub status : Status
  pub pc : ℕ

pub record Machine (W : Type 0) : Type 0 where
  pub world : W
  pub log : Log
  pub process : Process
