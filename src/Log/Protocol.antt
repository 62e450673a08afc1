-- ===== src/Log/Protocol.antt =====
-- src/log/tty/mut_log.c: the calls of the record protocol, and the sinks that it knows.
use mut.Base.{
  ℕ, String, Bool, true, false, List, [], ◌∷◌, ◌++◌, ◌≡◌, Cmd, ok, fail, halt, spent, skip, ◌>>◌,
  if◌then◌else◌,
}
use mut.Counter.{Uint64}
use mut.Machine.{
  Os, Item, fatal, mem_full, error, warning, info, str, int, uint, hex, long, ulong, counter,
  newline, Log, Machine,
}
use mut.Log.{
  prog_name, log_fatal, log_mem_full, log_error, log_warning, log_info, log_string, log_int,
  log_uint, log_uint64, log_uint_hex, log_long, log_ulong, finish, log_file,
}

-- The calls that a log takes between mut_log_open and mut_log_close.
pub data LogCall : Type 0 where
  call_name : String → LogCall
  call_fatal : String → ℕ → LogCall
  call_string : String → LogCall
  call_full call_int call_uint call_hex call_long call_ulong : ℕ → LogCall
  call_error call_warning call_info : String → LogCall
  call_uint64 : Uint64 → LogCall
  call_end : LogCall
  call_file : String → LogCall

module _ {W : Type 0} (os : Os W) where
  unfoldable pub call : LogCall → Cmd (Machine W) (Unit {0})
  call (call_name s) = prog_name s
  call (call_fatal s n) = log_fatal os s n
  call (call_full n) = log_mem_full os n
  call (call_error s) = log_error os s
  call (call_warning s) = log_warning os s
  call (call_info s) = log_info os s
  call (call_string s) = log_string os s
  call (call_int n) = log_int os n
  call (call_uint n) = log_uint os n
  call (call_hex n) = log_uint_hex os n
  call (call_long n) = log_long os n
  call (call_ulong n) = log_ulong os n
  call (call_uint64 i) = log_uint64 os i
  call call_end = finish os
  call (call_file name) = log_file os name

  unfoldable pub session : List LogCall → Cmd (Machine W) (Unit {0})
  session [] = skip
  session (c ∷ cs) = call c >> session cs

  -- What the sinks before the current one hold after a call, the last write first: mut_log_file
  -- leaves the sink behind when it can open the file.
  unfoldable pub left_behind : LogCall → Machine W → List Item → List Item
  left_behind (call_file name) m earlier =
      if (os.fopen name m.world).0 then m.log.sink ++ earlier else earlier
  left_behind _ m earlier = earlier

  -- The same after a session.
  unfoldable pub earlier_sinks : List LogCall → Machine W → List Item → List Item
  unfolding call left_behind
  earlier_sinks [] m earlier = earlier
  earlier_sinks (c ∷ cs) m earlier =
      let left = left_behind c m earlier in
      elim (call c m) [
        | ok _ t ↦ earlier_sinks cs t left
        | fail _ ↦ left
        | halt _ ↦ left
        | spent _ ↦ left
      ]

-- The items that open a record, and whether it is fatal.
pub data IsHead : Item → Bool → Type 0 where
  of_fatal : (p : String) (n : ℕ) (s : String) → IsHead (fatal p n s) true
  of_full : (p : String) (n : ℕ) → IsHead (mem_full p n) true
  of_error : (p s : String) → IsHead (error p s) false
  of_warning : (p s : String) → IsHead (warning p s) false
  of_info : (p s : String) → IsHead (info p s) false

pub data IsArgument : Item → Type 0 where
  of_str : (s : String) → IsArgument (str s)
  of_int : (n : ℕ) → IsArgument (int n)
  of_uint : (n : ℕ) → IsArgument (uint n)
  of_hex : (n : ℕ) → IsArgument (hex n)
  of_long : (n : ℕ) → IsArgument (long n)
  of_ulong : (n : ℕ) → IsArgument (ulong n)
  of_counter : (n : ℕ) → IsArgument (counter n)

-- Writes, the last first: records of a head, arguments and an end, whether the last is still
-- open, and whether it is fatal. No record follows a fatal one.
pub data Records : List Item → Bool → Bool → Type 0 where
  nothing : {o f : Bool} → o ≡ false → f ≡ false → Records [] o f
  head :
      {i : Item} {s : List Item} {f : Bool}
      → Records s false false
      → IsHead i f
      → Records (i ∷ s) true f
  argued :
      {i : Item} {s : List Item} {f : Bool}
      → Records s true f
      → IsArgument i
      → Records (i ∷ s) true f
  ended : {s : List Item} {f : Bool} → Records s true f → Records (newline ∷ s) false f

-- The writes to all sinks are records, and while no write has failed the flags tell of the last
-- one.
pub record Recorded (earlier : List Item) (l : Log) : Type 0 where
  pub is_open : Bool
  pub is_fatal : Bool
  pub shape : Records (l.sink ++ earlier) is_open is_fatal
  pub open_told : l.internal_error ≡ false → is_open ≡ l.logging
  pub fatal_told : l.internal_error ≡ false → is_fatal ≡ l.fatal_error
