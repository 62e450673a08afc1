-- ===== src/Machine/System.antt =====
-- The system calls and C library calls that the sources make: ptrace(2), fork(2), waitpid(2), malloc(3),
-- fopen(3) and the formatted writes to the log. `W` is the state of everything outside MUT: the
-- target process, the kernel, the C library.
use mut.Base.{ℕ, String, Bool, Option}

-- The requests of mut_ptrace.h; `peek_user` and `poke_user` are the requests 3 and 6 that
-- mut_trace_arch.c writes as numbers.
pub data Request : Type 0 where
  trace_me read_text read_data write_text write_data continue kill peek_user poke_user : Request

-- The registers of mut_process_arch_regs.h, `esp` being UESP.
pub data Register : Type 0 where
  eip eax ebp esp : Register

-- What waitpid(2) reports: `error` is a negative result, with what `status` holds then.
pub data WaitStatus : Type 0 where
  error : ℕ → WaitStatus
  exited : ℕ → WaitStatus
  signaled : ℕ → WaitStatus
  stopped : ℕ → WaitStatus
  other : ℕ → WaitStatus

-- One formatted write of mut_log.c. The heads of a record carry the program's name.
pub data Item : Type 0 where
  fatal : String → ℕ → String → Item
  mem_full : String → ℕ → Item
  error : String → String → Item
  warning : String → String → Item
  info : String → String → Item
  str : String → Item
  int : ℕ → Item
  uint : ℕ → Item
  hex : ℕ → Item
  long : ℕ → Item
  ulong : ℕ → Item
  counter : ℕ → Item
  newline : Item

pub record Os (W : Type 0) : Type 0 where
  -- request, address, data; the result is a 32-bit word, -1 being 2 ^ 32 - 1
  pub ptrace : Request → ℕ → ℕ → W → ℕ × W
  -- the child's process id; the child's own side runs in another process
  pub fork : W → Option ℕ × W
  -- the numbers that <sys/reg.h> gives the registers
  pub reg : Register → ℕ
  pub waitpid : W → WaitStatus × W
  pub errno : W → ℕ
  -- false when the write fails
  pub print : Item → W → Bool × W
  -- true when the memory is granted
  pub malloc : W → Bool × W
  -- true when the file could be opened for writing
  pub fopen : String → W → Bool × W
