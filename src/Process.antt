-- ===== src/Process.antt =====
-- src/proc/ptrace/mut_process.c over src/proc/ptrace/arch/x86/mut_process_arch.c (module X86), for
-- the 32-bit build. A register, an instruction and an address are 32-bit words.
mod X86
pub mod Walk
mod Core
mod Blocks
pub mod Patience
pub mod Steady
pub mod SteadyTarget
pub mod Finite
pub mod Waiting
unfoldable pub use X86.{
  read_pc, write_pc, read_arg, write_arg, function_return_addr, read_result, write_result, skip_to,
  function_backtrace,
}
unfoldable pub use Core.{
  process_open, process_open_as, process_open_status, waitpid, wait_status, wait_loop, wait,
  breakpoint, restore, resume, read_word, write_word, process_close,
}
unfoldable pub use Blocks.{memcpy, memset, byte_mask}
