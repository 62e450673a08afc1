-- ===== src/Lib.antt =====
-- MUT watches the memory use of a program: it runs the program under ptrace(2), stops it at every
-- call of malloc, calloc, realloc, free and cfree, keeps a table of what is allocated, and reports
-- leaks, memory freed twice, unknown addresses and overwritten safety zones.
--
-- The parts of the program and their files here:
--   src/mut.c, src/mut.h, src/mut_action.h      Manager: state (State), log records (Reports),
--                                               statistics (Stats), zones (Zones), steps that the
--                                               handlers share (Common), malloc and calloc
--                                               (Producers), free and cfree (Consumer), realloc
--                                               (Realloc), actions and breakpoints (Actions),
--                                               mut_open, mut_run and mut_close (Run)
--   src/resources/list/mut_resources.c          Resources: operations (Defs), iterator (Iter)
--   src/backtrace/fixed/mut_backtrace.c         Backtrace: frames (Frames), counts (Store)
--   src/exec/mut_exec_symtab.c                  Exec.Symtab
--   src/exec/elf/mut_exec.c                     Exec (the three queries), Exec.Elf: structures
--                                               (Types), strings (Text), shared steps (Reading),
--                                               the header (Sections), the search for sections
--                                               (Locate), symbols (Symbols), lines (Stabs),
--                                               mut_exec_open and mut_exec_close (Open)
--   src/exec/aout/mut_exec.c                    Exec.Aout: structures (Types), the reader (Open)
--   src/proc/ptrace/mut_process.c               Process.Core, Process.Blocks
--   src/proc/ptrace/arch/x86/mut_process_arch.c Process.X86
--   src/proc/ptrace/mut_trace.c, mut_trace_arch.c of x86 Linux   Trace
--   src/log/tty/mut_log.c                       Log; the protocol of its calls (Protocol)
--   src/uint64/*, src/counter/*                 Counter: arithmetic (Defs, Laws), decimal output
--                                               (Printing)
--   src/mem/debug/mut_mem.c                     Memory: structures (Defs), malloc, free and realloc
--                                               (Operations), mut_mem_close (Close), what the
--                                               allocator promises (Spec)
--   src/ui/tty/mut_ui.c                         CommandLine: the arguments (Args), main (Main)
-- A function mut_xxx_name of the code is the definition `name` of its module; a function that is
-- too long for one definition is several, each with a comment that says which part it is.
--
-- The build that is modelled is the default one: x86 Linux of 32 bits, the list of resources, fixed
-- backtraces, the ptrace process, counters of two words. All machine words wrap at 2 ^ 32.
--
-- The state is passed explicitly. A command (Base.Run) takes a state to an outcome: `ok` for the
-- results other than 0, `fail` for the result 0, `halt` for an assertion that fails or a pointer to
-- memory that has been given back, `spent` for a loop whose fuel is used up. Every outcome carries
-- the state that it leaves. Trace, Log and Process run on `Machine`: the log, the process, and a
-- world about which nothing is known. What the kernel and the C library do to that world is the
-- parameter `Os` (Machine.System). The manager runs on `Mut`, which holds a `Machine`, and changes
-- it through `lift`. The counters are the parameter `CounterOps`, with the laws `CounterLaws`.
--
-- A pointer to a resource is its address, a pointer to a backtrace a number that is not used twice,
-- so that reference counts and stale pointers show. What uninitialised memory holds is a parameter
-- `junk`.
--
-- Where an assertion fails inside an operation of the table of resources or of the backtraces, MUT
-- ends with the table and the backtraces as the operation found them.
--
-- Fuel: a walk over the resources has the length of the list and one more; the walk along the frame
-- pointers has 21, one more than a backtrace holds. The loop of mut_process_wait and that of mut_run
-- go on for as long as the target does: their fuel is a parameter, any number of waits and of
-- rounds; Process.Patience says of a target how long it keeps mut_process_wait waiting, and
-- Process.Finite how often it stops at all.
--
-- Two parts have parameters and states of their own. Memory runs on `Mem`: its lists of nodes, its
-- counts, the bytes of the address space, what it has written; malloc(3), free(3) and fprintf(3) are
-- `Libc`. The readers of Exec.Elf run on `Reader`: a `Machine`, the headers, the tables; the file, and
-- how its bytes make up the structures of <elf.h>, are `Files`. A write behind the reader's array of
-- headers, and the second release of the nodes of a symbol table, are `halt`. Exec.Aout, the reader of
-- another build, has a `Reader` and `Files` of its own; its addresses are the unsigned ones of the
-- symbol table.
--
-- Not modelled: the vendor allocator (src/mem/vendor), of which, as of the debugging one, the
-- other parts see only success and failure; other targets than x86 Linux; the unfinished
-- src/resources/avl; the child's side of fork; the memory that closing a log gives back.
pub mod Base
pub mod Counter
pub mod Machine
pub mod Log
pub mod Trace
pub mod Backtrace
pub mod Process
pub mod Resources
pub mod Exec
pub mod Manager
pub mod Memory
pub mod CommandLine
pub mod Tests
