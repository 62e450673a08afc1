-- ===== src/Tests/Sample.antt =====
-- A small system and small tables.
use mut.Base.{refl, arith, ℕ, zero, suc, String, true, false, none, some, List, [], ◌∷◌}
use mut.Machine.{Os, Machine, Request, WaitStatus, Status, peek_user}
use mut.Counter.{Uint64, uint64}
use mut.Counter.Laws.{struct_ops}
use mut.Exec.{Exec}
use mut.Exec.Symtab.{Fun}
use mut.Resources.Defs.{ActionId, find, owner, nobody, Resource, Resources}
use mut.Resources.Count.{IsValid, active, consumed}
use mut.Manager.State.{Control, Stat, Mut, Env}

-- The world is how often the target will stop yet. Each register reads 0x1001 and each word 0x1000.
abbrev pub replies : Request → ℕ
replies peek_user = 0x1001
replies _ = 0x1000

abbrev pub wait_reply : ℕ → WaitStatus × ℕ
wait_reply zero = (WaitStatus.exited 0, 0)
wait_reply (suc n) = (WaitStatus.stopped 5, n)

abbrev pub toy_os : Os ℕ
toy_os = record {
  ptrace = λ request _ _ w. (replies request, w);
  fork = λ w. (some 7, w);
  reg = λ _. 0;
  waitpid = wait_reply;
  errno = λ _. 0;
  print = λ _ w. (true, w);
  malloc = λ w. (true, w);
  fopen = λ _ w. (true, w);
}

abbrev pub toy_env : Env ℕ Uint64
toy_env = record { os = toy_os; ops = struct_ops 0; fuel = 5; junk = 0 }

abbrev pub all_off : Control
all_off = record {
  trace = false;
  backtrace = false;
  free = false;
  stats = false;
  zero = false;
  usage = false;
  check = false;
}

abbrev pub fun_at : String → ℕ → Fun
fun_at name a = record { fun_name = name; fun_start_addr = a; file_name = none; fun_lines = [] }

abbrev pub three_funs : List Fun
three_funs = fun_at "malloc" 0x1000 ∷ fun_at "free" 0x2000 ∷ fun_at "main" 0x3000 ∷ []

abbrev pub toy_exec : Exec
toy_exec = record {
  symtab = record { head = three_funs; cache = none; end_addr = 0x4000 };
  has_full_symbols = true;
}

abbrev pub zero_stat : Stat Uint64
zero_stat = record { space = uint64 0 0; count = uint64 0 0 }

abbrev pub block : ℕ → Resource
block a = record {
  addr = a;
  size = 8;
  producer = owner (some ActionId.malloc) 0;
  consumer = nobody;
}

abbrev pub freed_block : ℕ → Resource
freed_block a = record (block a) { consumer = owner (some ActionId.free) 0 }

-- Two live objects and one that has been freed, where memory is kept.
abbrev pub three_blocks : Resources
three_blocks = record {
  elems = block 0x30 ∷ freed_block 0x20 ∷ block 0x10 ∷ [];
  n_active = 2;
  n_consumed = 1;
  really_free = false;
}

pub three_blocks-IsValid : IsValid three_blocks
unfolding active consumed find
three_blocks-IsValid = record {
  distinct = (refl, (refl, (refl, tt)));
  active_count = refl;
  consumed_count = refl;
  small = omega arith;
}

abbrev pub toy_machine : Machine ℕ
toy_machine = record {
  world = 3;
  log = record {
    program_name = "mut";
    fatal_error = false;
    internal_error = false;
    logging = false;
    sink = [];
  };
  process = record { child = 0; status = Status.stopped; pc = 0 };
}

abbrev pub toy_state : Mut ℕ Uint64
toy_state = record {
  machine = toy_machine;
  backtraces = record { next = 1; cell = λ _. none };
  exec = toy_exec;
  actions = record {
    action = λ _. record { addr = 0; instr = 0; hits = uint64 0 0 };
    root = [];
    usage_name = "usage";
  };
  resources = three_blocks;
  flags = all_off;
  stats = record {
    now = zero_stat;
    total = zero_stat;
    max_space = zero_stat;
    max_count = zero_stat;
  };
}
