-- ===== src/Memory/Operations.antt =====
-- src/mem/debug/mut_mem.c: mut_mem_init, mut_mem__malloc, mut_mem__free, mut_mem__realloc, and the
-- choice of the log and the report.
use mut.Base.{
  ℕ, Option, none, some, [], Cmd, ok, halted, modify, pure, ◌on_fail◌, ◌>>=◌, ◌>>◌, if◌then◌else◌,
  ltb, ◌==◌, add32, sub32,
}
use mut.Memory.Defs.{
  SourcePos, Node, Entry, freeing_freed, freeing_unallocated, reallocing_freed,
  reallocing_unallocated, Libc, Mem, node_size, find_node, fill, copy, retire, enter, sys_malloc,
  sys_free, emit,
}

-- `mut_mem_init`, in a world and an address space as they are found.
unfoldable pub init : {W : Type 0} → Libc W → W → (ℕ → ℕ) → Mem W
init lib w memory = record {
  world = w;
  memory = memory;
  output = [];
  in_use = [];
  freed = [];
  n_bytes_allocated = 0;
  n_bytes_in_use = 0;
  n_blocks_in_use = 0;
  max_bytes_in_use = 0;
  max_blocks_in_use = 0;
  n_malloc = 0;
  n_realloc = 0;
  n_realloc0 = 0;
  n_free = 0;
  n_free0 = 0;
  log = lib.stderr;
  report = none;
}

-- `mut_mem_log`: the stream before.
unfoldable pub set_log : {W : Type 0} → ℕ → Cmd (Mem W) ℕ
set_log stream s = ok s.log (record s { log = stream })

-- `mut_mem_report`
unfoldable pub set_report : {W : Type 0} → Option ℕ → Cmd (Mem W) (Option ℕ)
set_report stream s = ok s.report (record s { report = stream })

module _ {W : Type 0} (lib : Libc W) where
  -- `mut_mem__malloc`
  unfoldable pub malloc : ℕ → SourcePos → Cmd (Mem W) ℕ
  unfolding sys_malloc sys_free enter
  malloc n_bytes pos = do
    addr ← sys_malloc lib n_bytes
    node ← sys_malloc lib node_size on_fail sys_free lib addr
    modify (
        enter (record {
          self = node;
          addr = addr;
          n_bytes = n_bytes;
          malloc_pos = pos;
          free_pos = record { line = 0; file_name = none };
        }))
    pure addr

  -- The end of `mut_mem__free` and `mut_mem__realloc` for an address that is not in use: one entry
  -- for a block that was freed, another for no block at all, and then `halt`.
  unfoldable pub misuse : {A : Type 0} → ℕ → (SourcePos → Entry) → Entry → Cmd (Mem W) A
  unfolding find_node emit
  misuse a was_freed never s = elim (find_node a s.freed) [
    | none ↦ (do _ ← emit lib s.log never; halted) s
    | some n ↦ (do _ ← emit lib s.log (was_freed n.free_pos); halted) s
  ]

  -- `mut_mem__free` for an address other than 0.
  unfoldable pub free_block : ℕ → SourcePos → Cmd (Mem W) (Unit {0})
  unfolding find_node fill retire misuse
  free_block a pos s = elim (find_node a s.in_use) [
    | none ↦ misuse a (freeing_freed pos) (freeing_unallocated pos a) s
    | some n ↦ ok tt (retire pos n (record s { memory = fill a 170 n.n_bytes s.memory }))
  ]

  -- `mut_mem__free`
  unfoldable pub free : ℕ → SourcePos → Cmd (Mem W) (Unit {0})
  unfolding free_block
  free a pos = do
    modify λ s. record s { n_free = add32 s.n_free 1 }
    if a == 0 then modify (λ s. record s { n_free0 = add32 s.n_free0 1 }) else free_block a pos

  -- What `mut_mem__realloc` does with the old block once it has the new one: what fits is copied,
  -- the old block is filled, and the call of malloc is not counted.
  unfoldable pub copy_over : Node → ℕ → ℕ → Mem W → Mem W
  unfolding fill copy
  copy_over n n_bytes new_addr s = record s {
    memory =
        fill n.addr 1 n.n_bytes
          (copy new_addr n.addr (if ltb n.n_bytes n_bytes then n.n_bytes else n_bytes) s.memory);
    n_malloc = sub32 s.n_malloc 1;
  }

  -- `mut_mem__realloc` for a block in use.
  unfoldable pub move_block : Node → ℕ → SourcePos → Cmd (Mem W) ℕ
  unfolding retire malloc copy_over
  move_block n n_bytes pos = do
    modify (retire pos n)
    new_addr ← malloc n_bytes pos
    modify (copy_over n n_bytes new_addr)
    pure new_addr

  -- `mut_mem__realloc` for an address other than 0.
  unfoldable pub realloc_block : ℕ → ℕ → SourcePos → Cmd (Mem W) ℕ
  unfolding find_node move_block misuse
  realloc_block a n_bytes pos s = elim (find_node a s.in_use) [
    | none ↦ misuse a (reallocing_freed pos) (reallocing_unallocated pos a) s
    | some n ↦ move_block n n_bytes pos s
  ]

  -- `mut_mem__realloc`
  unfoldable pub realloc : ℕ → ℕ → SourcePos → Cmd (Mem W) ℕ
  unfolding malloc realloc_block
  realloc a n_bytes pos = do
    modify λ s. record s { n_realloc = add32 s.n_realloc 1 }
    if a == 0
        then (do
          modify λ s. record s { n_realloc0 = add32 s.n_realloc0 1; n_malloc = sub32 s.n_malloc 1 }
          malloc n_bytes pos)
        else realloc_block a n_bytes pos
