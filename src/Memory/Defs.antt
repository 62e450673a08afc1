-- ===== src/Memory/Defs.antt =====
-- src/mem/debug/mut_mem.c: `struct mem`, its nodes, and the steps that the operations share. What
-- malloc(3), free(3) and fprintf(3) do is the parameter `Libc`.
use mut.Base.{
  ℕ, String, Bool, Option, none, some, List, [], ◌∷◌, ◌+◌, ◌-◌, ◌&&◌, Cmd, ok, fail, modify,
  if◌then◌else◌, ltb, leb, ◌==◌, add32, sub32,
}

-- `struct mut_mem_source_pos`; `file_name` is a pointer that may be null.
pub record SourcePos : Type 0 where
  pub line : ℕ
  pub file_name : Option String

-- `struct mut_mem_node`; `self` is the address of the node itself.
pub record Node : Type 0 where
  pub self : ℕ
  pub addr : ℕ
  pub n_bytes : ℕ
  pub malloc_pos : SourcePos
  pub free_pos : SourcePos

-- What is written to the log and to the report.
pub data Entry : Type 0 where
  freeing_freed : SourcePos → SourcePos → Entry
  freeing_unallocated : SourcePos → ℕ → Entry
  reallocing_freed : SourcePos → SourcePos → Entry
  reallocing_unallocated : SourcePos → ℕ → Entry
  memory_leak : SourcePos → ℕ → ℕ → Entry
  report_head : Entry
  figure : String → ℕ → Entry
  last_figure : String → ℕ → Entry

-- `malloc` has no address when it returns 0; `print` on a stream is true when fprintf does not
-- return a negative number.
pub record Libc (W : Type 0) : Type 0 where
  pub malloc : ℕ → W → Option ℕ × W
  pub free : ℕ → W → W
  pub print : ℕ → Entry → W → Bool × W
  pub stderr : ℕ

-- `struct mem`; a stream is a number. `memory` is what the bytes of the address space hold, and
-- `output` what was written to which stream, the latest first. `halt` is always `abort`.
pub record Mem (W : Type 0) : Type 0 where
  pub world : W
  pub memory : ℕ → ℕ
  pub output : List (ℕ × Entry)
  pub in_use : List Node
  pub freed : List Node
  pub n_bytes_allocated : ℕ
  pub n_bytes_in_use : ℕ
  pub n_blocks_in_use : ℕ
  pub max_bytes_in_use : ℕ
  pub max_blocks_in_use : ℕ
  pub n_malloc : ℕ
  pub n_realloc : ℕ
  pub n_realloc0 : ℕ
  pub n_free : ℕ
  pub n_free0 : ℕ
  pub log : ℕ
  pub report : Option ℕ

-- `sizeof(struct mut_mem_node)`: seven words.
abbrev pub node_size : ℕ
node_size = 28

-- The node for an address, by the walks along `next`.
unfoldable pub find_node : ℕ → List Node → Option Node
find_node a [] = none
find_node a (n ∷ ns) = if n.addr == a then some n else find_node a ns

-- `*p = n->next` at the node that the walk finds.
unfoldable pub unlink_node : ℕ → List Node → List Node
unlink_node a [] = []
unlink_node a (n ∷ ns) = if n.addr == a then ns else n ∷ unlink_node a ns

-- memset(3)
unfoldable pub fill : ℕ → ℕ → ℕ → (ℕ → ℕ) → ℕ → ℕ
fill start byte n memory a = if leb start a && ltb a (start + n) then byte else memory a

-- memcpy(3)
unfoldable pub copy : ℕ → ℕ → ℕ → (ℕ → ℕ) → ℕ → ℕ
copy to from n memory a = if leb to a && ltb a (to + n) then memory (from + (a - to)) else memory a

module _ {W : Type 0} where
  -- A node leaves the list of blocks in use for the list of freed ones.
  unfoldable pub retire : SourcePos → Node → Mem W → Mem W
  unfolding unlink_node
  retire pos n s = record s {
    in_use = unlink_node n.addr s.in_use;
    freed = record n { free_pos = pos } ∷ s.freed;
    n_bytes_in_use = sub32 s.n_bytes_in_use n.n_bytes;
    n_blocks_in_use = sub32 s.n_blocks_in_use 1;
  }

  -- A new node, in front of those in use, and the figures that change with it.
  unfoldable pub enter : Node → Mem W → Mem W
  enter n s =
      let bytes = add32 s.n_bytes_in_use n.n_bytes in
      let blocks = add32 s.n_blocks_in_use 1 in
      record s {
        in_use = n ∷ s.in_use;
        n_malloc = add32 s.n_malloc 1;
        n_bytes_allocated = add32 s.n_bytes_allocated n.n_bytes;
        n_bytes_in_use = bytes;
        max_bytes_in_use = if ltb s.max_bytes_in_use bytes then bytes else s.max_bytes_in_use;
        n_blocks_in_use = blocks;
        max_blocks_in_use = if ltb s.max_blocks_in_use blocks then blocks else s.max_blocks_in_use;
      }

module _ {W : Type 0} (lib : Libc W) where
  -- malloc(3), with `fail` for 0.
  unfoldable pub sys_malloc : ℕ → Cmd (Mem W) ℕ
  sys_malloc n s =
      let (block, w) = lib.malloc n s.world in
      elim block [ none ↦ fail (record s { world = w }) | some a ↦ ok a (record s { world = w }) ]

  unfoldable pub sys_free : ℕ → Cmd (Mem W) (Unit {0})
  sys_free a = modify λ s. record s { world = lib.free a s.world }

  -- fprintf(3) on a stream: true when the entry was written.
  unfoldable pub emit : ℕ → Entry → Cmd (Mem W) Bool
  emit stream e s =
      let (done, w) = lib.print stream e s.world in
      ok done (record s { world = w; output = if done then (stream, e) ∷ s.output else s.output })
