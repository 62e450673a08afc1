-- ===== src/Memory/Moving.antt =====
-- src/mem/debug/mut_mem.c: mut_mem__realloc of a block in use, with memory and without.
use mut.Base.{
  ◌∷◌, ℕ, ◌≡◌, ◌≢◌, ◌+◌, ◌≤◌, ◌<◌, ◌⊎◌, refl, none, some, ok, fail, halt, arith, add32, ltb,
  if◌then◌else◌, sym, subst,
}
use mut.Memory.Defs.{
  SourcePos, Node, freeing_freed, Libc, Mem, node_size, find_node, unlink_node, fill, copy, retire,
  enter, emit, sys_malloc,
}
use mut.Memory.Operations.{
  malloc, free, realloc, free_block, realloc_block, move_block, copy_over, misuse,
}
use mut.Memory.Blocks.{find_node-addr, find-unlink_same}
use mut.Memory.Closing.{Prints}
use mut.Memory.Valid.{IsValid}
use mut.Memory.Steps.{new_node, later}

copied :
    (to from n m i : ℕ) (memory : ℕ → ℕ)
    → (from + m ≤ to) ⊎ (to + n ≤ from)
    → i < n
    → i < m
    → fill from 1 m (copy to from (if ltb m n then m else n) memory) (to + i) ≡ memory (from + i)
unfolding fill copy
copied to from n m i memory apart small small' = ground arith

abbrev counted : {W : Type 0} → Mem W → Mem W
counted s = record s { n_realloc = add32 s.n_realloc 1 }

module _ {W : Type 0} (lib : Libc W) where
  malloc-granted :
      (n : ℕ) (pos : SourcePos) (s : Mem W) (b self : ℕ) (w w' : W)
      → lib.malloc n s.world ≡ (some b, w)
      → lib.malloc node_size w ≡ (some self, w')
      → malloc lib n pos s ≡ ok b (enter (new_node self b n pos) (later w' s))
  unfolding malloc sys_malloc later new_node
  malloc-granted n pos s b self w w' h h' = ground (arith, h, h')

  malloc-refused :
      (n : ℕ) (pos : SourcePos) (s : Mem W) (w : W)
      → lib.malloc n s.world ≡ (none, w)
      → malloc lib n pos s ≡ fail (later w s)
  unfolding malloc sys_malloc later
  malloc-refused n pos s w h = ground (arith, h)

  realloc-move_block :
      (a n : ℕ) (pos : SourcePos) (node : Node) (s : Mem W)
      → a ≢ 0
      → find_node a s.in_use ≡ some node
      → realloc lib a n pos s ≡ move_block lib node n pos (counted s)
  unfolding realloc realloc_block
  realloc-move_block a n pos node s ne found = ground (arith, found)

  -- A realloc of a block in use, for which malloc(3) grants a block that does not overlap it and a
  -- node, returns that block, and each byte that lies in both sizes is there what it was in the
  -- old block before.
  pub realloc-copies :
      (a n : ℕ) (pos : SourcePos) (node : Node) (s : Mem W) (b self : ℕ) (w w' : W)
      → a ≢ 0
      → find_node a s.in_use ≡ some node
      → lib.malloc n s.world ≡ (some b, w)
      → lib.malloc node_size w ≡ (some self, w')
      → (a + node.n_bytes ≤ b) ⊎ (b + n ≤ a)
      → (t : Mem W) × (realloc lib a n pos s ≡ ok b t)
        × ((i : ℕ) → i < n → i < node.n_bytes → t.memory (b + i) ≡ s.memory (a + i))
  unfolding move_block copy_over retire later enter
  realloc-copies a n pos node s b self w w' ne found granted granted' apart =
      let old = retire pos node (counted s) in
      let at = find_node-addr a s.in_use node found in
      (
        copy_over lib node n b (enter (new_node self b n pos) (later w' old)),
        ground (
          arith,
          realloc-move_block a n pos node s ne found,
          malloc-granted n pos old b self w w' granted granted',
        ),
        λ i small small'.
            subst
              (λ x.
                fill x 1 node.n_bytes
                  (copy b x (if ltb node.n_bytes n then node.n_bytes else n) s.memory) (b + i)
                ≡ s.memory (a + i))
              (sym at) (copied b a n node.n_bytes i s.memory apart small small'),
      )

  free-stopped :
      (a : ℕ) (pos : SourcePos) (node : Node) (s : Mem W)
      → Prints lib
      → a ≢ 0
      → find_node a s.in_use ≡ none
      → find_node a s.freed ≡ some node
      → (u : Mem W) × (free lib a pos s ≡ halt u)
        × (u.output ≡ (s.log, freeing_freed pos node.free_pos) ∷ s.output)
  unfolding free free_block misuse emit
  free-stopped a pos node s prints ne gone found =
      let e = freeing_freed pos node.free_pos in
      (
        record s {
          n_free = add32 s.n_free 1;
          world = (lib.print s.log e s.world).1;
          output = (s.log, e) ∷ s.output;
        },
        ground (arith, gone, found, prints s.log e s.world),
        refl,
      )

  -- In a valid store whose writes succeed, when malloc(3) refuses the memory for a realloc of a
  -- block in use, mut_mem__realloc returns 0, and a later free of that block is reported as
  -- freeing memory that was freed where the realloc was called, and stops MUT.
  pub realloc_lost-free :
      (a n : ℕ) (pos pos' : SourcePos) (node : Node) (s : Mem W) (w : W)
      → Prints lib
      → IsValid s
      → a ≢ 0
      → find_node a s.in_use ≡ some node
      → lib.malloc n s.world ≡ (none, w)
      → (t : Mem W) × (u : Mem W) × (realloc lib a n pos s ≡ fail t)
        × (free lib a pos' t ≡ halt u)
        × (u.output ≡ (s.log, freeing_freed pos' pos) ∷ s.output)
  unfolding move_block retire later find_node
  realloc_lost-free a n pos pos' node s w prints v ne found refused =
      let old = retire pos node (counted s) in
      let at = find_node-addr a s.in_use node found in
      let (u, stop, output) =
        free-stopped a pos' (record node { free_pos = pos }) (later w old) prints ne
          (subst (λ x. find_node a (unlink_node x s.in_use) ≡ none) (sym at)
            (find-unlink_same a s.in_use v.distinct))
          (ground (arith, at)) in
      (
        later w old,
        u,
        ground
            (arith, realloc-move_block a n pos node s ne found, malloc-refused n pos old w refused),
        stop,
        output,
      )
