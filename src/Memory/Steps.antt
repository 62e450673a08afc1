-- ===== src/Memory/Steps.antt =====
-- src/mem/debug/mut_mem.c: how the operations end, for any property of their outcomes.
use mut.Base.{
  of_option, ℕ, ◌≡◌, none, some, List, Outcome, ok, fail, halt, and_then, after_fail, pure, modify,
  halted, ◌>>=◌, ◌>>◌, ◌on_fail◌,
}
use mut.Memory.Defs.{
  SourcePos, Node, Entry, Libc, Mem, node_size, find_node, enter, sys_malloc, sys_free, emit,
}
use mut.Memory.Operations.{malloc, misuse}

-- The node that `mut_mem__malloc` fills in.
unfoldable pub new_node : ℕ → ℕ → ℕ → SourcePos → Node
new_node self a n_bytes pos = record {
  self = self;
  addr = a;
  n_bytes = n_bytes;
  malloc_pos = pos;
  free_pos = record { line = 0; file_name = none };
}

-- The store in a later world, with what has been written since.
unfoldable pub later : {W : Type 0} → W → Mem W → Mem W
later w s = record s { world = w }

module _ {W : Type 0} (lib : Libc W) where
  sys_malloc_lem :
      (P : Outcome (Mem W) ℕ → Type 0) (n : ℕ) (s : Mem W)
      → ((a : ℕ) (w : W) → (lib.malloc n s.world).0 ≡ some a → P (ok a (later w s)))
      → ((w : W) → P (fail (later w s)))
      → P (sys_malloc lib n s)
  unfolding sys_malloc later
  sys_malloc_lem P n s granted refused =
      let w = (lib.malloc n s.world).1 in
      of_option P (lib.malloc n s.world).0 (fail (later w s)) (λ a. ok a (later w s))
        (λ _. refused w) (λ a. granted a w)

  -- `mut_mem__malloc` enters a block that malloc(3) granted, or changes nothing but the world.
  pub malloc_lem :
      (P : Outcome (Mem W) ℕ → Type 0) (n_bytes : ℕ) (pos : SourcePos) (s : Mem W)
      → ((a self : ℕ) (w : W)
          → (lib.malloc n_bytes s.world).0 ≡ some a
          → P (ok a (enter (new_node self a n_bytes pos) (later w s))))
      → ((w : W) → P (fail (later w s)))
      → P (malloc lib n_bytes pos s)
  unfolding malloc sys_free new_node later
  malloc_lem P n_bytes pos s granted refused =
      sys_malloc_lem
        (λ o. P (
          and_then o (λ addr.
            ((sys_malloc lib node_size on_fail sys_free lib addr)
              >>= (λ node. modify (enter (new_node node addr n_bytes pos)) >> pure addr)))))
        n_bytes s
        (λ a w h.
          sys_malloc_lem
            (λ o. P (
              and_then (after_fail o (sys_free lib a))
                (λ node. modify (enter (new_node node a n_bytes pos)) >> pure a)))
            node_size (later w s) (λ node w' _. granted a node w' h)
            (λ w'. refused (lib.free a w')))
        refused

  -- An address that is not in use stops MUT, and its blocks stay as they are.
  pub misuse_lem :
      {A : Type 0} (P : Outcome (Mem W) A → Type 0) (a : ℕ) (was_freed : SourcePos → Entry)
      (never : Entry) (s : Mem W)
      → ((w : W) (output : List (ℕ × Entry)) → P (halt (record s { world = w; output = output })))
      → P (misuse lib a was_freed never s)
  unfolding misuse emit
  misuse_lem P a was_freed never s stop =
      of_option P (find_node a s.freed) ((emit lib s.log never >>= (λ _. halted)) s)
        (λ n. (emit lib s.log (was_freed n.free_pos) >>= (λ _. halted)) s) (λ _. stop _ _)
        (λ n _. stop _ _)
