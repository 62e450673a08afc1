-- ===== src/Memory/Close.antt =====
-- src/mem/debug/mut_mem.c: mut_mem_close, with the report and the leaks.
use mut.Base.{
  ℕ, none, some, List, [], ◌∷◌, Cmd, get, modify, assert, skip, pure, ◌>>=◌, ◌>>◌, if◌then◌else◌,
  ◌==◌, sub32,
}
use mut.Memory.Defs.{
  Node, Entry, memory_leak, report_head, figure, last_figure, Libc, Mem, sys_free, emit,
}

-- The lines of the report.
unfoldable pub report_lines : {W : Type 0} → Mem W → List Entry
report_lines s =
    report_head
    ∷ figure "nBytesAllocated" s.n_bytes_allocated
    ∷ figure "nBytesInUse" s.n_bytes_in_use
    ∷ figure "maxBytesInUse" s.max_bytes_in_use
    ∷ figure "nBlocksInUse" s.n_blocks_in_use
    ∷ figure "maxBlocksInUse" s.max_blocks_in_use
    ∷ figure "nMallocCalls" s.n_malloc
    ∷ figure "nReallocCalls" s.n_realloc
    ∷ figure "nRealloc0Calls" s.n_realloc0
    ∷ figure "nFreeCalls" s.n_free
    ∷ last_figure "nFree0Calls" s.n_free0
    ∷ []

module _ {W : Type 0} (lib : Libc W) where
  -- `if (fprintf(...) < 0) status = code;`
  unfoldable pub put_line : ℕ → ℕ → Entry → ℕ → Cmd (Mem W) ℕ
  unfolding emit
  put_line code stream e status = do done ← emit lib stream e; pure (if done then status else code)

  unfoldable pub put_lines : ℕ → ℕ → List Entry → ℕ → Cmd (Mem W) ℕ
  unfolding put_line
  put_lines code stream [] status = pure status
  put_lines code stream (e ∷ es) status = do
    status' ← put_line code stream e status
    put_lines code stream es status'

  unfoldable pub write_report : Cmd (Mem W) ℕ
  unfolding put_lines report_lines
  write_report s = elim s.report [
    | none ↦ pure 0 s
    | some stream ↦ put_lines 2 stream (report_lines s) 0 s
  ]

  -- The loop over the blocks in use. The list itself is left pointing at what has been freed.
  unfoldable pub leak_all : List Node → ℕ → Cmd (Mem W) ℕ
  unfolding put_line sys_free
  leak_all [] status = pure status
  leak_all (p ∷ ps) status = do
    log ← get (λ s. s.log)
    status' ← put_line 1 log (memory_leak p.malloc_pos p.addr p.n_bytes) status
    modify λ s. record s {
      n_bytes_in_use = sub32 s.n_bytes_in_use p.n_bytes;
      n_blocks_in_use = sub32 s.n_blocks_in_use 1;
    }
    sys_free lib p.addr
    sys_free lib p.self
    leak_all ps status'

  -- The loop over the freed blocks.
  unfoldable pub free_all : List Node → Cmd (Mem W) (Unit {0})
  unfolding sys_free
  free_all [] = skip
  free_all (p ∷ ps) = do sys_free lib p.addr; sys_free lib p.self; free_all ps

  -- `mut_mem_close` once the leaks are reported: the assertions, and the freed blocks.
  unfoldable pub after_leaks : ℕ → Cmd (Mem W) ℕ
  unfolding free_all
  after_leaks status = do
    assert ((← get (λ s. s.n_bytes_in_use)) == 0)
    assert ((← get (λ s. s.n_blocks_in_use)) == 0)
    free_all (← get (λ s. s.freed))
    pure status

  unfoldable pub after_report : ℕ → Cmd (Mem W) ℕ
  unfolding leak_all after_leaks
  after_report reported = do status ← leak_all (← get (λ s. s.in_use)) reported; after_leaks status

  -- `mut_mem_close`
  unfoldable pub close : Cmd (Mem W) ℕ
  unfolding write_report after_report
  close = do reported ← write_report; after_report reported
