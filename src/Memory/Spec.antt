-- ===== src/Memory/Spec.antt =====
-- src/mem/debug/mut_mem.c: what the allocator promises to its callers, with the nodes forgotten: a
-- map from the addresses of the blocks in use to their sizes.
use mut.Base.{
  ℕ, ◌≡◌, ◌≢◌, Option, none, some, List, [], ◌∷◌, Outcome, ok, fail, halt, spent, if◌then◌else◌,
  ◌==◌,
}
use mut.Memory.Defs.{SourcePos, Libc, Mem, find_node}
use mut.Memory.Operations.{malloc, free, realloc}

abbrev pub Heap : Type 0
Heap = ℕ → Option ℕ

abbrev pub put : ℕ → ℕ → Heap → Heap
put a n h x = if a == x then some n else h x

abbrev pub drop : ℕ → Heap → Heap
drop a h x = if a == x then none else h x

-- The sizes of the blocks in use.
unfoldable pub heap : {W : Type 0} → Mem W → Heap
unfolding find_node
heap s a = elim (find_node a s.in_use) [ none ↦ none | some n ↦ some n.n_bytes ]

pub data Call : Type 0 where
  alloc : ℕ → SourcePos → Call
  release : ℕ → SourcePos → Call
  resize : ℕ → ℕ → SourcePos → Call

-- How a call ends: with an address, with 0, with no result, or in `halt`.
pub data Answer : Type 0 where
  address : ℕ → Answer
  null : Answer
  done : Answer
  stopped : Answer

module _ {W : Type 0} where
  abbrev pub answer : {A : Type 0} → (A → Answer) → Outcome (Mem W) A → Answer × Mem W
  answer f (ok a s) = (f a, s)
  answer f (fail s) = (null, s)
  answer f (halt s) = (stopped, s)
  answer f (spent s) = (stopped, s)

  unfoldable pub call : Libc W → Call → Mem W → Answer × Mem W
  unfolding malloc free realloc
  call lib (alloc n pos) s = answer address (malloc lib n pos s)
  call lib (release a pos) s = answer (λ _. done) (free lib a pos s)
  call lib (resize a n pos) s = answer address (realloc lib a n pos s)

-- What a call may do to the map. A realloc that cannot have its memory loses the block.
pub data Allows : Heap → Call → Answer → Heap → Type 0 where
  granted :
      {h : Heap} {n a : ℕ} {pos : SourcePos}
      → h a ≡ none
      → a ≢ 0
      → Allows h (alloc n pos) (address a) (put a n h)
  refused : {h : Heap} {n : ℕ} {pos : SourcePos} → Allows h (alloc n pos) null h
  freed_null : {h : Heap} {pos : SourcePos} → Allows h (release 0 pos) done h
  freed :
      {h : Heap} {a n : ℕ} {pos : SourcePos}
      → h a ≡ some n
      → Allows h (release a pos) done (drop a h)
  freed_stray :
      {h : Heap} {a : ℕ} {pos : SourcePos} → a ≢ 0 → h a ≡ none → Allows h (release a pos) stopped h
  resized_null :
      {h h' : Heap} {n : ℕ} {r : Answer} {pos : SourcePos}
      → Allows h (alloc n pos) r h'
      → Allows h (resize 0 n pos) r h'
  resized :
      {h : Heap} {a b k n : ℕ} {pos : SourcePos}
      → h a ≡ some k
      → h b ≡ none
      → b ≢ 0
      → Allows h (resize a n pos) (address b) (put b n (drop a h))
  resized_lost :
      {h : Heap} {a k n : ℕ} {pos : SourcePos}
      → h a ≡ some k
      → Allows h (resize a n pos) null (drop a h)
  resized_stray :
      {h : Heap} {a n : ℕ} {pos : SourcePos}
      → a ≢ 0
      → h a ≡ none
      → Allows h (resize a n pos) stopped h

-- A sequence of calls, with the map before and after.
pub data Session : Heap → List (Call × Answer) → Heap → Type 0 where
  over : {h : Heap} → Session h [] h
  further :
      {h h' h'' : Heap} {c : Call} {r : Answer} {rest : List (Call × Answer)}
      → Allows h c r h'
      → Session h' rest h''
      → Session h ((c, r) ∷ rest) h''
