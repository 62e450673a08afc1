-- ===== src/Backtrace/Store.antt =====
-- src/backtrace/fixed/mut_backtrace.c: the backtraces that are in use, by address. Address 0 is the
-- null pointer; an address is not used again, so that a stale pointer stays visibly stale.
use mut.Base.{
  ℕ, ◌+◌, ◌-◌, ◌<◌, ◌≡◌, Option, none, some, List, [], arith, ◌==◌, if◌then◌else◌, add32,
}

-- `struct mut_backtrace`, less its pointer to the executable.
pub record Backtrace : Type 0 where
  pub ref_count : ℕ
  pub frames : List ℕ

pub record Store : Type 0 where
  pub next : ℕ
  pub cell : ℕ → Option Backtrace

unfoldable pub empty : Store
empty = record { next = 1; cell = λ _. none }

unfoldable pub write : ℕ → Option Backtrace → Store → Store
write p c s = record s { cell = λ q. if q == p then c else s.cell q }

-- `mut_backtrace_open`, once the memory is granted.
unfoldable pub alloc : Store → ℕ × Store
unfolding write
alloc s = (
  s.next,
  record (write s.next (some (record { ref_count = 1; frames = [] })) s) { next = s.next + 1 },
)

-- The frames that were entered into the backtrace at `p`.
unfoldable pub set_frames : ℕ → List ℕ → Store → Store
unfolding write
set_frames p fs s = elim (s.cell p) [
  | none ↦ s
  | some b ↦ write p (some (record b { frames = fs })) s
]

unfoldable pub frames_at : ℕ → Store → List ℕ
frames_at p s = elim (s.cell p) [ none ↦ [] | some b ↦ b.frames ]

-- `mut_backtrace_share`; `none` when `p` is null or has been given back.
unfoldable pub share : ℕ → Store → Option Store
unfolding write
share p s = elim (s.cell p) [
  | none ↦ none
  | some b ↦ some (write p (some (record b { ref_count = add32 b.ref_count 1 })) s)
]

-- `mut_backtrace_close`: the last reference gives the memory back.
unfoldable pub close : ℕ → Store → Option Store
unfolding write
close p s = elim (s.cell p) [
  | none ↦ none
  | some b ↦
      if b.ref_count == 0
      then none
      else if b.ref_count - 1 == 0
      then some (write p none s)
      else some (write p (some (record b { ref_count = b.ref_count - 1 })) s)
]

-- `if (bt) mut_backtrace_close(bt)`
unfoldable pub close_any : ℕ → Store → Option Store
close_any p s = if p == 0 then some s else close p s

-- The references to `p`: none once it has been given back.
unfoldable pub count_at : ℕ → Store → ℕ
count_at p s = elim (s.cell p) [ none ↦ 0 | some b ↦ b.ref_count ]

-- Sharing a live backtrace whose count has room succeeds and raises its count by one; the counts of
-- the others stay.
pub share_counts :
    (p q : ℕ) (s : Store)
    → 0 < count_at p s
    → count_at p s + 1 < 4294967296
    → (t : Store) × (share p s ≡ some t)
      × (count_at q t ≡ (if q == p then count_at p s + 1 else count_at q s))
unfolding share count_at
share_counts p q s live small =
    (elim (share p s) [ none ↦ s | some t ↦ t ], ground arith, ground arith)

-- Closing a live backtrace succeeds and lowers its count by one; the counts of the others stay.
pub close_counts :
    (p q : ℕ) (s : Store)
    → 0 < count_at p s
    → (t : Store) × (close p s ≡ some t)
      × (count_at q t ≡ (if q == p then count_at p s - 1 else count_at q s))
unfolding close count_at
close_counts p q s live = (elim (close p s) [ none ↦ s | some t ↦ t ], ground arith, ground arith)

-- Sharing a live backtrace whose count has room and closing it once both succeed, and leave the
-- count of every backtrace as it was.
pub close-share_counts :
    (p q : ℕ) (s : Store)
    → 0 < count_at p s
    → count_at p s + 1 < 4294967296
    → (t u : Store) × (share p s ≡ some t) × (close p t ≡ some u) × (count_at q u ≡ count_at q s)
unfolding count_at share close
close-share_counts p q s live small = (
  elim (share p s) [ none ↦ s | some t ↦ t ],
  elim (share p s) [ none ↦ s | some t ↦ elim (close p t) [ none ↦ s | some u ↦ u ] ],
  ground arith,
  ground arith,
  ground arith,
)
