-- ===== src/Manager/Stats.antt =====
-- The statistics of src/mut.c: what is allocated now, in all, and at the two peaks.
use mut.Base.{ℕ, Option, none, some, if◌then◌else◌}
use mut.Counter.{CounterOps}
use mut.Manager.State.{Stat, Stats}

module _ {C : Type 0} (ops : CounterOps C) where
  -- `mut_open` sets every counter to zero.
  unfoldable pub open_stats : Stats C
  open_stats =
      let zero_stat : Stat C = record { space = ops.from_uint 0; count = ops.from_uint 0 } in
      record { now = zero_stat; total = zero_stat; max_space = zero_stat; max_count = zero_stat }

  unfoldable pub add_stat : ℕ → Stat C → Stat C
  add_stat size s = record { space = ops.inc s.space size; count = ops.inc s.count 1 }

  -- `mut_collect_producer_stats`
  unfoldable pub collect : ℕ → Stats C → Stats C
  unfolding add_stat
  collect size s =
      let now : Stat C = add_stat size s.now in
      record {
        now = now;
        total = add_stat size s.total;
        max_space = if ops.lt s.max_space.space now.space then now else s.max_space;
        max_count = if ops.lt s.max_count.count now.count then now else s.max_count;
      }

  -- The two lines that take a consumed object from what is allocated now.
  unfoldable pub release : ℕ → Stats C → Option (Stats C)
  release size s = elim (ops.dec s.now.space size) [
    | none ↦ none
    | some space ↦ elim (ops.dec s.now.count 1) [
      | none ↦ none
      | some count ↦ some (record s { now = record { space = space; count = count } })
    ]
  ]
