-- ===== src/Manager/Peaks.antt =====
-- The order between the statistics of src/mut.c, for any counters with the laws.
use mut.Base.{ℕ, ◌+◌, ◌-◌, ◌≤◌, ◌<◌, ◌≡◌, some, arith}
use mut.Counter.{CounterOps, CounterLaws}
use mut.Manager.State.{Stats}
use mut.Manager.Stats.{open_stats, add_stat, collect, release}

module _ {C : Type 0} (ops : CounterOps C) (laws : CounterLaws ops) where
  -- What is allocated now is at most each peak and at most what was allocated in all, and all is
  -- below the limit of the counters.
  pub record Peaks (s : Stats C) : Type 0 where
    pub space_peak : laws.value s.now.space ≤ laws.value s.max_space.space
    pub count_peak : laws.value s.now.count ≤ laws.value s.max_count.count
    pub space_total : laws.value s.max_space.space ≤ laws.value s.total.space
    pub count_total : laws.value s.max_count.count ≤ laws.value s.total.count
    pub space_limit : laws.value s.total.space < laws.limit
    pub count_limit : laws.value s.total.count < laws.limit

  pub open_stats-Peaks : 0 < laws.limit → Peaks (open_stats ops)
  unfolding open_stats
  open_stats-Peaks h = ground (arith, laws.value-from_uint 0)

  -- With counters that obey the laws, adding an object for which the totals have room adds its
  -- size and one to what is in use, and keeps what is in use at most each peak, each peak at most
  -- the total, and the totals below the limit.
  pub collect-Peaks :
      (size : ℕ) (s : Stats C)
      → Peaks s
      → laws.value s.total.space + size < laws.limit
      → laws.value s.total.count + 1 < laws.limit
      → Peaks (collect ops size s)
        × (laws.value (collect ops size s).now.space ≡ laws.value s.now.space + size)
        × (laws.value (collect ops size s).now.count ≡ laws.value s.now.count + 1)
  unfolding collect add_stat
  collect-Peaks size s p h k = ground (
    arith,
    laws.value-inc s.now.space size,
    laws.value-inc s.now.count 1,
    laws.value-inc s.total.space size,
    laws.value-inc s.total.count 1,
    laws.lt_iff s.max_space.space (ops.inc s.now.space size),
    laws.lt_iff s.max_count.count (ops.inc s.now.count 1),
  )

  -- With counters that obey the laws, taking an object of at most the space in use from the
  -- statistics, where some object is in use, fails no assertion, subtracts its size and one from
  -- what is in use, and keeps what is in use at most each peak, each peak at most the total, and
  -- the totals below the limit.
  pub release-Peaks :
      (size : ℕ) (s : Stats C)
      → Peaks s
      → size ≤ laws.value s.now.space
      → 1 ≤ laws.value s.now.count
      → (t : Stats C) × (release ops size s ≡ some t)
        × Peaks t
        × (laws.value t.now.space ≡ laws.value s.now.space - size)
        × (laws.value t.now.count ≡ laws.value s.now.count - 1)
  unfolding release
  release-Peaks size s p h k =
      let (space, done, v) = laws.dec-some s.now.space size (ground arith) h in
      let (count, done', v') = laws.dec-some s.now.count 1 (ground arith) k in
      (
        record s { now = record { space = space; count = count } },
        ground arith,
        record {
          space_peak = ground arith;
          count_peak = ground arith;
          space_total = p.space_total;
          count_total = p.count_total;
          space_limit = p.space_limit;
          count_limit = p.count_limit;
        },
        v,
        v',
      )
