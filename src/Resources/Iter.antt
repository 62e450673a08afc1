-- ===== src/Resources/Iter.antt =====
-- The iterator of src/resources/list/mut_resources.c, and what a whole walk yields.
use mut.Base.{
  ℕ, zero, suc, ◌+◌, ◌<◌, ◌≡◌, refl, Bool, not, ◌&&◌, Option, none, some, List, [], ◌∷◌, arith,
  length, if◌then◌else◌, add32,
}
use mut.Resources.Defs.{Resource, Resources, deleted}

-- `struct mut_resources_iter`
pub record Iter : Type 0 where
  pub elem : List Resource
  pub all : Bool

-- `mut_resources_iter_open`: the number of resources announced, and the iterator.
unfoldable pub iter_open : Resources → Bool → ℕ × Iter
iter_open rs all =
    (add32 rs.n_active (if all then rs.n_consumed else 0), record { elem = rs.elems; all = all })

-- The loop of `mut_resources_iter_read`: to the next resource that is wanted.
unfoldable pub next : Bool → List Resource → Option Resource × List Resource
next all [] = (none, [])
next all (r ∷ rs) = let rest = next all rs in if not all && deleted r then rest else (some r, rs)

unfoldable pub iter_read : Iter → Option Resource × Iter
unfolding next
iter_read it = let (r, rest) = next it.all it.elem in (r, record it { elem = rest })

unfoldable pub iter_close : Iter → Iter
iter_close it = record it { elem = [] }

-- `while ((r = mut_resources_iter_read(&iter)) != 0)`: the resources that the body sees.
unfoldable pub drain : ℕ → Iter → List Resource
unfolding iter_read
drain zero it = []
drain (suc fuel) it = elim (iter_read it).0 [ none ↦ [] | some r ↦ r ∷ drain fuel (iter_read it).1 ]

-- The resources that a walk is meant to visit.
unfoldable pub selected : Bool → List Resource → List Resource
selected all [] = []
selected all (r ∷ rs) = if not all && deleted r then selected all rs else r ∷ selected all rs

next-selected :
    (all : Bool) (rs : List Resource)
    → selected all rs
      ≡ elim (next all rs).0 [ none ↦ [] | some r ↦ r ∷ selected all (next all rs).1 ]
unfolding next selected
next-selected all [] = refl
next-selected all (r ∷ rs) = ground (arith, next-selected all rs)

length-next :
    (all : Bool) (rs : List Resource)
    → (elim (next all rs).0 [ none ↦ 0 | some _ ↦ 1 ]) + length (next all rs).1 < length rs + 1
unfolding next
length-next all [] = omega arith
length-next all (r ∷ rs) = ground (arith, length-next all rs)

-- With fuel above the length of the list, reading an iterator to its end yields each resource that
-- is wanted once, in the order of the list, and nothing else.
pub drain-selected :
    (fuel : ℕ) (all : Bool) (rs : List Resource)
    → length rs < fuel
    → drain fuel (record { elem = rs; all = all }) ≡ selected all rs
unfolding drain
drain-selected zero all rs h = absurd (omega arith)
drain-selected (suc fuel) all rs h =
    ground
      (arith, next-selected all rs, length-next all rs, drain-selected fuel all (next all rs).1)
