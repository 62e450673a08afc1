-- ===== src/Resources/Count.antt =====
-- The two counts of `struct mut_resources` against the list, and when a table is valid.
use mut.Base.{
  ℕ, ◌+◌, ◌^◌, ◌<◌, ◌≡◌, refl, Bool, true, false, none, some, List, [], ◌∷◌, arith, length,
  if◌then◌else◌,
}
use mut.Backtrace.Store.{Store}
use mut.Resources.Defs.{
  ActionId, Resource, Resources, deleted, find, fresh, insert, update, assign, unlink,
  really_delete, consume, mark_as_free, delete, open_resources,
}
use mut.Resources.Iter.{selected, iter_open}

unfoldable pub active : List Resource → ℕ
active [] = 0
active (r ∷ rs) = (if deleted r then 0 else 1) + active rs

unfoldable pub consumed : List Resource → ℕ
consumed [] = 0
consumed (r ∷ rs) = (if deleted r then 1 else 0) + consumed rs

-- No address is listed twice.
abbrev pub Distinct : List Resource → Type 0
Distinct [] = Unit
Distinct (r ∷ rs) = (find r.addr rs ≡ none) × Distinct rs

pub record IsValid (rs : Resources) : Type 0 where
  pub distinct : Distinct rs.elems
  pub active_count : rs.n_active ≡ active rs.elems
  pub consumed_count : rs.n_consumed ≡ consumed rs.elems
  pub small : length rs.elems < 2 ^ 32

-- A change of one resource that keeps its address.
abbrev pub KeepsAddr : (Resource → Resource) → Type 0
KeepsAddr f = (r : Resource) → (f r).addr ≡ r.addr

pub active-le-length : (rs : List Resource) → active rs + consumed rs ≡ length rs
unfolding active consumed
active-le-length [] = refl
active-le-length (r ∷ rs) = ground (arith, active-le-length rs)

pub find-addr : (a : ℕ) (rs : List Resource) (r : Resource) → find a rs ≡ some r → r.addr ≡ a
unfolding find
find-addr a [] r h = cc
find-addr a (x ∷ rs) r h = ground (arith, find-addr a rs r)

pub find-update-none :
    (a b : ℕ) (f : Resource → Resource) (rs : List Resource)
    → KeepsAddr f
    → find b rs ≡ none
    → find b (update a f rs) ≡ none
unfolding find update
find-update-none a b f [] k h = refl
find-update-none a b f (r ∷ rs) k h = ground (arith, k r, find-update-none a b f rs k)

pub find-unlink-none :
    (a b : ℕ) (rs : List Resource) → find b rs ≡ none → find b (unlink a rs) ≡ none
unfolding find unlink
find-unlink-none a b [] h = refl
find-unlink-none a b (r ∷ rs) h = ground (arith, find-unlink-none a b rs)

pub Distinct-update :
    (a : ℕ) (f : Resource → Resource) (rs : List Resource)
    → KeepsAddr f
    → Distinct rs
    → Distinct (update a f rs)
unfolding update
Distinct-update a f [] k d = tt
Distinct-update a f (r ∷ rs) k d =
    ground (arith, k r, Distinct-update a f rs k, find-update-none a r.addr f rs k)

pub Distinct-unlink : (a : ℕ) (rs : List Resource) → Distinct rs → Distinct (unlink a rs)
unfolding unlink
Distinct-unlink a [] d = tt
Distinct-unlink a (r ∷ rs) d = ground (arith, Distinct-unlink a rs, find-unlink-none a r.addr rs)

pub length-update :
    (a : ℕ) (f : Resource → Resource) (rs : List Resource) → length (update a f rs) ≡ length rs
unfolding update
length-update a f [] = refl
length-update a f (r ∷ rs) = ground (arith, length-update a f rs)

-- Marking the live resource at `a` moves one from the active to the consumed.
pub counts-consume :
    (a : ℕ) (c : ActionId) (bt : ℕ) (rs : List Resource) (r : Resource)
    → find a rs ≡ some r
    → deleted r ≡ false
    → (active (update a (consume c bt) rs) + 1 ≡ active rs)
      × (consumed (update a (consume c bt) rs) ≡ consumed rs + 1)
unfolding active consumed update find consume
counts-consume a c bt [] r h live = cc
counts-consume a c bt (x ∷ rs) r h live = ground (arith, counts-consume a c bt rs r)

pub counts-unlink :
    (a : ℕ) (rs : List Resource) (r : Resource)
    → find a rs ≡ some r
    → deleted r ≡ false
    → (active (unlink a rs) + 1 ≡ active rs)
      × (consumed (unlink a rs) ≡ consumed rs)
      × (length (unlink a rs) < length rs)
unfolding active consumed unlink find
counts-unlink a [] r h live = cc
counts-unlink a (x ∷ rs) r h live = ground (arith, counts-unlink a rs r)

-- A change that does not touch `consumer.action` keeps both counts.
counts-update :
    (a : ℕ) (f : Resource → Resource) (rs : List Resource)
    → ((r : Resource) → deleted (f r) ≡ deleted r)
    → (active (update a f rs) ≡ active rs) × (consumed (update a f rs) ≡ consumed rs)
unfolding active consumed update
counts-update a f [] k = (refl, refl)
counts-update a f (x ∷ rs) k = ground (arith, k x, counts-update a f rs k)

-- The empty table of `mut_resources_open` is valid.
pub open_resources-IsValid : (b : Bool) → IsValid (open_resources b)
unfolding open_resources active consumed
open_resources-IsValid b = ground arith

-- A resource that is added at an address that is not listed, to a valid table with room below 2 ^
-- 32 entries, leaves a valid table.
pub insert-IsValid :
    (junk a : ℕ) (rs : Resources)
    → IsValid rs
    → find a rs.elems ≡ none
    → length rs.elems + 1 < 2 ^ 32
    → IsValid (insert junk a rs)
unfolding insert fresh active consumed
insert-IsValid junk a rs v new room = ground (arith, active-le-length rs.elems)

pub assign-IsValid :
    (a : ℕ) (f : Resource → Resource) (rs : Resources)
    → KeepsAddr f
    → ((r : Resource) → deleted (f r) ≡ deleted r)
    → IsValid rs
    → IsValid (assign a f rs)
unfolding assign
assign-IsValid a f rs k kd v = ground (
  arith,
  counts-update a f rs.elems kd,
  Distinct-update a f rs.elems k,
  length-update a f rs.elems,
)

mark_as_free-IsValid :
    (obj : Resource) (c : ActionId) (bt : ℕ) (rs : Resources) (bts : Store) (rs' : Resources)
    (bts' : Store)
    → IsValid rs
    → find obj.addr rs.elems ≡ some obj
    → mark_as_free obj c bt rs bts ≡ some (rs', bts')
    → IsValid rs'
unfolding mark_as_free
mark_as_free-IsValid obj c bt rs bts rs' bts' v found h = ground (
  arith,
  counts-consume obj.addr c bt rs.elems obj,
  active-le-length rs.elems,
  Distinct-update obj.addr (consume c bt) rs.elems (unfold consume in λ r. refl),
  length-update obj.addr (consume c bt) rs.elems,
)

really_delete-IsValid :
    (obj : Resource) (rs : Resources) (bts : Store) (rs' : Resources) (bts' : Store)
    → IsValid rs
    → find obj.addr rs.elems ≡ some obj
    → really_delete obj rs bts ≡ some (rs', bts')
    → IsValid rs'
unfolding really_delete
really_delete-IsValid obj rs bts rs' bts' v found h = ground (
  arith,
  counts-unlink obj.addr rs.elems obj,
  active-le-length rs.elems,
  Distinct-unlink obj.addr rs.elems,
)

-- Deleting a listed resource of a valid table, where no assertion fails, leaves a valid table: no
-- address is listed twice, and both counts are those of the list.
pub delete-IsValid :
    (obj : Resource) (c : ActionId) (bt : ℕ) (rs : Resources) (bts : Store) (rs' : Resources)
    (bts' : Store)
    → IsValid rs
    → find obj.addr rs.elems ≡ some obj
    → delete obj c bt rs bts ≡ some (rs', bts')
    → IsValid rs'
unfolding delete
delete-IsValid obj c bt rs bts rs' bts' v found h = ground (
  arith,
  mark_as_free-IsValid obj c bt rs bts rs' bts' v found,
  really_delete-IsValid obj rs bts rs' bts' v found,
)

-- In a valid table the number that `mut_resources_iter_open` announces is the number of resources
-- that the walk then yields.
pub length-selected :
    (rs : List Resource)
    → (length (selected false rs) ≡ active rs) × (length (selected true rs) ≡ length rs)
unfolding selected active
length-selected [] = (refl, refl)
length-selected (r ∷ rs) = ground (arith, length-selected rs)

-- The number of resources that mut_resources_iter_open announces for a valid table is the number
-- of those that are wanted.
pub iter_open-count :
    (rs : Resources) (all : Bool)
    → IsValid rs
    → (iter_open rs all).0 ≡ length (selected all rs.elems)
unfolding iter_open
iter_open-count rs true v = ground (arith, length-selected rs.elems, active-le-length rs.elems)
iter_open-count rs false v = ground (arith, length-selected rs.elems, active-le-length rs.elems)
