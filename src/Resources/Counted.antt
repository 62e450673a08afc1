-- ===== src/Resources/Counted.antt =====
-- The counts of `struct mut_resources` modulo the width of `size_t`, with no bound on the length
-- of the list, and the mode: where memory is really freed, no consumed resource is kept.
use mut.Base.{ℕ, ◌%◌, ◌^◌, ◌≡◌, refl, Bool, true, false, Option, none, some, List, [], ◌∷◌, arith}
use mut.Backtrace.Store.{Store}
use mut.Resources.Defs.{
  ActionId, Resource, Resources, deleted, find, lookup, fresh, insert, update, assign,
  really_delete, mark_as_free, delete, open_resources,
}
use mut.Resources.Count.{active, consumed, counts-consume, counts-unlink}

pub record Counted (rs : Resources) : Type 0 where
  pub active_count : rs.n_active ≡ active rs.elems % 2 ^ 32
  pub consumed_count : rs.n_consumed ≡ consumed rs.elems % 2 ^ 32
  pub mode : rs.really_free ≡ true → consumed rs.elems ≡ 0

pub open_resources-Counted : (b : Bool) → Counted (open_resources b)
unfolding open_resources active consumed
open_resources-Counted b = ground arith

pub insert-Counted :
    (junk a : ℕ) (rs : Resources)
    → Counted rs
    → Counted (insert junk a rs) × ((insert junk a rs).really_free ≡ rs.really_free)
unfolding insert fresh active consumed
insert-Counted junk a rs c = ground arith

counts-update_found :
    (a : ℕ) (f : Resource → Resource) (rs : List Resource) (r : Resource)
    → find a rs ≡ some r
    → deleted (f r) ≡ deleted r
    → (active (update a f rs) ≡ active rs) × (consumed (update a f rs) ≡ consumed rs)
unfolding active consumed update find
counts-update_found a f [] r h k = cc
counts-update_found a f (x ∷ rs) r h k = ground (arith, counts-update_found a f rs r)

counts-update_missing :
    (a : ℕ) (f : Resource → Resource) (rs : List Resource) → find a rs ≡ none → update a f rs ≡ rs
unfolding update find
counts-update_missing a f [] h = refl
counts-update_missing a f (x ∷ rs) h = ground (arith, counts-update_missing a f rs)

-- An assignment to a resource that leaves `consumer.action` as it was.
pub assign-Counted :
    (a : ℕ) (f : Resource → Resource) (rs : Resources)
    → ((r : Resource) → lookup rs a ≡ some r → deleted (f r) ≡ deleted r)
    → Counted rs
    → Counted (assign a f rs) × ((assign a f rs).really_free ≡ rs.really_free)
unfolding assign lookup
assign-Counted a f rs k c = go (find a rs.elems) refl
  where
    go :
        (o : Option Resource)
        → find a rs.elems ≡ o
        → Counted (assign a f rs) × ((assign a f rs).really_free ≡ rs.really_free)
    go none e = ground (arith, counts-update_missing a f rs.elems e)
    go (some r) e = ground (arith, counts-update_found a f rs.elems r e (k r e))

-- A resource that is found is live where memory is really freed.
consumed_found :
    (a : ℕ) (rs : List Resource) (r : Resource)
    → find a rs ≡ some r
    → consumed rs ≡ 0
    → deleted r ≡ false
unfolding consumed find
consumed_found a [] r h z = cc
consumed_found a (x ∷ rs) r h z = ground (arith, consumed_found a rs r)

pub lookup-live :
    (rs : Resources) (a : ℕ) (r : Resource)
    → Counted rs
    → rs.really_free ≡ true
    → lookup rs a ≡ some r
    → deleted r ≡ false
unfolding lookup
lookup-live rs a r c free h = consumed_found a rs.elems r h (c.mode free)

really_delete-Counted :
    (obj : Resource) (rs : Resources) (bts : Store) (rs' : Resources) (bts' : Store)
    → Counted rs
    → find obj.addr rs.elems ≡ some obj
    → really_delete obj rs bts ≡ some (rs', bts')
    → Counted rs' × (rs'.really_free ≡ rs.really_free)
unfolding really_delete
really_delete-Counted obj rs bts rs' bts' c found h =
    ground (arith, counts-unlink obj.addr rs.elems obj)

mark_as_free-Counted :
    (obj : Resource) (id : ActionId) (bt : ℕ) (rs : Resources) (bts : Store) (rs' : Resources)
    (bts' : Store)
    → Counted rs
    → rs.really_free ≡ false
    → find obj.addr rs.elems ≡ some obj
    → mark_as_free obj id bt rs bts ≡ some (rs', bts')
    → Counted rs' × (rs'.really_free ≡ rs.really_free)
unfolding mark_as_free
mark_as_free-Counted obj id bt rs bts rs' bts' c keep found h =
    ground (arith, counts-consume obj.addr id bt rs.elems obj)

-- Deleting a resource that the table holds under its address, where no assertion fails, keeps the
-- counts those of the list modulo 2 ^ 32, with no bound on the length of the list, and does not
-- change whether memory is really freed; where it is, no freed resource is listed.
pub delete-Counted :
    (obj : Resource) (id : ActionId) (bt : ℕ) (rs : Resources) (bts : Store) (rs' : Resources)
    (bts' : Store)
    → Counted rs
    → lookup rs obj.addr ≡ some obj
    → delete obj id bt rs bts ≡ some (rs', bts')
    → Counted rs' × (rs'.really_free ≡ rs.really_free)
unfolding delete lookup
delete-Counted obj id bt rs bts rs' bts' c found h = ground (
  arith,
  really_delete-Counted obj rs bts rs' bts' c found,
  mark_as_free-Counted obj id bt rs bts rs' bts' c,
)
