-- ===== src/Resources/Lookup.antt =====
-- Lookups after the operations of src/resources/list/mut_resources.c.
use mathlib.Core.Option
use mut.Base.{
  ℕ, ◌+◌, ◌-◌, ◌^◌, ◌%◌, ◌<◌, ◌≡◌, ◌⊎◌, inl, inr, refl, Bool, true, false, Option, none, some, List,
  [], ◌∷◌, arith, if◌then◌else◌, ◌==◌, Bool-cases,
}
use mut.Backtrace.Store.{Store, count_at, share, close_any, share_counts, close_counts}
use mut.Resources.Defs.{
  ActionId, Resource, Resources, deleted, find, lookup, fresh, insert, update, assign, unlink,
  really_delete, consume, mark_as_free, delete,
}
use mut.Resources.Count.{IsValid, Distinct, KeepsAddr, counts-consume, counts-unlink}

find-update :
    (a b : ℕ) (f : Resource → Resource) (rs : List Resource)
    → KeepsAddr f
    → find b (update a f rs) ≡ (if a == b then Option.map f (find b rs) else find b rs)
unfolding find update
find-update a b f [] k = ground arith
find-update a b f (r ∷ rs) k = ground (arith, k r, find-update a b f rs k)

find-unlink :
    (a b : ℕ) (rs : List Resource)
    → Distinct rs
    → find b (unlink a rs) ≡ (if a == b then none else find b rs)
unfolding find unlink
find-unlink a b [] d = ground arith
find-unlink a b (r ∷ rs) d = ground (arith, find-unlink a b rs)

pub lookup-insert :
    (junk a b : ℕ) (rs : Resources)
    → lookup (insert junk a rs) b ≡ (if a == b then some (fresh junk a) else lookup rs b)
unfolding lookup insert fresh
lookup-insert junk a b rs = ground arith

pub lookup-assign :
    (a b : ℕ) (f : Resource → Resource) (rs : Resources)
    → KeepsAddr f
    → lookup (assign a f rs) b ≡ (if a == b then Option.map f (lookup rs b) else lookup rs b)
unfolding lookup assign
lookup-assign a b f rs k = find-update a b f rs.elems k

-- A backtrace pointer that may be shared or closed: null, or live.
abbrev pub Usable : ℕ → Store → Type 0
Usable p bts = (p ≡ 0) ⊎ ((0 < count_at p bts) × (count_at p bts + 1 < 4294967296))

-- What is left of a deleted resource: nothing when memory is really freed, else the resource with
-- its consumer.
unfoldable pub remains : Bool → ActionId → ℕ → Resource → Option Resource
remains true c bt r = none
remains false c bt r = some (consume c bt r)

share_or_keep :
    (bt : ℕ) (bts : Store)
    → Usable bt bts
    → (t : Store) × ((if bt == 0 then some bts else share bt bts) ≡ some t)
share_or_keep bt bts (inl e) = (bts, ground arith)
share_or_keep bt bts (inr (live, small)) = elim (Bool-cases (bt == 0)) [
  | inl e ↦ (bts, ground arith)
  | inr e ↦
      ((share_counts bt bt bts live small).0, ground (arith, (share_counts bt bt bts live small).1))
]

close_or_keep : (bt : ℕ) (bts : Store) → Usable bt bts → (t : Store) × (close_any bt bts ≡ some t)
unfolding close_any
close_or_keep bt bts (inl e) = (bts, ground arith)
close_or_keep bt bts (inr (live, small)) = elim (Bool-cases (bt == 0)) [
  | inl e ↦ (bts, ground arith)
  | inr e ↦ ((close_counts bt bt bts live).0, ground (arith, (close_counts bt bt bts live).1))
]

mark_as_free-lookup :
    (obj : Resource) (c : ActionId) (bt : ℕ) (rs : Resources) (bts : Store)
    → IsValid rs
    → find obj.addr rs.elems ≡ some obj
    → deleted obj ≡ false
    → Usable bt bts
    → (rs' : Resources) × (bts' : Store) × (mark_as_free obj c bt rs bts ≡ some (rs', bts'))
      × ((b : ℕ) → lookup rs' b ≡ (if obj.addr == b then some (consume c bt obj) else lookup rs b))
unfolding mark_as_free lookup
mark_as_free-lookup obj c bt rs bts v found live ok =
    let s = share_or_keep bt bts ok in
    (
      record rs {
        elems = update obj.addr (consume c bt) rs.elems;
        n_active = (rs.n_active + 2 ^ 32 - 1 % 2 ^ 32) % 2 ^ 32;
        n_consumed = (rs.n_consumed + 1) % 2 ^ 32;
      },
      s.0,
      ground (arith, s.1, counts-consume obj.addr c bt rs.elems obj),
      λ b.
          ground
            (arith, find-update obj.addr b (consume c bt) rs.elems (unfold consume in λ r. refl)),
    )

really_delete-lookup :
    (obj : Resource) (rs : Resources) (bts : Store)
    → IsValid rs
    → find obj.addr rs.elems ≡ some obj
    → deleted obj ≡ false
    → Usable obj.producer.backtrace bts
    → (rs' : Resources) × (bts' : Store) × (really_delete obj rs bts ≡ some (rs', bts'))
      × ((b : ℕ) → lookup rs' b ≡ (if obj.addr == b then none else lookup rs b))
unfolding really_delete lookup
really_delete-lookup obj rs bts v found live ok =
    let s = close_or_keep obj.producer.backtrace bts ok in
    (
      record rs {
        elems = unlink obj.addr rs.elems;
        n_active = (rs.n_active + 2 ^ 32 - 1 % 2 ^ 32) % 2 ^ 32;
      },
      s.0,
      ground (arith, s.1, counts-unlink obj.addr rs.elems obj),
      λ b. ground (arith, find-unlink obj.addr b rs.elems),
    )

-- In a valid table, deleting a listed resource that is not deleted, with backtrace pointers that
-- are null or live and with room for one more reference, fails no assertion; afterwards its
-- address holds nothing if memory is really freed, and otherwise the resource with its consumer,
-- and every other address holds what it held.
pub delete-lookup :
    (obj : Resource) (c : ActionId) (bt : ℕ) (rs : Resources) (bts : Store)
    → IsValid rs
    → lookup rs obj.addr ≡ some obj
    → deleted obj ≡ false
    → Usable bt bts
    → Usable obj.producer.backtrace bts
    → (rs' : Resources) × (bts' : Store) × (delete obj c bt rs bts ≡ some (rs', bts'))
      × ((b : ℕ)
          → lookup rs' b ≡ (if obj.addr == b then remains rs.really_free c bt obj else lookup rs b))
unfolding delete lookup remains
delete-lookup obj c bt rs bts v found live ok ok' = elim (Bool-cases rs.really_free) [
  | inl e ↦
      let (rs', bts', done, map) = really_delete-lookup obj rs bts v found live ok' in
      (rs', bts', ground arith, λ b. ground (arith, map b))
  | inr e ↦
      let (rs', bts', done, map) = mark_as_free-lookup obj c bt rs bts v found live ok in
      (rs', bts', ground arith, λ b. ground (arith, map b))
]

-- The same of a deletion that is known to succeed.
pub lookup-delete :
    (obj : Resource) (c : ActionId) (bt : ℕ) (rs : Resources) (bts : Store) (rs' : Resources)
    (bts' : Store) (b : ℕ)
    → IsValid rs
    → lookup rs obj.addr ≡ some obj
    → delete obj c bt rs bts ≡ some (rs', bts')
    → lookup rs' b ≡ (if obj.addr == b then remains rs.really_free c bt obj else lookup rs b)
unfolding delete really_delete mark_as_free lookup remains
lookup-delete obj c bt rs bts rs' bts' b v found done = ground (
  arith,
  find-update obj.addr b (consume c bt) rs.elems (unfold consume in λ r. refl),
  find-unlink obj.addr b rs.elems v.distinct,
)
