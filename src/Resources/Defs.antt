-- ===== src/Resources/Defs.antt =====
-- The operations of src/resources/list/mut_resources.c. A pointer to a resource is written as its
-- address: it stands for the first resource of the list that has that address.
use mut.Base.{
  ℕ, ◌==◌, Bool, true, false, not, Option, none, some, List, [], ◌∷◌, ltb, if◌then◌else◌, add32,
  sub32,
}
use mut.Backtrace.Store.{Store, share, close_any}

-- The actions of `struct mut`, by the field of `actions` that holds them.
pub data ActionId : Type 0 where
  malloc calloc realloc free cfree usage : ActionId

-- `producer` and `consumer` of `struct mut_resource`; backtrace 0 is the null pointer.
pub record Owner : Type 0 where
  pub action : Option ActionId
  pub backtrace : ℕ

abbrev pub owner : Option ActionId → ℕ → Owner
owner a bt = record { action = a; backtrace = bt }

abbrev pub nobody : Owner
nobody = owner none 0

pub record Resource : Type 0 where
  pub addr : ℕ
  pub size : ℕ
  pub producer : Owner
  pub consumer : Owner

-- `delete` of the source is a pointer to one of two functions; `really_free` says which.
pub record Resources : Type 0 where
  pub elems : List Resource
  pub n_active : ℕ
  pub n_consumed : ℕ
  pub really_free : Bool

abbrev pub is_some {ℓ} : {A : Type ℓ} → Option A → Bool
is_some none = false
is_some (some _) = true

-- `mut_resource_is_new`
abbrev pub is_new : Resource → Bool
is_new r = r.producer.backtrace == 0

-- `mut_resources_resource_deleted`
abbrev pub deleted : Resource → Bool
deleted r = is_some r.consumer.action

-- `mut_resources_open`
unfoldable pub open_resources : Bool → Resources
open_resources really_free = record {
  elems = [];
  n_active = 0;
  n_consumed = 0;
  really_free = really_free;
}

unfoldable pub find : ℕ → List Resource → Option Resource
find a [] = none
find a (r ∷ rs) = if r.addr == a then some r else find a rs

-- `mut_resources_lookup`
unfoldable pub lookup : Resources → ℕ → Option Resource
unfolding find
lookup rs a = find a rs.elems

-- What `mut_resources_create_resource` stores in a node that it has just allocated. Its size is
-- what the memory happened to hold.
unfoldable pub fresh : (junk addr : ℕ) → Resource
fresh junk addr = record { addr = addr; size = junk; producer = nobody; consumer = nobody }

-- `mut_resources_create_resource`, where the memory for a node is granted.
unfoldable pub insert : (junk addr : ℕ) → Resources → Resources
unfolding fresh
insert junk a rs = record rs { elems = fresh junk a ∷ rs.elems; n_active = add32 rs.n_active 1 }

-- Assignments through a pointer to the resource at `a`.
unfoldable pub update : ℕ → (Resource → Resource) → List Resource → List Resource
update a f [] = []
update a f (r ∷ rs) = if r.addr == a then f r ∷ rs else r ∷ update a f rs

unfoldable pub assign : ℕ → (Resource → Resource) → Resources → Resources
unfolding update
assign a f rs = record rs { elems = update a f rs.elems }

-- `mut_resource_make_producer`
unfoldable pub make_producer : ActionId → (size bt : ℕ) → Resource → Resource
make_producer action size bt r = record r { producer = owner (some action) bt; size = size }

unfoldable pub unlink : ℕ → List Resource → List Resource
unlink a [] = []
unlink a (r ∷ rs) = if r.addr == a then rs else r ∷ unlink a rs

-- `mut_resources_really_delete_resource`; `none` where an assertion fails.
unfoldable pub really_delete : Resource → Resources → Store → Option (Resources × Store)
unfolding find unlink
really_delete obj rs bts =
    if deleted obj
    then none
    else if not (ltb 0 rs.n_active)
    then none
    else elim (find obj.addr rs.elems) [
      | none ↦ none
      | some r ↦ elim (close_any r.producer.backtrace bts) [
        | none ↦ none
        | some bts' ↦
            some
              (record rs { elems = unlink obj.addr rs.elems; n_active = sub32 rs.n_active 1 }, bts')
      ]
    ]

-- `obj->consumer.action = consumer; if (bt) obj->consumer.backtrace = bt;`
unfoldable pub consume : ActionId → ℕ → Resource → Resource
consume consumer bt r = record r {
  consumer = owner (some consumer) (if bt == 0 then r.consumer.backtrace else bt);
}

-- `mut_resources_mark_as_free`
unfoldable pub mark_as_free :
    Resource → ActionId → ℕ → Resources → Store → Option (Resources × Store)
unfolding update consume
mark_as_free obj consumer bt rs bts =
    if deleted obj
    then none
    else if not (ltb 0 rs.n_active)
    then none
    else elim (if bt == 0 then some bts else share bt bts) [
      | none ↦ none
      | some bts' ↦ some (
        record rs {
          elems = update obj.addr (consume consumer bt) rs.elems;
          n_active = sub32 rs.n_active 1;
          n_consumed = add32 rs.n_consumed 1;
        },
        bts',
      )
    ]

-- `mut_resources_delete_resource`
unfoldable pub delete : Resource → ActionId → ℕ → Resources → Store → Option (Resources × Store)
delete obj consumer bt rs bts =
    if rs.really_free then really_delete obj rs bts else mark_as_free obj consumer bt rs bts

-- `mut_resources_close`: both backtraces of every resource.
unfoldable pub close_elems : List Resource → Store → Option Store
close_elems [] bts = some bts
close_elems (r ∷ rs) bts = elim (close_any r.producer.backtrace bts) [
  | none ↦ none
  | some bts' ↦ elim (close_any r.consumer.backtrace bts') [
    | none ↦ none
    | some bts'' ↦ close_elems rs bts''
  ]
]
