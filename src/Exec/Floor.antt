-- ===== src/Exec/Floor.antt =====
-- The search of `mut_exec_symtab_lookup_addr` (src/exec/mut_exec_symtab.c) and a reference for it.
use mut.Base.{ℕ, ◌≤◌, ◌≡◌, refl, Option, none, some, List, [], ◌∷◌, arith, if◌then◌else◌, leb, ltb}
use mut.Exec.Symtab.{Fun, find_fun, before_next}
use mut.Exec.Order.{Above, Ordered}

-- The function with the greatest start among those that start at or below `a`: a scan of the whole
-- list, in any order, that keeps the best so far.
pub floor_from : Option Fun → ℕ → List Fun → Option Fun
floor_from best a [] = best
floor_from best a (f ∷ fs) =
    floor_from
      (if leb f.fun_start_addr a
        then elim best [
          | none ↦ some f
          | some b ↦ if ltb b.fun_start_addr f.fun_start_addr then some f else some b
        ]
        else best)
      a fs

pub floor : ℕ → List Fun → Option Fun
unfolding floor_from
floor a fs = floor_from none a fs

-- Functions that start above `a` do not change the best so far.
floor_from-Above :
    (best : Option Fun) (lo a : ℕ) (fs : List Fun)
    → Above lo fs
    → a ≤ lo
    → floor_from best a fs ≡ best
unfolding floor_from
floor_from-Above best lo a [] h le = refl
floor_from-Above best lo a (f ∷ fs) h le =
    ground (arith, floor_from-Above best f.fun_start_addr a fs h.1)

find_fun-floor_from :
    (b : Fun) (a : ℕ) (fs : List Fun)
    → Above b.fun_start_addr fs
    → b.fun_start_addr ≤ a
    → floor_from (some b) a fs ≡ (if before_next a fs then some b else find_fun a fs)
unfolding floor_from find_fun
find_fun-floor_from b a [] h le = refl
find_fun-floor_from b a (f ∷ fs) h le =
    ground
      (arith, find_fun-floor_from f a fs h.1, floor_from-Above (some b) f.fun_start_addr a fs h.1)

find_fun-Above : (lo a : ℕ) (fs : List Fun) → Above lo fs → a ≤ lo → find_fun a fs ≡ none
unfolding find_fun
find_fun-Above lo a [] h le = refl
find_fun-Above lo a (f ∷ fs) h le = ground (arith, find_fun-Above f.fun_start_addr a fs h.1)

-- In a symbol table in strict order of addresses, the walk of mut_exec_symtab_lookup_addr finds
-- what a scan of the whole list finds that looks for the function with the greatest start at or
-- below the address.
pub find_fun-floor : (a : ℕ) (fs : List Fun) → Ordered fs → find_fun a fs ≡ floor a fs
unfolding find_fun floor
find_fun-floor a [] h = refl
find_fun-floor a (f ∷ fs) h = ground (
  arith,
  find_fun-floor_from f a fs h,
  floor_from-Above none f.fun_start_addr a fs h,
  find_fun-Above f.fun_start_addr a fs h,
)
