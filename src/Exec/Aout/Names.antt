-- ===== src/Exec/Aout/Names.antt =====
-- src/exec/mut_exec_symtab.c: the names that a table has, address by address.
use mut.Base.{
  ℕ, String, true, ◌≡◌, refl, arith, Option, none, some, List, [], ◌∷◌, ◌==◌, if◌then◌else◌, ◌<◌,
  Option-cases, inl, inr,
}
use mut.Exec.Symtab.{Fun, place_fun}
use mut.Exec.Order.{Above, Ordered}
use mut.Exec.Aout.Held.{is_there}

-- The name that a table has for the function that starts at `a`.
unfoldable pub name_at : ℕ → List Fun → Option String
name_at a [] = none
name_at a (f ∷ fs) = if a == f.fun_start_addr then some f.fun_name else name_at a fs

-- `o`, or else `p`.
unfoldable pub or_else : {A : Type 0} → Option A → Option A → Option A
or_else none p = p
or_else (some a) p = some a

pub Above-name_at : (a : ℕ) (lo : ℕ) (fs : List Fun) → Above lo fs → a < lo → name_at a fs ≡ none
unfolding name_at
Above-name_at a lo [] h l = refl
Above-name_at a lo (f ∷ fs) h l = ground (arith, Above-name_at a f.fun_start_addr fs)

Above-Ordered : (lo : ℕ) (fs : List Fun) → Above lo fs → Ordered fs
Above-Ordered lo [] h = tt
Above-Ordered lo (f ∷ fs) h = h.1

-- A function is added where its address has no name yet.
pub name_at-place_fun :
    (a : ℕ) (nf : Fun) (fs gs : List Fun)
    → Ordered fs
    → place_fun nf fs ≡ some gs
    → name_at a gs
      ≡ or_else (name_at a fs) (if a == nf.fun_start_addr then some nf.fun_name else none)
unfolding name_at place_fun or_else
name_at-place_fun a nf [] [] h e = ground arith
name_at-place_fun a nf [] (g ∷ gs) h e = ground arith
name_at-place_fun a nf (f ∷ fs) [] h e = ground arith
name_at-place_fun a nf (f ∷ fs) (g ∷ gs) h e = ground (
  arith,
  name_at-place_fun a nf fs gs,
  Above-Ordered f.fun_start_addr fs,
  Above-name_at a f.fun_start_addr fs,
)

pub place_fun-there :
    (nf : Fun) (fs : List Fun)
    → place_fun nf fs ≡ none
    → is_there (name_at nf.fun_start_addr fs) ≡ true
unfolding name_at place_fun
place_fun-there nf [] e = ground arith
place_fun-there nf (f ∷ fs) e = ground (arith, place_fun-there nf fs)

pub there :
    (a addr : ℕ) (name : String) (fs : List Fun)
    → is_there (name_at addr fs) ≡ true
    → name_at a fs ≡ or_else (name_at a fs) (if a == addr then some name else none)
unfolding or_else
there a addr name fs h = elim (Option-cases (name_at a fs)) [
  | inl e ↦ ground arith
  | inr (n, e) ↦ rw e refl
]

pub or_else-none : {A : Type 0} (o : Option A) → or_else o none ≡ o
unfolding or_else
or_else-none none = refl
or_else-none (some a) = refl

pub or_else_assoc :
    {A : Type 0} (o p q : Option A) → or_else (or_else o p) q ≡ or_else o (or_else p q)
unfolding or_else
or_else_assoc none p q = refl
or_else_assoc (some a) p q = refl
