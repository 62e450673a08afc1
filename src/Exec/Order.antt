-- ===== src/Exec/Order.antt =====
-- The order of the functions and of the lines in src/exec/mut_exec_symtab.c.
use mut.Base.{ℕ, ◌<◌, ◌≤◌, ◌≡◌, some, List, [], ◌∷◌, arith}
use mut.Exec.Symtab.{Line, Fun, place_fun, place_line}

-- Every function starts above `lo`, and each above the one before it.
abbrev pub Above : ℕ → List Fun → Type 0
Above lo [] = Unit
Above lo (f ∷ fs) = (lo < f.fun_start_addr) × Above f.fun_start_addr fs

-- The functions stand in the strict order of their addresses.
abbrev pub Ordered : List Fun → Type 0
Ordered [] = Unit
Ordered (f ∷ fs) = Above f.fun_start_addr fs

-- The lines of a function stand in the order of their addresses, equal ones allowed.
abbrev pub LinesAbove : ℕ → List Line → Type 0
LinesAbove lo [] = Unit
LinesAbove lo (l ∷ ls) = (lo ≤ l.line_addr) × LinesAbove l.line_addr ls

Above-place_fun :
    (lo : ℕ) (nf : Fun) (fs gs : List Fun)
    → Above lo fs
    → lo < nf.fun_start_addr
    → place_fun nf fs ≡ some gs
    → Above lo gs
unfolding place_fun
Above-place_fun lo nf [] gs h low e = ground arith
Above-place_fun lo nf (f ∷ fs) [] h low e = tt
Above-place_fun lo nf (f ∷ fs) (g ∷ gs) h low e =
    ground (arith, Above-place_fun f.fun_start_addr nf fs gs)

-- Where mut_exec_symtab_add_fun adds a function to a table in strict order of addresses, the table
-- stays in strict order.
pub place_fun-Ordered :
    (nf : Fun) (fs gs : List Fun) → Ordered fs → place_fun nf fs ≡ some gs → Ordered gs
unfolding place_fun
place_fun-Ordered nf [] gs h e = ground arith
place_fun-Ordered nf (f ∷ fs) [] h e = tt
place_fun-Ordered nf (f ∷ fs) (g ∷ gs) h e =
    ground (arith, Above-place_fun f.fun_start_addr nf fs gs)

-- A line at or above a bound that is added to lines in order of addresses, all at or above the
-- bound, leaves lines in order of addresses, all at or above the bound.
pub place_line-LinesAbove :
    (lo : ℕ) (nl : Line) (ls : List Line)
    → LinesAbove lo ls
    → lo ≤ nl.line_addr
    → LinesAbove lo (place_line nl ls)
unfolding place_line
place_line-LinesAbove lo nl [] h low = ground arith
place_line-LinesAbove lo nl (l ∷ ls) h low = ground (arith, place_line-LinesAbove l.line_addr nl ls)
