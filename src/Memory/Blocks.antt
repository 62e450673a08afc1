-- ===== src/Memory/Blocks.antt =====
-- src/mem/debug/mut_mem.c: lists of nodes, what they add up to, and how a walk finds its node again
-- after one is unlinked.
use mut.Base.{ℕ, ◌+◌, ◌≡◌, ◌≢◌, refl, none, some, List, [], ◌∷◌, length, arith}
use mut.Memory.Defs.{Node, find_node, unlink_node}

unfoldable pub total : List Node → ℕ
total [] = 0
total (n ∷ ns) = n.n_bytes + total ns

-- No block is listed twice.
abbrev pub Distinct : List Node → Type 0
Distinct [] = Unit
Distinct (n ∷ ns) = (find_node n.addr ns ≡ none) × Distinct ns

pub find_node-addr : (a : ℕ) (ns : List Node) (n : Node) → find_node a ns ≡ some n → n.addr ≡ a
unfolding find_node
find_node-addr a [] n h = cc
find_node-addr a (x ∷ ns) n h = ground (arith, find_node-addr a ns n)

pub find-unlink_none :
    (a b : ℕ) (ns : List Node) → find_node b ns ≡ none → find_node b (unlink_node a ns) ≡ none
unfolding find_node unlink_node
find-unlink_none a b [] h = refl
find-unlink_none a b (n ∷ ns) h = ground (arith, find-unlink_none a b ns)

pub find-unlink_other :
    (a b : ℕ) (ns : List Node) → a ≢ b → find_node b (unlink_node a ns) ≡ find_node b ns
unfolding find_node unlink_node
find-unlink_other a b [] h = refl
find-unlink_other a b (n ∷ ns) h = ground (arith, find-unlink_other a b ns)

pub find-unlink_same :
    (a : ℕ) (ns : List Node) → Distinct ns → find_node a (unlink_node a ns) ≡ none
unfolding find_node unlink_node
find-unlink_same a [] d = refl
find-unlink_same a (n ∷ ns) d = ground (arith, find-unlink_same a ns)

pub Distinct-unlink : (a : ℕ) (ns : List Node) → Distinct ns → Distinct (unlink_node a ns)
unfolding unlink_node
Distinct-unlink a [] d = tt
Distinct-unlink a (n ∷ ns) d = ground (arith, Distinct-unlink a ns, find-unlink_none a n.addr ns)

-- A block that is found is one of the list, and its bytes are among the total.
pub total-unlink :
    (a : ℕ) (ns : List Node) (n : Node)
    → find_node a ns ≡ some n
    → (total (unlink_node a ns) + n.n_bytes ≡ total ns)
      × (length (unlink_node a ns) + 1 ≡ length ns)
unfolding find_node unlink_node total
total-unlink a [] n h = cc
total-unlink a (x ∷ ns) n h = ground (arith, total-unlink a ns n)
