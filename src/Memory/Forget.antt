-- ===== src/Memory/Forget.antt =====
-- src/mem/debug/mut_mem.c: the map from addresses to sizes, as nodes enter and leave the list.
use mathlib.Core.Path.{fun_ext}
use mut.Base.{ℕ, ◌≡◌, none, some, List, arith}
use mut.Memory.Defs.{SourcePos, Node, Libc, Mem, find_node, unlink_node, retire, enter}
use mut.Memory.Blocks.{
  find_node-addr, find-unlink_none, find-unlink_other, find-unlink_same, total-unlink,
}
use mut.Memory.Valid.{IsValid, Fits}
use mut.Memory.Spec.{put, drop, heap, Call, alloc, release, resize}

module _ {W : Type 0} where
  pub heap-enter : (n : Node) (s : Mem W) → heap (enter n s) ≡ put n.addr n.n_bytes (heap s)
  unfolding heap enter find_node
  heap-enter n s = fun_ext (λ x. ground arith)

  pub heap-retire :
      (pos : SourcePos) (a : ℕ) (n : Node) (s : Mem W)
      → IsValid s
      → find_node a s.in_use ≡ some n
      → heap (retire pos n s) ≡ drop a (heap s)
  unfolding heap retire
  heap-retire pos a n s v found =
      let at = find_node-addr a s.in_use n found in
      fun_ext (λ x. ground (
        arith,
        at,
        find-unlink_same n.addr s.in_use v.distinct,
        find-unlink_other n.addr x s.in_use,
      ))

  pub heap-none : (a : ℕ) (s : Mem W) → find_node a s.in_use ≡ none → heap s a ≡ none
  unfolding heap
  heap-none a s h = ground (arith, h)

  pub heap-some :
      (a : ℕ) (n : Node) (s : Mem W) → find_node a s.in_use ≡ some n → heap s a ≡ some n.n_bytes
  unfolding heap
  heap-some a n s h = ground (arith, h)

pub Fits-unlink :
    (n : Node) (ns : List Node) (b k : ℕ)
    → find_node n.addr ns ≡ some n
    → Fits k b ns
    → Fits k b (unlink_node n.addr ns)
Fits-unlink n ns b k found f =
    let sums = total-unlink n.addr ns n found in
    record {
      fresh = find-unlink_none n.addr b ns f.fresh;
      not_zero = f.not_zero;
      bytes_left = omega (arith, f.bytes_left, sums.0);
      blocks_left = omega (arith, f.blocks_left, sums.1);
    }

-- A call of the allocator in a state where what malloc(3) grants for it fits.
abbrev pub Grants : {W : Type 0} → Libc W → Call → Mem W → Type 0
Grants lib (alloc n _) s = (a : ℕ) → (lib.malloc n s.world).0 ≡ some a → Fits n a s.in_use
Grants lib (release _ _) s = Unit
Grants lib (resize _ n _) s = (a : ℕ) → (lib.malloc n s.world).0 ≡ some a → Fits n a s.in_use
