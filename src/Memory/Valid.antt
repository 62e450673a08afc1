-- ===== src/Memory/Valid.antt =====
-- src/mem/debug/mut_mem.c: when the store is valid, and that entering and retiring a block keep it so.
use mut.Base.{ℕ, ◌+◌, ◌^◌, ◌<◌, ◌≤◌, ◌≡◌, ◌≢◌, refl, sym, subst, none, some, List, length, arith}
use mut.Memory.Defs.{SourcePos, Node, Libc, Mem, find_node, retire, enter}
use mut.Memory.Operations.{init}
use mut.Memory.Blocks.{
  total, Distinct, find_node-addr, find-unlink_none, Distinct-unlink, total-unlink,
}

-- The figures of a store against its blocks in use.
pub record Tallied (in_use : List Node) (n_bytes n_blocks max_bytes max_blocks : ℕ) : Type 0 where
  pub distinct : Distinct in_use
  pub not_null : find_node 0 in_use ≡ none
  pub bytes : n_bytes ≡ total in_use
  pub blocks : n_blocks ≡ length in_use
  pub bytes_fit : total in_use < 2 ^ 32
  pub blocks_fit : length in_use < 2 ^ 32
  pub bytes_peak : n_bytes ≤ max_bytes
  pub blocks_peak : n_blocks ≤ max_blocks

abbrev pub IsValid : {W : Type 0} → Mem W → Type 0
IsValid s =
    Tallied s.in_use s.n_bytes_in_use s.n_blocks_in_use s.max_bytes_in_use s.max_blocks_in_use

-- What malloc(3) promises of a block of `n_bytes` at `a`: it is not one that is held already, its
-- address is not 0, and all that is held lies in the address space.
pub record Fits (n_bytes a : ℕ) (in_use : List Node) : Type 0 where
  pub fresh : find_node a in_use ≡ none
  pub not_zero : a ≢ 0
  pub bytes_left : total in_use + n_bytes < 2 ^ 32
  pub blocks_left : length in_use + 1 < 2 ^ 32

pub init-IsValid :
    {W : Type 0} (lib : Libc W) (w : W) (memory : ℕ → ℕ) → IsValid (init lib w memory)
unfolding init find_node total
init-IsValid lib w memory = record {
  distinct = tt;
  not_null = refl;
  bytes = refl;
  blocks = refl;
  bytes_fit = omega arith;
  blocks_fit = omega arith;
  bytes_peak = omega arith;
  blocks_peak = omega arith;
}

module _ {W : Type 0} where
  pub enter-IsValid :
      (n : Node) (s : Mem W) → IsValid s → Fits n.n_bytes n.addr s.in_use → IsValid (enter n s)
  unfolding enter find_node total
  enter-IsValid n s v f = record {
    distinct = (f.fresh, v.distinct);
    not_null = ground (arith, v.not_null, f.not_zero);
    bytes = omega (arith, v.bytes, f.bytes_left);
    blocks = omega (arith, v.blocks, f.blocks_left);
    bytes_fit = omega (arith, f.bytes_left);
    blocks_fit = omega (arith, f.blocks_left);
    bytes_peak = ground (arith, v.bytes_peak);
    blocks_peak = ground (arith, v.blocks_peak);
  }

  pub retire-IsValid :
      (pos : SourcePos) (a : ℕ) (n : Node) (s : Mem W)
      → IsValid s
      → find_node a s.in_use ≡ some n
      → IsValid (retire pos n s)
  unfolding retire
  retire-IsValid pos a n s v found =
      let same = find_node-addr a s.in_use n found in
      let sums =
        total-unlink n.addr s.in_use n
          (subst (λ b. find_node b s.in_use ≡ some n) (sym same) found) in
      record {
        distinct = Distinct-unlink n.addr s.in_use v.distinct;
        not_null = find-unlink_none n.addr 0 s.in_use v.not_null;
        bytes = omega (arith, v.bytes, v.bytes_fit, sums.0);
        blocks = omega (arith, v.blocks, v.blocks_fit, sums.1);
        bytes_fit = omega (arith, v.bytes_fit, sums.0);
        blocks_fit = omega (arith, v.blocks_fit, sums.1);
        bytes_peak = omega (arith, v.bytes, v.bytes_fit, sums.0, v.bytes_peak);
        blocks_peak = omega (arith, v.blocks, v.blocks_fit, sums.1, v.blocks_peak);
      }
