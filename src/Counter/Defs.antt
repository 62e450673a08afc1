-- ===== src/Counter/Defs.antt =====
-- src/uint64/struct/mut_uint64.c (the default), src/uint64/longlong/mut_uint64.h and
-- src/counter/ulong/mut_counter.h.
use mut.Base.{
  ℕ, ◌+◌, ◌-◌, ◌*◌, ◌^◌, ◌≤◌, ◌<◌, ◌≡◌, ◌↔◌, Bool, true, ◌&&◌, Option, none, some, ltb, leb,
  if◌then◌else◌, add32, sub32, ulong_max,
}

-- The operations of `mut_counter.h`. `dec` is `none` where the code's assertion fails.
pub record CounterOps (C : Type 0) : Type 0 where
  pub from_uint : ℕ → C
  pub inc : C → ℕ → C
  pub dec : C → ℕ → Option C
  pub lt : C → C → Bool
  -- the number that `mut_log_counter` writes
  pub shown : C → ℕ

-- What the statistics rely on, as long as the values stay below `limit`.
pub record CounterLaws {C : Type 0} (ops : CounterOps C) : Type 0 where
  pub limit : ℕ
  pub value : C → ℕ
  pub value-from_uint : (n : ℕ) → n < limit → value (ops.from_uint n) ≡ n
  pub value-inc : (c : C) (n : ℕ) → value c + n < limit → value (ops.inc c n) ≡ value c + n
  pub dec-some :
      (c : C) (n : ℕ)
      → value c < limit
      → n ≤ value c
      → (d : C) × (ops.dec c n ≡ some d) × (value d ≡ value c - n)
  pub lt_iff :
      (a b : C) → value a < limit → value b < limit → (ops.lt a b ≡ true) ↔ (value a < value b)

-- `struct mut_uint64`
pub record Uint64 : Type 0 where
  pub hi : ℕ
  pub lo : ℕ

abbrev pub uint64 : ℕ → ℕ → Uint64
uint64 h l = record { hi = h; lo = l }

abbrev pub uint64_value : Uint64 → ℕ
uint64_value c = c.hi * 2 ^ 32 + c.lo

unfoldable pub from_uint : ℕ → Uint64
from_uint ui = uint64 0 ui

-- `junk` is what the uninitialised `ans.hi` holds: the overflow branch increments it.
unfoldable pub inc : ℕ → Uint64 → ℕ → Uint64
inc junk xui ui =
    if ltb (sub32 ulong_max xui.lo) ui
    then uint64 (add32 junk 1) (
        if ltb ui xui.lo
        then sub32 (sub32 ui (sub32 ulong_max xui.lo)) 1
        else sub32 (sub32 xui.lo (sub32 ulong_max ui)) 1)
    else uint64 xui.hi (add32 xui.lo ui)

unfoldable pub dec : ℕ → Uint64 → ℕ → Option Uint64
dec junk xui ui =
    if ltb xui.lo ui
    then (if ltb 0 xui.hi
        then some (uint64 (sub32 junk 1) (add32 (sub32 ulong_max (sub32 ui xui.lo)) 1))
        else none)
    else some (uint64 xui.hi (sub32 xui.lo ui))

unfoldable pub lt : Uint64 → Uint64 → Bool
lt a b = leb a.hi b.hi && ltb a.lo b.lo
