-- ===== src/Counter/Laws.antt =====
-- src/uint64/struct/mut_uint64.c, src/uint64/longlong/mut_uint64.h, src/counter/ulong/mut_counter.h:
-- each representation as the operations and laws that the manager takes.
use mut.Base.{ℕ, ◌+◌, ◌-◌, ◌^◌, ◌≤◌, ◌<◌, ◌≡◌, ◌↔◌, ◌⊎◌, ◌%◌, true, some, refl, arith, sub32, ltb}
use mut.Counter.Defs.{
  CounterOps, CounterLaws, Uint64, uint64, uint64_value, from_uint, inc, dec, lt,
}

-- A two-word counter whose sum with a number stays below 2 ^ 32 is incremented by that number,
-- whatever the uninitialised words hold.
pub inc_small :
    (junk : ℕ) (c : Uint64) (n : ℕ)
    → uint64_value c + n < 2 ^ 32
    → uint64_value (inc junk c n) ≡ uint64_value c + n
unfolding inc
inc_small junk c n h = ground arith

pub dec_small :
    (junk : ℕ) (c : Uint64) (n : ℕ)
    → uint64_value c < 2 ^ 32
    → n ≤ uint64_value c
    → (d : Uint64) × (dec junk c n ≡ some d) × (uint64_value d ≡ uint64_value c - n)
unfolding dec
dec_small junk c n h k = (uint64 c.hi (sub32 c.lo n), ground arith, ground arith)

-- Of two two-word counters below 2 ^ 32, mut_uint64_lt says that they are in strict order exactly
-- if they are.
pub lt_small :
    (a b : Uint64)
    → uint64_value a < 2 ^ 32
    → uint64_value b < 2 ^ 32
    → (lt a b ≡ true) ↔ (uint64_value a < uint64_value b)
unfolding lt
lt_small a b ha hb = ground arith

unfoldable pub struct_ops : ℕ → CounterOps Uint64
struct_ops junk = record {
  from_uint = from_uint;
  inc = inc junk;
  dec = dec junk;
  lt = lt;
  shown = uint64_value;
}

-- The two-word counters of the default build obey the laws for values of one word, whatever the
-- uninitialised words hold.
unfoldable pub struct_laws : (junk : ℕ) → CounterLaws (struct_ops junk)
unfolding struct_ops from_uint
struct_laws junk = record {
  limit = 2 ^ 32;
  value = uint64_value;
  value-from_uint = λ n h. omega arith;
  value-inc = inc_small junk;
  dec-some = dec_small junk;
  lt_iff = lt_small;
}

-- A counter held in one unsigned integer of `m` values: `unsigned long` or `unsigned long long`.
unfoldable pub word_ops : ℕ → CounterOps ℕ
word_ops m = record {
  from_uint = λ n. n % m;
  inc = λ c n. (c + n) % m;
  dec = λ c n. some ((c + m - n % m) % m);
  lt = ltb;
  shown = λ c. c;
}

pub long_long_laws : CounterLaws (word_ops (2 ^ 64))
unfolding word_ops
long_long_laws = record {
  limit = 2 ^ 64;
  value = λ c. c;
  value-from_uint = λ n h. omega arith;
  value-inc = λ c n h. omega arith;
  dec-some = λ c n h k. ((c + 2 ^ 64 - n % 2 ^ 64) % 2 ^ 64, refl, omega arith);
  lt_iff = λ a b ha hb. ground arith;
}

pub ulong_laws : CounterLaws (word_ops (2 ^ 32))
unfolding word_ops
ulong_laws = record {
  limit = 2 ^ 32;
  value = λ c. c;
  value-from_uint = λ n h. omega arith;
  value-inc = λ c n h. omega arith;
  dec-some = λ c n h k. ((c + 2 ^ 32 - n % 2 ^ 32) % 2 ^ 32, refl, omega arith);
  lt_iff = λ a b ha hb. ground arith;
}

-- When an addition of one word to a two-word counter carries and the high word has room, the low
-- word of the result is right, and the whole is right exactly if the uninitialised high word of
-- the answer happened to hold the old high word.
pub inc_carry :
    (junk : ℕ) (c : Uint64) (n : ℕ)
    → junk < 2 ^ 32
    → c.hi + 1 < 2 ^ 32
    → c.lo < 2 ^ 32
    → n < 2 ^ 32
    → 2 ^ 32 ≤ c.lo + n
    → ((inc junk c n).lo ≡ (c.lo + n) % 2 ^ 32)
      × ((uint64_value (inc junk c n) ≡ uint64_value c + n) ↔ (junk ≡ c.hi))
unfolding inc
inc_carry junk c n hj hh hl hn carry = ground arith

-- Of two two-word counters with low words below 2 ^ 32, mut_uint64_lt says rightly whether the
-- first is below the second exactly if the high word of the first is not below that of the second,
-- or its low word is below the low word of the second.
pub lt_misses :
    (a b : Uint64)
    → a.lo < 2 ^ 32
    → b.lo < 2 ^ 32
    → (lt a b ≡ ltb (uint64_value a) (uint64_value b)) ↔ ((b.hi ≤ a.hi) ⊎ (a.lo < b.lo))
unfolding lt
lt_misses a b ha hb = ground arith
