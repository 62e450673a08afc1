-- ===== src/Tests/Decimal.antt =====
-- src/uint64/struct/mut_uint64.c at concrete counters: division by ten and decimal output.
use mut.Base.{
  arith, ℕ, ◌<◌, ◌≤◌, length, List, ◌-◌, ◌+◌, ◌*◌, ◌/◌, ◌%◌, ◌^◌, ◌≡◌, refl, some, [], ◌∷◌, map,
}
use mut.Counter.Quotient.{udiv10-divides}
use mut.Counter.Decimal.{Decimal, uint64_out-Decimal}
use mut.Counter.{uint64_value, uint64, udiv10, uint64_out, out_digits, divide_chunks, divide_chunk}

largest_divided : udiv10 (uint64 (2 ^ 32 - 1) (2 ^ 32 - 1)) ≡ (5, uint64 0x19999999 0x99999999)
unfolding udiv10 divide_chunks divide_chunk
largest_divided = refl

carry_divided : udiv10 (uint64 1 0) ≡ (6, uint64 0 429496729)
unfolding udiv10 divide_chunks divide_chunk
carry_divided = refl

zero_nibbles_divided : udiv10 (uint64 0x30000005 0x00000a01) ≡ (
  (0x30000005 * 2 ^ 32 + 0x0a01) % 10,
  uint64
      ((0x30000005 * 2 ^ 32 + 0x0a01) / 10 / 2 ^ 32)
      ((0x30000005 * 2 ^ 32 + 0x0a01) / 10 % 2 ^ 32),
)
unfolding udiv10 divide_chunks divide_chunk
zero_nibbles_divided = refl

zero_out : uint64_out (uint64 0 0) ≡ some (48 ∷ [])
unfolding uint64_out out_digits udiv10 divide_chunks divide_chunk
zero_out = refl

-- 2 ^ 64 - 1 fills the buffer.
largest_out :
    uint64_out (uint64 (2 ^ 32 - 1) (2 ^ 32 - 1))
    ≡ some (
        map
          (λ d. d + 48)
          (1 ∷ 8 ∷ 4 ∷ 4 ∷ 6 ∷ 7 ∷ 4 ∷ 4 ∷ 0 ∷ 7 ∷ 3 ∷ 7 ∷ 0 ∷ 9 ∷ 5 ∷ 5 ∷ 1 ∷ 6 ∷ 1 ∷ 5 ∷ []))
unfolding uint64_out out_digits udiv10 divide_chunks divide_chunk
largest_out = refl

udiv10-divides_example :
    ((udiv10 (uint64 1 5)).0 ≡ uint64_value (uint64 1 5) % 10)
    × (uint64_value (udiv10 (uint64 1 5)).1 ≡ uint64_value (uint64 1 5) / 10)
    × ((udiv10 (uint64 1 5)).1.hi < 2 ^ 32)
    × ((udiv10 (uint64 1 5)).1.lo < 2 ^ 32)
udiv10-divides_example = udiv10-divides (uint64 1 5) (omega arith) (omega arith)

uint64_out-Decimal_example :
    (text : List ℕ) × (uint64_out (uint64 7 0) ≡ some text)
    × Decimal (uint64_value (uint64 7 0)) text
    × (length text ≤ 20)
uint64_out-Decimal_example = uint64_out-Decimal (uint64 7 0) (omega arith) (omega arith)
