-- ===== src/Counter/Bits.antt =====
-- src/uint64/struct/mut_uint64.c: the bit operations of mut_uint64_udiv10, four bits at a time.
use Prim.Native.Nat.{min, max, digits, bit_and, bit_or, bit_and-bitwise, bit_or-bitwise}
use mut.Base.{ℕ, zero, suc, ◌+◌, ◌*◌, ◌/◌, ◌%◌, ◌≤◌, ◌<◌, ◌≡◌, refl, ap, arith}

-- The count of digits to go does not matter once there are enough.
digits_enough :
    (z : ℕ → ℕ) (f : ℕ → ℕ → ℕ) (n m a b : ℕ) → a ≤ n → a ≤ m → digits z f n a b ≡ digits z f m a b
digits_enough z f zero zero zero b p q = refl
digits_enough z f zero zero (suc a) b p q = absurd (omega arith)
digits_enough z f zero (suc m) zero b p q = refl
digits_enough z f zero (suc m) (suc a) b p q = absurd (omega arith)
digits_enough z f (suc n) zero zero b p q = refl
digits_enough z f (suc n) zero (suc a) b p q = absurd (omega arith)
digits_enough z f (suc n) (suc m) zero b p q = refl
digits_enough z f (suc n) (suc m) (suc a) b p q =
    rw (digits_enough z f n m (suc a / 2) (b / 2) (omega arith) (omega arith))

and_bit : (a b : ℕ) → bit_and a b ≡ bit_and (a / 2) (b / 2) * 2 + min (a % 2) (b % 2)
and_bit zero b = simp bit_and-bitwise (omega arith)
and_bit (suc a) b = simp bit_and-bitwise (
    omega (
      arith,
      digits_enough (λ _. 0) min a (suc a / 2) (suc a / 2) (b / 2) (omega arith) (omega arith),
    ))

or_bit : (a b : ℕ) → bit_or a b ≡ bit_or (a / 2) (b / 2) * 2 + max (a % 2) (b % 2)
or_bit zero b = simp bit_or-bitwise (omega arith)
or_bit (suc a) b = simp bit_or-bitwise (
    omega (
      arith,
      digits_enough (λ y. y) max a (suc a / 2) (suc a / 2) (b / 2) (omega arith) (omega arith),
    ))

four_halves :
    (f : ℕ → ℕ → ℕ) (a b : ℕ) → f (a / 2 / 2 / 2 / 2) (b / 2 / 2 / 2 / 2) ≡ f (a / 16) (b / 16)
four_halves f a b =
    let p : a / 2 / 2 / 2 / 2 ≡ a / 16 = omega arith in
    let q : b / 2 / 2 / 2 / 2 ≡ b / 16 = omega arith in λ i. f (p i) (q i)

and_nibble :
    (a b : ℕ)
    → bit_and a b
      ≡ 16 * bit_and (a / 16) (b / 16)
        + min (a / 2 / 2 / 2 % 2) (b / 2 / 2 / 2 % 2) * 8
        + min (a / 2 / 2 % 2) (b / 2 / 2 % 2) * 4
        + min (a / 2 % 2) (b / 2 % 2) * 2
        + min (a % 2) (b % 2)
and_nibble a b = omega (
  arith,
  and_bit a b,
  and_bit (a / 2) (b / 2),
  and_bit (a / 2 / 2) (b / 2 / 2),
  and_bit (a / 2 / 2 / 2) (b / 2 / 2 / 2),
  four_halves bit_and a b,
)

or_nibble :
    (a b : ℕ)
    → bit_or a b
      ≡ 16 * bit_or (a / 16) (b / 16)
        + max (a / 2 / 2 / 2 % 2) (b / 2 / 2 / 2 % 2) * 8
        + max (a / 2 / 2 % 2) (b / 2 / 2 % 2) * 4
        + max (a / 2 % 2) (b / 2 % 2) * 2
        + max (a % 2) (b % 2)
or_nibble a b = omega (
  arith,
  or_bit a b,
  or_bit (a / 2) (b / 2),
  or_bit (a / 2 / 2) (b / 2 / 2),
  or_bit (a / 2 / 2 / 2) (b / 2 / 2 / 2),
  four_halves bit_or a b,
)

pub and_ones : (a m : ℕ) → bit_and a (16 * m + 15) ≡ 16 * bit_and (a / 16) m + a % 16
and_ones a m =
    let e : (16 * m + 15) / 16 ≡ m = omega arith in
    omega (arith, and_nibble a (16 * m + 15), ap (bit_and (a / 16)) e)

pub and_zeros : (a m : ℕ) → bit_and a (16 * m) ≡ 16 * bit_and (a / 16) m
and_zeros a m =
    let e : 16 * m / 16 ≡ m = omega arith in
    omega (arith, and_nibble a (16 * m), ap (bit_and (a / 16)) e)

pub or_low : (a b : ℕ) → bit_or (16 * a) b ≡ 16 * bit_or a (b / 16) + b % 16
or_low a b =
    let e : 16 * a / 16 ≡ a = omega arith in
    omega (arith, or_nibble (16 * a) b, ap (λ t. bit_or t (b / 16)) e)

or_none_left : (b : ℕ) → bit_or 0 b ≡ b
or_none_left b = simp bit_or-bitwise refl

or_none_fuel : (k n : ℕ) → n ≤ k → bit_or n 0 ≡ n
or_none_fuel zero zero h = refl
or_none_fuel zero (suc n) h = absurd (omega arith)
or_none_fuel (suc k) zero h = refl
or_none_fuel (suc k) (suc n) h =
    omega (arith, or_bit (suc n) 0, or_none_fuel k (suc n / 2) (omega arith))

-- The quotient digit `q` set in behind `a`.
pub or_over : (a b q : ℕ) → q < 16 → bit_or (16 * a) (16 * b + q) ≡ 16 * bit_or a b + q
or_over a b q h =
    let e : (16 * b + q) / 16 ≡ b = omega arith in
    omega (arith, or_low a (16 * b + q), ap (bit_or a) e)

pub or_digit : (a q : ℕ) → q < 16 → bit_or (16 * a) q ≡ 16 * a + q
or_digit a q h =
    let e : q / 16 ≡ 0 = omega arith in
    omega (arith, or_low a q, ap (bit_or a) e, or_none_fuel a a (omega arith))

pub or_under : (r t : ℕ) → r < 16 → bit_or r (16 * t) ≡ 16 * t + r
or_under r t h =
    let e : r / 16 ≡ 0 = omega arith in
    let f : 16 * t / 16 ≡ t = omega arith in
    omega (
      arith,
      or_nibble r (16 * t),
      ap (λ u. bit_or u (16 * t / 16)) e,
      ap (bit_or 0) f,
      or_none_left t,
    )

bit_and-none_fuel : (k n : ℕ) → n ≤ k → bit_and n 0 ≡ 0
bit_and-none_fuel zero zero h = refl
bit_and-none_fuel zero (suc n) h = absurd (omega arith)
bit_and-none_fuel (suc k) zero h = refl
bit_and-none_fuel (suc k) (suc n) h =
    omega (arith, and_zeros (suc n) 0, bit_and-none_fuel k (suc n / 16) (omega arith))

pub bit_and-none : (n : ℕ) → bit_and n 0 ≡ 0
bit_and-none n = bit_and-none_fuel n n (omega arith)
