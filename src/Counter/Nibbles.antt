-- ===== src/Counter/Nibbles.antt =====
-- src/uint64/struct/mut_uint64.c: what the masks and shifts of mut_uint64_udiv10 do to a word of
-- nibbles.
use Prim.Native.Nat.{bit_and, bit_or}
use mut.Base.{
  ℕ, zero, suc, ◌+◌, ◌-◌, ◌*◌, ◌/◌, ◌%◌, ◌^◌, ◌≤◌, ◌<◌, ◌≡◌, refl, ap, ◌∙◌, arith, ulong_max,
}
use mut.Counter.Bits.{and_ones, and_zeros, bit_and-none, or_over, or_under}

-- `n` without its last `k` nibbles.
abbrev pub shr : ℕ → ℕ → ℕ
shr zero n = n
shr (suc k) n = shr k (n / 16)

-- The last `k` nibbles of `n`.
abbrev pub low : ℕ → ℕ → ℕ
low zero n = 0
low (suc k) n = 16 * low k (n / 16) + n % 16

-- `k` nibbles of ones.
abbrev pub ones : ℕ → ℕ
ones zero = 0
ones (suc k) = 16 * ones k + 15

pub bit_and-ones : (k n : ℕ) → bit_and n (ones k) ≡ low k n
bit_and-ones zero n = omega (arith, and_zeros n 0, bit_and-none (n / 16))
bit_and-ones (suc k) n = omega (arith, and_ones n (ones k), bit_and-ones k (n / 16))

-- `n` with its nibble `k` replaced by `r`.
abbrev pub replace : ℕ → ℕ → ℕ → ℕ
replace zero r n = 16 * (n / 16) + r
replace (suc k) r n = 16 * replace k r (n / 16) + n % 16

-- Ones everywhere but in nibble `k`, with `m` nibbles above it.
abbrev pub hole : ℕ → ℕ → ℕ
hole m zero = 16 * ones m
hole m (suc k) = 16 * hole m k + 15

abbrev pub shl : ℕ → ℕ → ℕ
shl zero r = r
shl (suc k) r = 16 * shl k r

low_all : (m n : ℕ) → shr m n ≡ 0 → low m n ≡ n
low_all zero n h = omega (arith, h)
low_all (suc m) n h = omega (arith, low_all m (n / 16) h)

pub bit_or-replace :
    (m k r n : ℕ)
    → r < 16
    → shr m (shr (suc k) n) ≡ 0
    → bit_or (shl k r) (bit_and n (hole m k)) ≡ replace k r n
bit_or-replace m zero r n h l =
    let e : bit_and n (16 * ones m) ≡ 16 * (n / 16) =
      omega (arith, and_zeros n (ones m), bit_and-ones m (n / 16), low_all m (n / 16) l) in
    ap (bit_or r) e ∙ or_under r (n / 16) h
bit_or-replace m (suc k) r n h l =
    let b : ℕ = bit_and (n / 16) (hole m k) in
    ap (bit_or (16 * shl k r)) (and_ones n (hole m k))
    ∙ or_over (shl k r) b (n % 16) (omega arith)
    ∙ ap (λ t. 16 * t + n % 16) (bit_or-replace m k r (n / 16) h l)

-- The window of the next nibble holds `r` and that nibble.
pub shr-replace :
    (k r n : ℕ) → shr k (replace (suc k) r n) ≡ 256 * (shr (suc k) n / 16) + 16 * r + shr k n % 16
shr-replace zero r n = omega arith
shr-replace (suc k) r n =
    let e : replace (suc (suc k)) r n / 16 ≡ replace (suc k) r (n / 16) = omega arith in
    ap (shr k) e ∙ shr-replace k r (n / 16)

-- The nibbles behind are what they were.
pub replace-same : (k i r n : ℕ) → i < k → shr i (replace k r n) % 16 ≡ shr i n % 16
replace-same zero i r n h = absurd (omega arith)
replace-same (suc k) zero r n h = omega arith
replace-same (suc k) (suc i) r n h =
    let e : replace (suc k) r n / 16 ≡ replace k r (n / 16) = omega arith in
    ap (λ t. shr i t % 16) e ∙ replace-same k i r (n / 16) (omega arith)

-- A statement about the positions of the eight nibbles of a word.
pub below_eight :
    (P : ℕ → Type 0) → P 0 → P 1 → P 2 → P 3 → P 4 → P 5 → P 6 → P 7 → (k : ℕ) → k < 8 → P k
below_eight P a b c d e f g h zero l = a
below_eight P a b c d e f g h (suc zero) l = b
below_eight P a b c d e f g h (suc (suc zero)) l = c
below_eight P a b c d e f g h (suc (suc (suc zero))) l = d
below_eight P a b c d e f g h (suc (suc (suc (suc zero)))) l = e
below_eight P a b c d e f g h (suc (suc (suc (suc (suc zero))))) l = f
below_eight P a b c d e f g h (suc (suc (suc (suc (suc (suc zero)))))) l = g
below_eight P a b c d e f g h (suc (suc (suc (suc (suc (suc (suc zero))))))) l = h
below_eight P a b c d e f g h (suc (suc (suc (suc (suc (suc (suc (suc k)))))))) l =
    absurd (omega arith)

pub shr_shift : (n k : ℕ) → k < 8 → n / 2 ^ (4 * k) ≡ shr k n
shr_shift n =
    below_eight (λ k. n / 2 ^ (4 * k) ≡ shr k n) (omega arith) (omega arith) (omega arith)
      (omega arith) (omega arith) (omega arith) (omega arith) (omega arith)

pub replaced :
    (n r : ℕ)
    → n < 2 ^ 32
    → r < 16
    → (k : ℕ) → k < 8
    → (bit_or (r * 2 ^ (4 * k) % 2 ^ 32) (bit_and n (ulong_max - 15 * 2 ^ (4 * k) % 2 ^ 32))
        ≡ replace k r n)
      × (replace k r n < 2 ^ 32)
replaced n r l h =
    let put : (m k : ℕ)
        → shr m (shr (suc k) n) ≡ 0
        → r * 2 ^ (4 * k) % 2 ^ 32 ≡ shl k r
        → bit_or (r * 2 ^ (4 * k) % 2 ^ 32) (bit_and n (hole m k)) ≡ replace k r n =
      λ m k e f. ap (λ t. bit_or t (bit_and n (hole m k))) f ∙ bit_or-replace m k r n h e in
    below_eight _ (put 7 0 (omega arith) (omega arith), omega arith)
      (put 6 1 (omega arith) (omega arith), omega arith)
      (put 5 2 (omega arith) (omega arith), omega arith)
      (put 4 3 (omega arith) (omega arith), omega arith)
      (put 3 4 (omega arith) (omega arith), omega arith)
      (put 2 5 (omega arith) (omega arith), omega arith)
      (put 1 6 (omega arith) (omega arith), omega arith)
      (put 0 7 (omega arith) (omega arith), omega arith)

-- A mask of ones is widened by four, up to the width of a word.
pub widened :
    (j : ℕ)
    → j < 8
    → (m : ℕ) × (m < 7)
      × (bit_or (ones (suc j) * 2 ^ 4 % 2 ^ 32) (ones (suc j)) ≡ ones (suc (suc m)))
      × (m ≤ j)
widened =
    below_eight _ (0, omega arith, refl, omega arith) (1, omega arith, refl, omega arith)
      (2, omega arith, refl, omega arith) (3, omega arith, refl, omega arith)
      (4, omega arith, refl, omega arith) (5, omega arith, refl, omega arith)
      (6, omega arith, refl, omega arith) (6, omega arith, refl, omega arith)

pub low-none : (m j a : ℕ) → m ≤ j → low j a ≡ 0 → low m a ≡ 0
low-none zero j a h e = refl
low-none (suc m) zero a h e = absurd (omega arith)
low-none (suc m) (suc j) a h e =
    omega (arith, low-none m j (a / 16) (omega arith) (omega (arith, e)))

pub low_window :
    (m a r c : ℕ)
    → r < 16
    → c < 16
    → low (suc (suc m)) (256 * a + 16 * r + c) ≡ 256 * low m a + 16 * r + c
low_window m a r c h k =
    let e : (256 * a + 16 * r + c) / 16 / 16 ≡ a = omega arith in omega (arith, ap (low m) e)
