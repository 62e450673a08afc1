-- ===== src/Counter/Quotient.antt =====
-- src/uint64/struct/mut_uint64.c: mut_uint64_udiv10 divides by ten.
use Prim.Native.Nat.{bit_and, bit_or}
use mut.Base.{
  ℕ, ◌+◌, ◌*◌, ◌/◌, ◌%◌, ◌^◌, ◌≤◌, ◌<◌, ◌≡◌, refl, sym, ap, subst, ◌∙◌, arith, ulong_max,
}
use mut.Counter.Defs.{Uint64, uint64_value}
use mut.Counter.Bits.{or_digit}
use mut.Counter.Nibbles.{shr, low, bit_and-ones}
use mut.Counter.Printing.{Division, divide_chunk, divide_chunks, udiv10}
use mut.Counter.Rounds.{
  Divided, Ready, divide_chunk-Ready, divide_chunks-Ready, last-Divided, divide_chunks_last, feed,
  digit,
}

feed_low : (p n : ℕ) → n < 2 ^ 32 → 16 * feed 6 (16 * p + shr 7 n) n + n % 16 ≡ p * 2 ^ 32 + n
feed_low p n h = omega arith

feed_high : (n : ℕ) → n < 2 ^ 32 → 16 * feed 7 0 n + n % 16 ≡ n
feed_high n h = omega arith

-- The upper word, divided by the first loop and the block behind it.
high-Divided :
    (hi : ℕ)
    → hi < 2 ^ 32
    → let d = divide_chunks 7 28 (record { word = hi; ans = 0; rest = 0; mask = 15 }) in
      Divided hi (divide_chunk (bit_and d.word d.mask) 0 d)
      × ((divide_chunk (bit_and d.word d.mask) 0 d).ans ≤ ulong_max)
high-Divided hi h =
    let opened : Division = record { word = hi; ans = 0; rest = 0; mask = 15 } in
    let d : Division = divide_chunks 7 28 opened in
    let ready : Ready 7 0 hi opened = record {
      read = record { divided = refl; small = omega arith };
      width = 0;
      width_fits = omega arith;
      masked = refl;
      window = omega arith;
      same = λ i k. refl;
      fits = h;
      room = omega arith;
    } in
    let top : Ready 0 (feed 7 0 hi) hi d =
      divide_chunks-Ready 7 28 0 hi opened (omega arith) refl ready in
    let one : d.word / 2 ^ 0 ≡ d.word = omega arith in
    let (r, l) = last-Divided (feed 7 0 hi) hi d top in
    subst
      (λ w.
        Divided w (divide_chunk (bit_and d.word d.mask) 0 d)
        × ((divide_chunk (bit_and d.word d.mask) 0 d).ans ≤ ulong_max))
      (feed_high hi h)
      (subst
        (λ w.
          Divided (16 * feed 7 0 hi + hi % 16) (divide_chunk (bit_and w d.mask) 0 d)
          × ((divide_chunk (bit_and w d.mask) 0 d).ans ≤ ulong_max))
        one (r, l))

-- The first digit of the lower word, with the remainder of the upper one.
first_digit :
    (r lo : ℕ)
    → r < 10
    → lo < 2 ^ 32
    → bit_and (bit_or (r * 2 ^ 4 % 2 ^ 32) (lo / 2 ^ 28)) 255 ≡ 16 * r + shr 7 lo
first_digit r lo h l =
    let e : r * 2 ^ 4 % 2 ^ 32 ≡ 16 * r = omega arith in
    let t : ℕ = bit_or (r * 2 ^ 4 % 2 ^ 32) (lo / 2 ^ 28) in
    let f : t ≡ 16 * r + lo / 2 ^ 28 =
      ap (λ u. bit_or u (lo / 2 ^ 28)) e ∙ or_digit r (lo / 2 ^ 28) (omega arith) in
    bit_and-ones 2 t ∙ omega (arith, f)

low-Divided :
    (y r lo : ℕ)
    → y ≡ 16 * r + shr 7 lo
    → r < 10
    → lo < 2 ^ 32
    → let start : Division = record { word = lo; ans = 0; rest = r; mask = 255 } in
      let d = divide_chunks 7 24 (divide_chunk y 28 start) in
      Divided (r * 2 ^ 32 + lo) d × (d.ans ≤ ulong_max)
low-Divided y r lo e h l =
    let start : Division = record { word = lo; ans = 0; rest = r; mask = 255 } in
    let c : ℕ = shr 7 lo % 16 in
    let none_above : shr 7 lo / 16 ≡ 0 = omega arith in
    let ready : Ready 6 (16 * r + c) lo (divide_chunk y 28 start) =
      divide_chunk-Ready y 6 r lo 1 start (omega arith)
        (record { divided = omega arith; small = h }) (omega arith) refl (omega arith)
        (λ _. omega arith) (λ i k. refl) l (omega arith) in
    let d : Division = divide_chunks 6 24 (divide_chunk y 28 start) in
    let top : Ready 0 (feed 6 (16 * r + c) lo) lo d =
      divide_chunks-Ready 6 24 (16 * r + c) lo (divide_chunk y 28 start) (omega arith) refl ready in
    let whole : 16 * feed 6 (16 * r + c) lo + lo % 16 ≡ r * 2 ^ 32 + lo = omega arith in
    subst (λ f. Divided (r * 2 ^ 32 + lo) f × (f.ans ≤ ulong_max))
      (sym (divide_chunks_last 6 24 (divide_chunk y 28 start) (omega arith) refl))
      (subst
        (λ w.
          Divided w (divide_chunk (digit 0 d) 0 d)
          × ((divide_chunk (digit 0 d) 0 d).ans ≤ ulong_max))
        whole (last-Divided (feed 6 (16 * r + c) lo) lo d top))

both_words :
    (hi lo a b r s : ℕ)
    → hi ≡ 10 * a + r
    → r < 10
    → r * 2 ^ 32 + lo ≡ 10 * b + s
    → s < 10
    → (s ≡ (hi * 2 ^ 32 + lo) % 10) × (a * 2 ^ 32 + b ≡ (hi * 2 ^ 32 + lo) / 10)
both_words hi lo a b r s e h f k = (omega arith, omega arith)

-- For a counter whose two words are in range, mut_uint64_udiv10, with its masks and shifts,
-- returns the remainder by ten of the 64-bit number and leaves its quotient, in words that are in
-- range.
pub udiv10-divides :
    (n : Uint64)
    → n.hi < 2 ^ 32
    → n.lo < 2 ^ 32
    → ((udiv10 n).0 ≡ uint64_value n % 10)
      × (uint64_value (udiv10 n).1 ≡ uint64_value n / 10)
      × ((udiv10 n).1.hi < 2 ^ 32)
      × ((udiv10 n).1.lo < 2 ^ 32)
unfolding udiv10 divide_chunk
udiv10-divides n h l =
    let (high, hl) = high-Divided n.hi h in
    let e = first_digit _ n.lo high.small l in
    let (low, ll) = low-Divided _ _ n.lo e high.small l in
    let (p, q) = both_words n.hi n.lo _ _ _ _ high.divided high.small low.divided low.small in
    (p, q, omega (arith, hl), omega (arith, ll))
