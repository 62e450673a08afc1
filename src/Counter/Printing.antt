-- ===== src/Counter/Printing.antt =====
-- src/uint64/struct/mut_uint64.c: mut_uint64_udiv10 and mut_uint64_out, which write a counter in
-- decimal.
use Prim.Native.Nat.{bit_and, bit_or}
use mut.Base.{
  ℕ, zero, suc, ◌+◌, ◌-◌, ◌*◌, ◌/◌, ◌%◌, ◌^◌, ◌==◌, ◌&&◌, true, false, Option, none, some, List, [],
  ◌∷◌, ltb, if◌then◌else◌, sub32, ulong_max,
}
use mut.Counter.Defs.{Uint64, uint64}

-- The variables of the division of one word: `n_hi` or `n_lo`, `ans_hi` or `ans_lo`, `r`, `mask`.
pub record Division : Type 0 where
  pub word : ℕ
  pub ans : ℕ
  pub rest : ℕ
  pub mask : ℕ

-- The statements that the loops and the blocks share, for the digit `x` found at `shift`.
unfoldable pub divide_chunk : ℕ → ℕ → Division → Division
divide_chunk x shift d = record {
  word =
      bit_or (x % 10 * 2 ^ shift % 2 ^ 32) (bit_and d.word (ulong_max - 15 * 2 ^ shift % 2 ^ 32));
  ans = bit_or (d.ans * 2 ^ 4 % 2 ^ 32) (x / 10);
  rest = x % 10;
  mask = if x == 0 then bit_or (d.mask * 2 ^ 4 % 2 ^ 32) d.mask else 255;
}

-- So many rounds of either loop, from `shift` on.
unfoldable pub divide_chunks : ℕ → ℕ → Division → Division
divide_chunks zero shift d = d
divide_chunks (suc k) shift d =
    divide_chunks k (sub32 shift 4) (divide_chunk (bit_and (d.word / 2 ^ shift) d.mask) shift d)

-- The remainder, and the quotient that replaces `n`. The first loop runs for the shifts 28 to 4,
-- the second for the shifts 24 to 0.
unfoldable pub udiv10 : Uint64 → ℕ × Uint64
udiv10 n =
    let high = divide_chunks 7 28 (record { word = n.hi; ans = 0; rest = 0; mask = 15 }) in
    let x = bit_and high.word high.mask in
    let y = bit_and (bit_or (x % 10 * 2 ^ 4 % 2 ^ 32) (n.lo / 2 ^ 28)) 255 in
    let start : Division = record { word = n.lo; ans = 0; rest = x % 10; mask = 255 } in
    let low = divide_chunks 7 24 (divide_chunk y 28 start) in
    (low.rest, uint64 (bit_or (high.ans * 2 ^ 4 % 2 ^ 32) (x / 10)) low.ans)

-- The characters from `buffer[i]` on; `none` where a digit does not pass the assertion, or the
-- next would be written in front of the buffer.
unfoldable pub out_digits : ℕ → Uint64 → List ℕ → Option (List ℕ)
out_digits zero ui buffer = none
out_digits (suc i) ui buffer =
    let (r, quotient) = udiv10 ui in
    elim (ltb r 10) [
      | false ↦ none
      | true ↦ elim (quotient.hi == 0 && quotient.lo == 0) [
        | true ↦ some ((r + 48) ∷ buffer)
        | false ↦ out_digits i quotient ((r + 48) ∷ buffer)
      ]
    ]

abbrev pub max_decimal_chars : ℕ
max_decimal_chars = 20

-- What fputs is given.
unfoldable pub uint64_out : Uint64 → Option (List ℕ)
uint64_out ui = out_digits max_decimal_chars ui []
