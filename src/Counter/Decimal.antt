-- ===== src/Counter/Decimal.antt =====
-- src/uint64/struct/mut_uint64.c: mut_uint64_out writes decimal notation.
use mut.Base.{
  ℕ, zero, suc, ◌+◌, ◌*◌, ◌/◌, ◌^◌, ◌≤◌, ◌<◌, ◌≡◌, ◌==◌, ◌&&◌, true, false, refl, sym, ap, subst,
  ◌∙◌, arith, Option, some, none, List, [], ◌∷◌, ◌++◌, length, length-append, ltb, Bool-cases, inl,
  inr,
}
use native.Mathlib.Nat.{pow-succ'}
use mathlib.Core.List.{append_assoc, append-nil}
use mut.Counter.Defs.{Uint64, uint64_value}
use mut.Counter.Printing.{udiv10, out_digits, uint64_out}
use mut.Counter.Quotient.{udiv10-divides}

-- `s` is `n` in decimal notation, in characters of ASCII and without zeros in front.
pub data Decimal : ℕ → List ℕ → Type 0 where
  one : {n : ℕ} {s : List ℕ} → n < 10 → s ≡ (n + 48) ∷ [] → Decimal n s
  more :
      {n : ℕ} {s : List ℕ} (q d : ℕ) (t : List ℕ)
      → Decimal q t
      → 0 < q
      → d < 10
      → n ≡ 10 * q + d
      → s ≡ t ++ ((d + 48) ∷ [])
      → Decimal n s

-- Written in at most `i` characters in front of `buffer`.
record Written (i n : ℕ) (buffer : List ℕ) (result : Option (List ℕ)) : Type 0 where
  text : List ℕ
  result_is : result ≡ some (text ++ buffer)
  decimal : Decimal n text
  short : length text ≤ i

-- Neither word of the quotient is left.
none_left : (q : Uint64) → (q.hi == 0 && q.lo == 0) ≡ true → uint64_value q ≡ 0
none_left q e = ground arith

some_left : (q : Uint64) → (q.hi == 0 && q.lo == 0) ≡ false → 0 < uint64_value q
some_left q e = ground arith

unfoldable out_rest : ℕ → ℕ → Uint64 → List ℕ → Option (List ℕ)
out_rest i r q buffer = elim (ltb r 10) [
  | false ↦ none
  | true ↦ elim (q.hi == 0 && q.lo == 0) [
    | true ↦ some ((r + 48) ∷ buffer)
    | false ↦ out_digits i q ((r + 48) ∷ buffer)
  ]
]

out_rest_last :
    (i r : ℕ) (q : Uint64) (buffer : List ℕ)
    → r < 10
    → (q.hi == 0 && q.lo == 0) ≡ true
    → out_rest i r q buffer ≡ some ((r + 48) ∷ buffer)
unfolding out_rest
out_rest_last i r q buffer h e = ground arith

out_rest_more :
    (i r : ℕ) (q : Uint64) (buffer : List ℕ)
    → r < 10
    → (q.hi == 0 && q.lo == 0) ≡ false
    → out_rest i r q buffer ≡ out_digits i q ((r + 48) ∷ buffer)
unfolding out_rest
out_rest_more i r q buffer h e = ground arith

behind :
    (i n r q : ℕ) (buffer : List ℕ) (result : Option (List ℕ))
    → Written i q ((r + 48) ∷ buffer) result
    → 0 < q
    → r < 10
    → n ≡ 10 * q + r
    → Written (suc i) n buffer result
behind i n r q buffer result w h l e = record {
  text = w.text ++ ((r + 48) ∷ []);
  result_is = w.result_is ∙ ap some (sym (append_assoc w.text ((r + 48) ∷ []) buffer));
  decimal = more q r w.text w.decimal h l e refl;
  short = omega (arith, length-append w.text ((r + 48) ∷ []), w.short);
}

-- Room for one character less is enough for the quotient.
quotient_room : (i n q : ℕ) → n < 10 ^ suc (suc i) → q ≡ n / 10 → q < 10 ^ suc i
quotient_room i n q h e = let step = pow-succ' 10 (suc i) in omega (arith, step)

out_rest-Written :
    (i n r : ℕ) (q : Uint64) (buffer : List ℕ)
    → r < 10
    → n ≡ 10 * uint64_value q + r
    → (0 < uint64_value q
        → Written i (uint64_value q) ((r + 48) ∷ buffer) (out_digits i q ((r + 48) ∷ buffer)))
    → Written (suc i) n buffer (out_rest i r q buffer)
out_rest-Written i n r q buffer h e next = elim (Bool-cases (q.hi == 0 && q.lo == 0)) [
  | inl z ↦
      let v : n ≡ r = omega (arith, none_left q z) in
      record {
        text = (r + 48) ∷ [];
        result_is = out_rest_last i r q buffer h z;
        decimal = one (omega arith) (ap (λ t. (t + 48) ∷ []) (sym v));
        short = omega arith;
      }
  | inr z ↦ subst (Written (suc i) n buffer) (sym (out_rest_more i r q buffer h z)) (
      behind i n r (uint64_value q) buffer (out_digits i q ((r + 48) ∷ buffer))
        (next (some_left q z)) (some_left q z) h e)
]

out_digits-Written :
    (i : ℕ) (n : Uint64) (buffer : List ℕ)
    → n.hi < 2 ^ 32
    → n.lo < 2 ^ 32
    → uint64_value n < 10 ^ suc i
    → Written (suc i) (uint64_value n) buffer (out_digits (suc i) n buffer)
unfolding out_digits out_rest
out_digits-Written zero n buffer h l k =
    let (rest, quotient, qh, ql) = udiv10-divides n h l in
    out_rest-Written zero (uint64_value n) (udiv10 n).0 (udiv10 n).1 buffer (omega arith)
      (omega arith) (λ p. absurd (omega (arith, quotient, p)))
out_digits-Written (suc i) n buffer h l k =
    let r : ℕ = (udiv10 n).0 in
    let q : Uint64 = (udiv10 n).1 in
    let (rest, quotient, qh, ql) = udiv10-divides n h l in
    out_rest-Written (suc i) (uint64_value n) r q buffer (omega arith) (omega arith) (λ _.
      out_digits-Written i q ((r + 48) ∷ buffer) qh ql
        (quotient_room i (uint64_value n) (uint64_value q) k quotient))

-- For every counter whose two words are in range, mut_uint64_out fails no assertion and does not
-- write in front of its buffer: it hands fputs the decimal notation of the 64-bit number, without
-- zeros in front, in at most 20 characters.
pub uint64_out-Decimal :
    (n : Uint64)
    → n.hi < 2 ^ 32
    → n.lo < 2 ^ 32
    → (text : List ℕ) × (uint64_out n ≡ some text)
      × Decimal (uint64_value n) text
      × (length text ≤ 20)
unfolding uint64_out
uint64_out-Decimal n h l =
    let w = out_digits-Written 19 n [] h l (omega arith) in
    (w.text, w.result_is ∙ ap some (append-nil w.text), w.decimal, w.short)
