-- ===== src/Counter/Rounds.antt =====
-- src/uint64/struct/mut_uint64.c: the division by ten, round by round.
use Prim.Native.Nat.{bit_and, bit_or}
use mut.Base.{
  ℕ, zero, suc, ◌+◌, ◌-◌, ◌*◌, ◌/◌, ◌%◌, ◌^◌, ◌≤◌, ◌<◌, ◌≡◌, ◌==◌, refl, sym, ap, subst, ◌∙◌, arith,
  if◌then◌else◌, ulong_max, sub32,
}
use mut.Counter.Bits.{or_digit}
use mut.Counter.Nibbles.{
  shr, low, ones, bit_and-ones, shr-replace, replace-same, shr_shift, replaced, widened, low-none,
  low_window,
}
use mut.Counter.Printing.{Division, divide_chunk, divide_chunks}

-- The largest number whose upper part is `a`, with `k` nibbles behind it.
abbrev pub filled : ℕ → ℕ → ℕ
filled zero a = a
filled (suc k) a = filled k (16 * a + 15)

filled_mono : (k a b : ℕ) → a ≤ b → filled k a ≤ filled k b
filled_mono zero a b h = h
filled_mono (suc k) a b h = filled_mono k (16 * a + 15) (16 * b + 15) (omega arith)

filled_above : (k a : ℕ) → a ≤ filled k a
filled_above zero a = omega arith
filled_above (suc k) a = omega (arith, filled_above k (16 * a + 15))

-- `p` is what has been read of the number, from above: it has been divided.
pub record Divided (p : ℕ) (d : Division) : Type 0 where
  pub divided : p ≡ 10 * d.ans + d.rest
  pub small : d.rest < 10

-- The nibble of `n` at `q` is the next to be read, and `p` is what has been read.
pub record Ready (q p n : ℕ) (d : Division) : Type 0 where
  pub read : Divided p d
  pub width : ℕ
  pub width_fits : width < 8
  pub masked : d.mask ≡ ones (suc width)
  pub window : low (suc width) (shr q d.word) ≡ 16 * d.rest + shr q n % 16
  pub same : (i : ℕ) → i < suc q → shr i d.word % 16 ≡ shr i n % 16
  pub fits : d.word < 2 ^ 32
  pub room : filled (suc q) d.ans ≤ ulong_max

-- One digit `x`, made of the remainder and the nibble `c`.
divide_chunk-Divided :
    (x shift p c : ℕ) (d : Division)
    → Divided p d
    → x ≡ 16 * d.rest + c
    → c < 16
    → 16 * d.ans + 15 ≤ ulong_max
    → Divided (16 * p + c) (divide_chunk x shift d)
      × ((divide_chunk x shift d).ans ≤ 16 * d.ans + 15)
unfolding divide_chunk
divide_chunk-Divided x shift p c d h e l room =
    let a : d.ans * 2 ^ 4 % 2 ^ 32 ≡ 16 * d.ans = omega arith in
    let small : d.rest < 10 = h.small in
    let whole : p ≡ 10 * d.ans + d.rest = h.divided in
    let q : bit_or (d.ans * 2 ^ 4 % 2 ^ 32) (x / 10) ≡ 16 * d.ans + x / 10 =
      ap (λ t. bit_or t (x / 10)) a ∙ or_digit d.ans (x / 10) (omega arith) in
    (record { divided = omega arith; small = omega arith }, omega arith)

-- The mask for the next round is wide enough, and what it adds is zeros.
next_mask :
    (x j a : ℕ)
    → j < 8
    → (x ≡ 0 → low j a ≡ 0)
    → (m : ℕ) × (m < 7)
      × ((if x == 0 then bit_or (ones (suc j) * 2 ^ 4 % 2 ^ 32) (ones (suc j)) else 255)
          ≡ ones (suc (suc m)))
      × (low m a ≡ 0)
next_mask zero j a l h =
    let (m, below, e, narrow) = widened j l in (m, below, e, low-none m j a narrow (h refl))
next_mask (suc x) j a l h = (0, omega arith, ground arith, refl)

pub divide_chunk-Ready :
    (x q p n j : ℕ) (d : Division)
    → q < 7
    → Divided p d
    → j < 8
    → d.mask ≡ ones (suc j)
    → x ≡ 16 * d.rest + shr (suc q) n % 16
    → (x ≡ 0 → low j (shr (suc q) d.word / 16) ≡ 0)
    → ((i : ℕ) → i < suc (suc q) → shr i d.word % 16 ≡ shr i n % 16)
    → d.word < 2 ^ 32
    → filled (suc (suc q)) d.ans ≤ ulong_max
    → Ready q (16 * p + shr (suc q) n % 16) n (divide_chunk x (4 * suc q) d)
unfolding divide_chunk
divide_chunk-Ready x q p n j d lq h lj em ex vanish same fits room =
    let a : ℕ = shr (suc q) d.word / 16 in
    let c : ℕ = shr (suc q) n % 16 in
    let over : 16 * d.ans + 15 ≤ ulong_max =
      omega (arith, filled_above (suc q) (16 * d.ans + 15), room) in
    let (read, grown) = divide_chunk-Divided x (4 * suc q) p c d h ex (omega arith) over in
    let (put, put_fits) = replaced d.word (x % 10) fits (omega arith) (suc q) (omega arith) in
    let (m, lm, em', low0) = next_mask x j a lj vanish in
    let word' : ℕ =
      bit_or (x % 10 * 2 ^ (4 * suc q) % 2 ^ 32)
        (bit_and d.word (ulong_max - 15 * 2 ^ (4 * suc q) % 2 ^ 32)) in
    let same' : (i : ℕ) → i < suc q → shr i word' % 16 ≡ shr i n % 16 = λ i l.
      ap (λ t. shr i t % 16) put
      ∙ replace-same (suc q) i (x % 10) d.word l
      ∙ same i (omega arith) in
    let at : shr q word' ≡ 256 * a + 16 * (x % 10) + shr q d.word % 16 =
      ap (shr q) put ∙ shr-replace q (x % 10) d.word in
    let nib : shr q d.word % 16 ≡ shr q n % 16 = same q (omega arith) in
    record {
      read = read;
      width = suc m;
      width_fits = omega arith;
      masked = ap (λ t. if x == 0 then bit_or (t * 2 ^ 4 % 2 ^ 32) t else 255) em ∙ em';
      window =
          ap (low (suc (suc m))) at
          ∙ omega (arith, low_window m a (x % 10) (shr q d.word % 16) (omega arith) (omega arith));
      same = same';
      fits = omega (arith, put);
      room = omega (arith, filled_mono (suc q) _ _ grown, room);
    }

-- What the masks and shifts cut out of the word is the remainder and the next nibble.
digit-Ready :
    {q p n : ℕ} {d : Division}
    → Ready q p n d
    → q < 8
    → bit_and (d.word / 2 ^ (4 * q)) d.mask ≡ 16 * d.rest + shr q n % 16
digit-Ready {q} {d = d} h l =
    (λ i. bit_and (shr_shift d.word q l i) (h.masked i))
    ∙ bit_and-ones (suc h.width) (shr q d.word)
    ∙ h.window

-- The digit that a round takes at `shift`.
abbrev pub digit : ℕ → Division → ℕ
digit shift d = bit_and (d.word / 2 ^ shift) d.mask

round-Ready :
    (q p n : ℕ) (d : Division)
    → q < 7
    → Ready (suc q) p n d
    → Ready q (16 * p + shr (suc q) n % 16) n (divide_chunk (digit (4 * suc q) d) (4 * suc q) d)
round-Ready q p n d l h =
    let e : digit (4 * suc q) d ≡ 16 * d.rest + shr (suc q) n % 16 = digit-Ready h (omega arith) in
    let w : low (suc h.width) (shr (suc q) d.word) ≡ 16 * d.rest + shr (suc q) n % 16 = h.window in
    divide_chunk-Ready (digit (4 * suc q) d) q p n h.width d l h.read h.width_fits h.masked e
      (λ z. omega (arith, z, e, w)) h.same h.fits h.room

-- `p` with the nibbles of `n` from `k` down to 1 read behind it.
abbrev pub feed : ℕ → ℕ → ℕ → ℕ
feed zero p n = p
feed (suc k) p n = feed k (16 * p + shr (suc k) n % 16) n

pub divide_chunks-Ready :
    (k shift p n : ℕ) (d : Division)
    → k < 8
    → shift ≡ 4 * k
    → Ready k p n d
    → Ready 0 (feed k p n) n (divide_chunks k shift d)
unfolding divide_chunks
divide_chunks-Ready zero shift p n d l e h = h
divide_chunks-Ready (suc k) shift p n d l e h =
    let turn : Ready k (16 * p + shr (suc k) n % 16) n (divide_chunk (digit shift d) shift d) =
      subst (λ s. Ready k (16 * p + shr (suc k) n % 16) n (divide_chunk (digit s d) s d)) (sym e)
        (round-Ready k p n d (omega arith) h) in
    divide_chunks-Ready k (sub32 shift 4) (16 * p + shr (suc k) n % 16) n
      (divide_chunk (digit shift d) shift d) (omega arith) (omega arith) turn

pub last-Divided :
    (p n : ℕ) (d : Division)
    → Ready 0 p n d
    → Divided (16 * p + n % 16) (divide_chunk (digit 0 d) 0 d)
      × ((divide_chunk (digit 0 d) 0 d).ans ≤ ulong_max)
last-Divided p n d h =
    let room : 16 * d.ans + 15 ≤ ulong_max = h.room in
    let (r, l) =
      divide_chunk-Divided (digit 0 d) 0 p (n % 16) d h.read (digit-Ready h (omega arith))
        (omega arith) room in
    (r, omega arith)

-- The rounds of the second loop: those of the first and one at the last nibble.
pub divide_chunks_last :
    (k shift : ℕ) (d : Division)
    → k < 8
    → shift ≡ 4 * k
    → divide_chunks (suc k) shift d
      ≡ (let e = divide_chunks k shift d in divide_chunk (digit 0 e) 0 e)
unfolding divide_chunks
divide_chunks_last zero shift d l e = rw e refl
divide_chunks_last (suc k) shift d l e =
    divide_chunks_last k (sub32 shift 4) (divide_chunk (digit shift d) shift d) (omega arith)
      (omega arith)
