-- ===== src/Base/Run.antt =====
-- Commands over a state. `fail` is the C convention of returning zero after an error, with the
-- state as it then is; `halt` ends MUT itself: a failed assertion, or the use of memory that has
-- been given back; `spent` says that a loop has used up its fuel.
use mathlib.Core.Bool.{Bool, true, false}

pub data Outcome (S A : Type 0) : Type 0 where
  ok : A → S → Outcome S A
  fail : S → Outcome S A
  halt : S → Outcome S A
  spent : S → Outcome S A

abbrev pub Cmd : Type 0 → Type 0 → Type 0
Cmd S A = S → Outcome S A

-- The state that a run ends in, however it ends.
abbrev pub final : {S A : Type 0} → Outcome S A → S
final (ok _ s) = s
final (fail s) = s
final (halt s) = s
final (spent s) = s

module _ {S A : Type 0} where
  abbrev pub pure : A → Cmd S A
  pure a s = ok a s

  abbrev pub failed : Cmd S A
  failed s = fail s

  abbrev pub halted : Cmd S A
  halted s = halt s

  abbrev pub exhausted : Cmd S A
  exhausted s = spent s

  abbrev pub get : (S → A) → Cmd S A
  get f s = ok (f s) s

module _ {S : Type 0} where
  abbrev pub skip : Cmd S (Unit {0})
  skip s = ok tt s

  abbrev pub modify : (S → S) → Cmd S (Unit {0})
  modify f s = ok tt (f s)

  -- `assert (b)`
  abbrev pub assert : Bool → Cmd S (Unit {0})
  assert true s = ok tt s
  assert false s = halt s

  -- `if (b) m;`
  abbrev pub when : Bool → Cmd S (Unit {0}) → Cmd S (Unit {0})
  when true m s = m s
  when false m s = ok tt s

module _ {S A B : Type 0} where
  abbrev pub and_then : Outcome S A → (A → Cmd S B) → Outcome S B
  and_then (ok a s) k = k a s
  and_then (fail s) k = fail s
  and_then (halt s) k = halt s
  and_then (spent s) k = spent s

  infixl 5 ◌>>=◌ ◌>>◌
  abbrev pub ◌>>=◌ : Cmd S A → (A → Cmd S B) → Cmd S B
  ◌>>=◌ m k s = and_then (m s) k

  abbrev pub ◌>>◌ : Cmd S A → Cmd S B → Cmd S B
  ◌>>◌ m k s = and_then (m s) (λ _. k)

-- `goto label` on an error, where the code at the label cleans up and returns zero.
module _ {S A : Type 0} where
  abbrev pub after_fail : Outcome S A → Cmd S (Unit {0}) → Outcome S A
  after_fail (ok a s) cleanup = ok a s
  after_fail (fail s) cleanup = and_then (cleanup s) (λ _ t. fail t)
  after_fail (halt s) cleanup = halt s
  after_fail (spent s) cleanup = spent s

  infixl 6 ◌on_fail◌
  abbrev pub ◌on_fail◌ : Cmd S A → Cmd S (Unit {0}) → Cmd S A
  ◌on_fail◌ m cleanup s = after_fail (m s) cleanup

-- A command of a part, run in the whole that holds it.
module _ {S T A : Type 0} (put : S → T → S) where
  abbrev pub within : S → Outcome T A → Outcome S A
  within s (ok a t) = ok a (put s t)
  within s (fail t) = fail (put s t)
  within s (halt t) = halt (put s t)
  within s (spent t) = spent (put s t)
