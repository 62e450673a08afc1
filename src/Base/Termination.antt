-- ===== src/Base/Termination.antt =====
-- Commands that do not use up their fuel: `Lasts P o` says that a run ends with fuel left, in a
-- state where `P` holds. The rules go by the shape of the command, and `search` applies them.
use mathlib.Core.Bool.{Bool, true, false}
use mathlib.Core.Option.{Option, none, some}
use mut.Base.Tests.{if◌then◌else◌}
use mut.Base.Run.{Outcome, ok, fail, halt, spent, Cmd, and_then, after_fail, within, assert, when}

pub data Lasts {S A : Type 0} (P : S → Type 0) : Outcome S A → Type 0 where
  lasts_ok : {a : A} {s : S} → P s → Lasts P (ok a s)
  lasts_fail : {s : S} → P s → Lasts P (fail s)
  lasts_halt : {s : S} → P s → Lasts P (halt s)

module _ {S : Type 0} {P : S → Type 0} where
  pub Lasts-bind :
      {A B : Type 0} {o : Outcome S A} {k : A → Cmd S B}
      → Lasts P o
      → ((a : A) (t : S) → P t → Lasts P (k a t))
      → Lasts P (and_then o k)
  Lasts-bind {o = ok a t} (lasts_ok p) next = next a t p
  Lasts-bind {o = fail t} (lasts_fail p) next = lasts_fail p
  Lasts-bind {o = halt t} (lasts_halt p) next = lasts_halt p
  Lasts-bind {o = spent t} e next = elim e [ ]

  pub Lasts-on_fail :
      {A : Type 0} {o : Outcome S A} {cleanup : Cmd S (Unit {0})}
      → Lasts P o
      → ((t : S) → P t → Lasts P (cleanup t))
      → Lasts P (after_fail o cleanup)
  Lasts-on_fail {o = ok a t} (lasts_ok p) next = lasts_ok p
  Lasts-on_fail {o = fail t} (lasts_fail p) next = Lasts-bind (next t p) (λ _ u q. lasts_fail q)
  Lasts-on_fail {o = halt t} (lasts_halt p) next = lasts_halt p
  Lasts-on_fail {o = spent t} e next = elim e [ ]

  pub Lasts-if :
      {A : Type 0} (b : Bool) (m n : Cmd S A) {t : S}
      → Lasts P (m t)
      → Lasts P (n t)
      → Lasts P ((if b then m else n) t)
  Lasts-if true m n p q = p
  Lasts-if false m n p q = q

  pub Lasts-option :
      {A B : Type 0} (o : Option B) (m : Cmd S A) (f : B → Cmd S A) {t : S}
      → Lasts P (m t)
      → ((b : B) → Lasts P (f b t))
      → Lasts P ((elim o as (λ _. Cmd S A) [ none ↦ m | some b ↦ f b ]) t)
  Lasts-option none m f p q = p
  Lasts-option (some b) m f p q = q b

  pub Lasts-when :
      (b : Bool) (m : Cmd S (Unit {0})) {t : S} → P t → Lasts P (m t) → Lasts P (when b m t)
  Lasts-when true m p q = q
  Lasts-when false m p q = lasts_ok p

  pub Lasts-assert : (b : Bool) (t : S) → P t → Lasts P (assert b t)
  Lasts-assert true t p = lasts_ok p
  Lasts-assert false t p = lasts_halt p

pub ruleset lasting = (
  Lasts-bind, Lasts-on_fail, Lasts-if, Lasts-option, Lasts-when, Lasts-assert, lasts_ok, lasts_fail,
  lasts_halt,
)

-- A run that ends with fuel left, with a result and a state that `Q` holds of, or else where `P`
-- holds.
pub data Returns {S A : Type 0} (Q : A → S → Type 0) (P : S → Type 0) : Outcome S A → Type 0 where
  returns_ok : {a : A} {s : S} → Q a s → Returns Q P (ok a s)
  returns_fail : {s : S} → P s → Returns Q P (fail s)
  returns_halt : {s : S} → P s → Returns Q P (halt s)

module _ {S : Type 0} {P : S → Type 0} where
  -- A command that ends where `O` holds, and then one that returns.
  pub Returns-after :
      {A B : Type 0} {O : S → Type 0} {Q : B → S → Type 0} {o : Outcome S A} {k : A → Cmd S B}
      → Lasts O o
      → ((t : S) → O t → P t)
      → ((a : A) (t : S) → O t → Returns Q P (k a t))
      → Returns Q P (and_then o k)
  Returns-after {o = ok a t} (lasts_ok p) f next = next a t p
  Returns-after {o = fail t} (lasts_fail p) f next = returns_fail (f t p)
  Returns-after {o = halt t} (lasts_halt p) f next = returns_halt (f t p)
  Returns-after {o = spent t} e f next = elim e [ ]

  -- A command that returns, and then one whose kind of end depends on the result.
  pub Returns-bind :
      {A B : Type 0} {Q : A → S → Type 0} {R : B → S → Type 0} {o : Outcome S A} {k : A → Cmd S B}
      → Returns Q P o
      → ((a : A) (t : S) → Q a t → Returns R P (k a t))
      → Returns R P (and_then o k)
  Returns-bind {o = ok a t} (returns_ok q) next = next a t q
  Returns-bind {o = fail t} (returns_fail p) next = returns_fail p
  Returns-bind {o = halt t} (returns_halt p) next = returns_halt p
  Returns-bind {o = spent t} e next = elim e [ ]

  pub Returns-Lasts :
      {A : Type 0} {Q : A → S → Type 0} {O : S → Type 0} {o : Outcome S A}
      → ((a : A) (t : S) → Q a t → O t)
      → ((t : S) → P t → O t)
      → Returns Q P o
      → Lasts O o
  Returns-Lasts f g (returns_ok q) = lasts_ok (f _ _ q)
  Returns-Lasts f g (returns_fail p) = lasts_fail (g _ p)
  Returns-Lasts f g (returns_halt p) = lasts_halt (g _ p)

  pub Returns-more :
      {A : Type 0} {Q R : A → S → Type 0} {O : S → Type 0} {o : Outcome S A}
      → ((a : A) (t : S) → Q a t → R a t)
      → ((t : S) → P t → O t)
      → Returns Q P o
      → Returns R O o
  Returns-more f g (returns_ok q) = returns_ok (f _ _ q)
  Returns-more f g (returns_fail p) = returns_fail (g _ p)
  Returns-more f g (returns_halt p) = returns_halt (g _ p)

pub Returns-within :
    {S T A : Type 0} {P : S → Type 0} {Q : A → S → Type 0} {O : T → Type 0} {R : A → T → Type 0}
    (put : S → T → S) (s : S) {o : Outcome T A}
    → ((a : A) (u : T) → R a u → Q a (put s u))
    → ((u : T) → O u → P (put s u))
    → Returns R O o
    → Returns Q P (within put s o)
Returns-within put s f g (returns_ok q) = returns_ok (f _ _ q)
Returns-within put s f g (returns_fail p) = returns_fail (g _ p)
Returns-within put s f g (returns_halt p) = returns_halt (g _ p)

-- A command of a part, in the whole that holds it.
pub Lasts-within :
    {S T A : Type 0} {P : S → Type 0} {Q : T → Type 0} (put : S → T → S) (s : S) {o : Outcome T A}
    → ((u : T) → Q u → P (put s u))
    → Lasts Q o
    → Lasts P (within put s o)
Lasts-within put s g (lasts_ok q) = lasts_ok (g _ q)
Lasts-within put s g (lasts_fail q) = lasts_fail (g _ q)
Lasts-within put s g (lasts_halt q) = lasts_halt (g _ q)
