-- ===== src/Base/Preserve.antt =====
-- Invariants through commands: `Keeps P s o` says that a run that begins in `s`, where `P` holds,
-- and ends as `o`, ends in a state where `P` holds. The rules go by the shape of the command, and
-- `search` applies them.
use mathlib.Core.Bool.{Bool, true, false}
use mathlib.Core.Path.{◌≡◌, refl}
use mathlib.Core.Option.{Option, none, some}
use mut.Base.Tests.{if◌then◌else◌}
use mut.Base.Run.{Outcome, ok, fail, halt, spent, Cmd, final, and_then, after_fail, assert, when}

pub record Keeps {S A : Type 0} (P : S → Type 0) (s : S) (o : Outcome S A) : Type 0 where
  pub holds : P s → P (final o)

module _ {S : Type 0} {P : S → Type 0} where
  pub Keeps-bind :
      {A B : Type 0} {o : Outcome S A} {k : A → Cmd S B} {s : S}
      → Keeps P s o
      → ((a : A) (t : S) → Keeps P t (k a t))
      → Keeps P s (and_then o k)
  Keeps-bind {o = ok a t} h next = record { holds = λ p. (next a t).holds (h.holds p) }
  Keeps-bind {o = fail t} h next = record { holds = h.holds }
  Keeps-bind {o = halt t} h next = record { holds = h.holds }
  Keeps-bind {o = spent t} h next = record { holds = h.holds }

  pub Keeps-on_fail :
      {A : Type 0} {o : Outcome S A} {cleanup : Cmd S (Unit {0})} {s : S}
      → Keeps P s o
      → ((t : S) → Keeps P t (cleanup t))
      → Keeps P s (after_fail o cleanup)
  Keeps-on_fail {o = ok a t} h next = record { holds = h.holds }
  Keeps-on_fail {A} {o = fail t} {cleanup} {s} h next =
      Keeps-bind {B = A} {o = cleanup t} {k = λ _ u. fail u}
        (record { holds = λ p. (next t).holds (h.holds p) }) (λ _ u. record { holds = λ p. p })
  Keeps-on_fail {o = halt t} h next = record { holds = h.holds }
  Keeps-on_fail {o = spent t} h next = record { holds = h.holds }

  pub Keeps-if :
      {A : Type 0} (b : Bool) (m n : Cmd S A) {s t : S}
      → (b ≡ true → Keeps P s (m t))
      → (b ≡ false → Keeps P s (n t))
      → Keeps P s ((if b then m else n) t)
  Keeps-if true m n p q = p refl
  Keeps-if false m n p q = q refl

  pub Keeps-option :
      {A B : Type 0} (o : Option B) (m : Cmd S A) (f : B → Cmd S A) {s t : S}
      → (o ≡ none → Keeps P s (m t))
      → ((b : B) → o ≡ some b → Keeps P s (f b t))
      → Keeps P s ((elim o as (λ _. Cmd S A) [ none ↦ m | some b ↦ f b ]) t)
  Keeps-option none m f p q = p refl
  Keeps-option (some b) m f p q = q b refl

  pub Keeps-when :
      (b : Bool) (m : Cmd S (Unit {0})) {s : S}
      → (b ≡ true → Keeps P s (m s))
      → Keeps P s (when b m s)
  Keeps-when true m q = q refl
  Keeps-when false m q = record { holds = λ p. p }

  pub Keeps-assert : (b : Bool) {s : S} → Keeps P s (assert b s)
  Keeps-assert true = record { holds = λ p. p }
  Keeps-assert false = record { holds = λ p. p }

  -- Outcomes at the state itself.
  pub Keeps-ok : {A : Type 0} {a : A} {s : S} → Keeps P s (ok a s)
  Keeps-ok = record { holds = λ p. p }

  pub Keeps-fail : {A : Type 0} {s : S} → Keeps {A = A} P s (fail s)
  Keeps-fail = record { holds = λ p. p }

  pub Keeps-halt : {A : Type 0} {s : S} → Keeps {A = A} P s (halt s)
  Keeps-halt = record { holds = λ p. p }

pub ruleset keeping = (
  Keeps-bind, Keeps-on_fail, Keeps-if, Keeps-option, Keeps-when, Keeps-assert, Keeps-ok, Keeps-fail,
  Keeps-halt,
)
