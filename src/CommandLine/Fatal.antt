-- ===== src/CommandLine/Fatal.antt =====
-- src/log/tty/mut_log.c as src/ui/tty/mut_ui.c uses it: a fatal record on a log at rest.
use mut.Base.{
  ℕ, String, Bool, true, false, not, ◌≡◌, refl, ap, Outcome, ok, and_then, Cmd, assert, when, pure,
  get,
}
use mut.Machine.{Os, Machine, str, newline}
use mut.Log.{emit, start, log_fatal, argument, log_string, log_end, finish}

-- Nothing fatal so far, no record open, and every write has succeeded.
pub record AtRest {W : Type 0} (m : Machine W) : Type 0 where
  pub no_fatal : m.log.fatal_error ≡ false
  pub closed : m.log.logging ≡ false
  pub written : m.log.internal_error ≡ false

-- A fatal record has been begun.
pub record Begun {W : Type 0} (m : Machine W) : Type 0 where
  pub is_fatal : m.log.fatal_error ≡ true
  pub opened : m.log.logging ≡ true

assert_lem :
    {S A : Type 0} (P : Outcome S A → Type 0) (b : Bool) (s : S) (k : Unit {0} → Cmd S A)
    → b ≡ true
    → P (k tt s)
    → P (and_then (assert b s) k)
assert_lem P true s k h p = p
assert_lem P false s k h p = cc

when_lem :
    {S A : Type 0} (P : Outcome S A → Type 0) (b : Bool) (m : Cmd S (Unit {0})) (s : S)
    (k : Unit {0} → Cmd S A)
    → P (and_then (m s) k)
    → P (k tt s)
    → P (and_then (when b m s) k)
when_lem P true m s k p q = p
when_lem P false m s k p q = q

module _ {W A : Type 0} (os : Os W) (P : Outcome (Machine W) A → Type 0) where
  pub log_string_lem :
      (text : String) (k : Unit {0} → Cmd (Machine W) A) (m : Machine W)
      → Begun m
      → ((m' : Machine W) → Begun m' → P (k tt m'))
      → P (and_then (log_string os text m) k)
  unfolding log_string argument emit
  log_string_lem text k m begun next =
      assert_lem (λ o. P (and_then o k)) m.log.logging m _ begun.opened
        (when_lem P (not m.log.internal_error) (emit os (str text)) m k
          (next _ (record { is_fatal = begun.is_fatal; opened = begun.opened })) (next m begun))

  pub log_fatal_lem :
      (text : String) (code : ℕ) (k : Unit {0} → Cmd (Machine W) A) (m : Machine W)
      → AtRest m
      → ((m' : Machine W) → Begun m' → P (k tt m'))
      → P (and_then (log_fatal os text code m) k)
  unfolding log_fatal start emit
  log_fatal_lem text code k m rest next =
      let Q : Outcome (Machine W) (Unit {0}) → Type 0 = λ o. P (and_then o k) in
      assert_lem Q (not m.log.fatal_error) m _ (ap not rest.no_fatal) (
        assert_lem Q (not m.log.logging) m _ (ap not rest.closed) (
          assert_lem Q (not m.log.internal_error) m _ (ap not rest.written)
            (next _ (record { is_fatal = refl; opened = refl }))))

pub finish_lem :
    {W : Type 0} (os : Os W) (P : Outcome (Machine W) (Unit {0}) → Type 0) (m : Machine W)
    → Begun m
    → ((m' : Machine W) → m'.log.fatal_error ≡ true → P (ok tt m'))
    → P (finish os m)
unfolding finish log_end emit
finish_lem {W} os P m begun next =
    let Q : Outcome (Machine W) Bool → Type 0 = λ o. P (and_then o (λ _. pure tt)) in
    let shut = record m { log = record m.log { logging = false } } in
    assert_lem Q m.log.logging m _ begun.opened (
      when_lem Q (not m.log.internal_error) (emit os newline) shut
        (λ _. get (λ n. not n.log.internal_error)) (next _ begun.is_fatal) (next _ begun.is_fatal))
