-- ===== src/Log/Writing.antt =====
-- src/log/tty/mut_log.c: what is in the sink after a record, where every write succeeds.
use mut.Base.{
  ◌≡◌, refl, subst, sym, ap, String, Bool, true, false, not, Option, none, some, List, [], ◌∷◌,
  ◌++◌, Outcome, Cmd, ok, fail, halt, spent, and_then, assert, if◌then◌else◌,
}
use mut.Machine.{Os, Machine, Log, Item, newline}
use mut.Log.{emit, start, argument, finish, log_end}

-- A log whose writes have succeeded, within a record or at rest.
abbrev pub sound : String → Bool → List Item → Log
sound program logging sink = record {
  program_name = program;
  fatal_error = false;
  internal_error = false;
  logging = logging;
  sink = sink;
}

-- A run that succeeds and leaves such a log.
pub data Leaves {W A : Type 0} (l : Log) : Outcome (Machine W) A → Type 0 where
  leaves : {a : A} {m : Machine W} → m.log ≡ l → Leaves l (ok a m)

pub Leaves-bind :
    {W A B : Type 0} {k l : Log} {o : Outcome (Machine W) A} {f : A → Cmd (Machine W) B}
    → Leaves k o
    → ((a : A) (m : Machine W) → m.log ≡ k → Leaves l (f a m))
    → Leaves l (and_then o f)
Leaves-bind {o = ok a m} (leaves e) next = next a m e
Leaves-bind {o = fail m} e next = elim e [ ]
Leaves-bind {o = halt m} e next = elim e [ ]
Leaves-bind {o = spent m} e next = elim e [ ]

-- Items that are written one after the other.
abbrev pub write_all : List Item → List Item → List Item
write_all [] sink = sink
write_all (i ∷ is) sink = write_all is (i ∷ sink)

pub write_all-append :
    (is js sink : List Item) → write_all (is ++ js) sink ≡ write_all js (write_all is sink)
write_all-append [] js sink = refl
write_all-append (i ∷ is) js sink = write_all-append is js (i ∷ sink)

-- The log after a write.
abbrev noted : String → Item → Bool → List Item → Bool → Log
noted program item logging sink done = record {
  program_name = program;
  fatal_error = false;
  internal_error = not done;
  logging = logging;
  sink = if done then item ∷ sink else sink;
}

module _ {W : Type 0} where
  -- A command may be run on a machine whose log is written out.
  with_log :
      {A : Type 0} {k l : Log} (f : Cmd (Machine W) A) (m : Machine W)
      → m.log ≡ k
      → Leaves l (f (record m { log = k }))
      → Leaves l (f m)
  with_log {l = l} f m h p = subst (λ k. Leaves l (f (record m { log = k }))) (sym h) p

  pub option-Leaves :
      {program : String} {B : Type 0} (o : Option B) (is : List Item) (js : B → List Item)
      (c : Cmd (Machine W) (Unit {0})) (d : B → Cmd (Machine W) (Unit {0})) (sink : List Item)
      (m : Machine W)
      → Leaves (sound program true (write_all is sink)) (c m)
      → ((b : B) → Leaves (sound program true (write_all (js b) sink)) (d b m))
      → Leaves
          (sound program true (write_all (elim o [ none ↦ is | some b ↦ js b ]) sink))
          ((elim o as (λ _. Cmd (Machine W) (Unit {0})) [ none ↦ c | some b ↦ d b ]) m)
  option-Leaves none is js c d sink m p q = p
  option-Leaves (some b) is js c d sink m p q = q b

  pub assert-Leaves :
      {l : Log} (b : Bool) (m : Machine W) → b ≡ true → m.log ≡ l → Leaves l (assert b m)
  assert-Leaves {l} b m e h = subst (λ c. Leaves l (assert c m)) (sym e) (leaves h)

module _ {W : Type 0} (os : Os W) (written : (item : Item) (w : W) → (os.print item w).0 ≡ true)
    {program : String} where
  emit-Leaves :
      (item : Item) (logging : Bool) (sink : List Item) (m : Machine W)
      → m.log ≡ sound program logging sink
      → Leaves (sound program logging (item ∷ sink)) (emit os item m)
  unfolding emit
  emit-Leaves item logging sink m h =
      with_log (λ n. emit os item n) m h
        (leaves (ap (noted program item logging sink) (written item m.world)))

  pub start-Leaves :
      (head : String → Item) (sink : List Item) (m : Machine W)
      → m.log ≡ sound program false sink
      → Leaves (sound program true (head program ∷ sink)) (start os false head m)
  unfolding start
  start-Leaves head sink m h =
      with_log (start os false head) m h
        (emit-Leaves (head program) true sink (record m { log = sound program true sink }) refl)

  pub argument-Leaves :
      (item : Item) (sink : List Item) (m : Machine W)
      → m.log ≡ sound program true sink
      → Leaves (sound program true (item ∷ sink)) (argument os item m)
  unfolding argument
  argument-Leaves item sink m h =
      with_log (argument os item) m h
        (emit-Leaves item true sink (record m { log = sound program true sink }) refl)

  pub finish-Leaves :
      (sink : List Item) (m : Machine W)
      → m.log ≡ sound program true sink
      → Leaves (sound program false (newline ∷ sink)) (finish os m)
  unfolding finish log_end emit
  finish-Leaves sink m h =
      with_log (finish os) m h
        (leaves (ap (noted program newline false sink) (written newline m.world)))
