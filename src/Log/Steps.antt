-- ===== src/Log/Steps.antt =====
-- src/log/tty/mut_log.c: each write to the sink keeps the form of the records.
use mut.Base.{
  String, Bool, true, false, List, ◌≡◌, refl, subst, ◌∙◌, Cmd, Outcome, final, ok, fail, halt,
  spent, halted, none, some, ◌||◌, ◌++◌, and_then,
}
use mut.Counter.{Uint64, uint64_value, uint64_out}
use mut.Machine.{Os, Item, counter, newline, Machine}
use mut.Log.{written, emit, start, argument, log_uint64, log_end, finish}
use mut.Log.Protocol.{IsHead, IsArgument, of_counter, Records, head, argued, ended, Recorded}

or-false : (b : Bool) → (b || false) ≡ b
or-false true = refl
or-false false = refl

abbrev pub Good : {W : Type 0} → List Item → Machine W → Type 0
Good e m = Recorded e m.log

module _ {W : Type 0} (os : Os W) (before : List Item) where
  abbrev pub Fine : Machine W → Type 0
  Fine m = Good before m

  written-head :
      (i : Item) (f : Bool) (r : Bool × W) (m : Machine W)
      → Records (m.log.sink ++ before) false false
      → IsHead i f
      → m.log.logging ≡ true
      → m.log.fatal_error ≡ f
      → Fine (written i r m)
  written-head i f (true, w) m rs h l e = record {
    is_open = true;
    is_fatal = f;
    shape = head rs h;
    open_told = λ _. cc;
    fatal_told = λ _. cc;
  }
  written-head i f (false, w) m rs h l e = record {
    is_open = false;
    is_fatal = false;
    shape = rs;
    open_told = λ z. absurd (cc);
    fatal_told = λ z. absurd (cc);
  }

  written-argument :
      (i : Item) (r : Bool × W) (m : Machine W)
      → Fine m
      → IsArgument i
      → m.log.logging ≡ true
      → m.log.internal_error ≡ false
      → Fine (written i r m)
  written-argument i (true, w) m g h l e = record {
    is_open = true;
    is_fatal = g.is_fatal;
    shape =
        argued
          (subst (λ o. Records (m.log.sink ++ before) o g.is_fatal) (g.open_told e ∙ l) g.shape) h;
    open_told = λ _. cc;
    fatal_told = λ _. g.fatal_told e;
  }
  written-argument i (false, w) m g h l e = record {
    is_open = g.is_open;
    is_fatal = g.is_fatal;
    shape = g.shape;
    open_told = λ z. absurd (cc);
    fatal_told = λ z. absurd (cc);
  }

  -- A machine by the flags of its log.
  abbrev flagged : Machine W → Bool → Bool → Bool → Machine W
  flagged m fe lg ie = record m {
    log = record m.log { fatal_error = fe; logging = lg; internal_error = ie };
  }

  start_cases :
      (f : Bool) (h : String → Item)
      → ((p : String) → IsHead (h p) f)
      → (fe lg ie : Bool) (m : Machine W) → Fine (flagged m fe lg ie)
      → Fine (final (start os f h (flagged m fe lg ie)))
  unfolding start emit
  start_cases f h hd true lg ie m g = g
  start_cases f h hd false true ie m g = g
  start_cases f h hd false false true m g = g
  start_cases f h hd false false false m g =
      written-head (h m.log.program_name) f (os.print (h m.log.program_name) m.world)
        (flagged m (f || false) true false)
        (subst (Records (m.log.sink ++ before) false) (g.fatal_told refl)
          (subst (λ o. Records (m.log.sink ++ before) o g.is_fatal) (g.open_told refl) g.shape))
        (hd m.log.program_name) refl (or-false f)

  pub start-Good :
      (f : Bool) (h : String → Item)
      → ((p : String) → IsHead (h p) f)
      → (m : Machine W) → Fine m
      → Fine (final (start os f h m))
  start-Good f h hd m = start_cases f h hd m.log.fatal_error m.log.logging m.log.internal_error m

  argument_cases :
      (i : Item)
      → IsArgument i
      → (fe lg ie : Bool) (m : Machine W) → Fine (flagged m fe lg ie)
      → Fine (final (argument os i (flagged m fe lg ie)))
  unfolding argument emit
  argument_cases i h fe false ie m g = g
  argument_cases i h fe true true m g = g
  argument_cases i h fe true false m g =
      written-argument i (os.print i m.world) (flagged m fe true false) g h refl refl

  pub argument-Good :
      (i : Item) → IsArgument i → (m : Machine W) → Fine m → Fine (final (argument os i m))
  argument-Good i h m = argument_cases i h m.log.fatal_error m.log.logging m.log.internal_error m

  written-end :
      (r : Bool × W) (m : Machine W)
      → Fine m
      → m.log.internal_error ≡ false
      → m.log.logging ≡ true
      → Fine (written newline r (record m { log = record m.log { logging = false } }))
  written-end (true, w) m g e l = record {
    is_open = false;
    is_fatal = g.is_fatal;
    shape =
        ended
          (subst (λ o. Records (m.log.sink ++ before) o g.is_fatal) (g.open_told e ∙ l) g.shape);
    open_told = λ _. refl;
    fatal_told = λ _. g.fatal_told e;
  }
  written-end (false, w) m g e l = record {
    is_open = g.is_open;
    is_fatal = g.is_fatal;
    shape = g.shape;
    open_told = λ z. absurd (cc);
    fatal_told = λ z. absurd (cc);
  }

  finish_cases :
      (fe lg ie : Bool) (m : Machine W)
      → Fine (flagged m fe lg ie)
      → Fine (final (finish os (flagged m fe lg ie)))
  unfolding finish log_end emit
  finish_cases fe false ie m g = g
  finish_cases fe true true m g = record {
    is_open = g.is_open;
    is_fatal = g.is_fatal;
    shape = g.shape;
    open_told = λ z. absurd (cc);
    fatal_told = λ z. absurd (cc);
  }
  finish_cases fe true false m g =
      written-end (os.print newline m.world) (flagged m fe true false) g refl refl

  pub uint64_cases :
      (c : Uint64) (fe lg ie : Bool) (m : Machine W)
      → Fine (flagged m fe lg ie)
      → Fine (final (log_uint64 os c (flagged m fe lg ie)))
  unfolding log_uint64 emit
  uint64_cases c fe false ie m g = g
  uint64_cases c fe true true m g = g
  uint64_cases c fe true false m g =
      let n = flagged m fe true false in
      let item = counter (uint64_value c) in
      elim (uint64_out c)
        as (λ o. Fine (
          final (
            (elim o as (λ _. Cmd (Machine W) (Unit {0})) [
              | none ↦ halted
              | some text ↦ emit os item
            ])
              n))) [
                | none ↦ g
                | some text ↦
                    written-argument item (os.print item m.world) n g (of_counter _) refl refl
              ]

  pub final-then :
      {A B : Type 0} (o : Outcome (Machine W) A) (k : A → Cmd (Machine W) B)
      → Fine (final o)
      → ((a : A) (t : Machine W) → Fine t → Fine (final (k a t)))
      → Fine (final (and_then o k))
  final-then (ok a t) k g next = next a t g
  final-then (fail t) k g next = g
  final-then (halt t) k g next = g
  final-then (spent t) k g next = g

  pub finish-Good : (m : Machine W) → Fine m → Fine (final (finish os m))
  finish-Good m g = finish_cases m.log.fatal_error m.log.logging m.log.internal_error m g
