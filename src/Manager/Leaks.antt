-- ===== src/Manager/Leaks.antt =====
-- src/mut.c: what mut_log_leaks writes, as a function of the table.
use mut.Base.{
  ◌≡◌, ◌≢◌, refl, subst, sym, ℕ, String, true, false, not, none, some, List, [], ◌∷◌, Cmd, halted,
  when, arith, length, ◌+◌, ◌++◌, ◌==◌, sub32, if◌then◌else◌,
}
use mut.Machine.{Os, Machine, Item, error, str, ulong, hex, uint, newline}
use mut.Log.Writing.{
  sound, Leaves, Leaves-bind, leaves, write_all, write_all-append, start-Leaves, argument-Leaves,
  finish-Leaves, option-Leaves, assert-Leaves,
}
use mut.Log.{log_error, log_string, log_ulong, log_exec_addr, log_uint_hex, log_uint}
use mut.Resources.Defs.{Resource, Resources}
use mut.Resources.Iter.{iter_open, selected, drain-selected}
use mut.Manager.State.{action_name}
use mut.Manager.Reports.{View, log_leaks, log_frame, log_frames, maybe_backtrace, log_backtrace}
use mut.Exec.{Exec, addr_name}
use mut.Backtrace.Store.{count_at, frames_at}
use mut.Manager.Reports.Tables.{log_owner, leak_each}

-- The name of the routine that made an object.
abbrev pub maker : View → Resource → String
maker v r = elim r.producer.action [ none ↦ "" | some id ↦ action_name v.usage_name id ]

-- A frame of a backtrace.
unfoldable frame_items : Exec → ℕ → List Item
frame_items e addr = elim (addr_name e addr) [
  | none ↦ str "?" ∷ hex addr ∷ []
  | some f ↦
      str f.name
      ∷ hex f.start_addr
      ∷ hex addr
      ∷ uint (sub32 addr f.start_addr)
      ∷ str (elim f.file_name [ none ↦ "?" | some n ↦ n ])
      ∷ uint f.line
      ∷ []
]

unfoldable frames_items : Exec → List ℕ → List Item
unfolding frame_items
frames_items e [] = []
frames_items e (addr ∷ rest) = frame_items e addr ++ frames_items e rest

-- The backtrace of an object, where backtraces are wanted.
unfoldable pub trace_items : View → ℕ → List Item
unfolding frames_items
trace_items v bt =
    if v.flags.backtrace
    then uint (length (frames_at bt v.backtraces)) ∷ frames_items v.exec (frames_at bt v.backtraces)
    else []

-- One record for each object.
unfoldable pub leak_items : String → View → List Resource → List Item
unfolding trace_items
leak_items program v [] = []
leak_items program v (r ∷ rs) =
    error program "MLK"
    ∷ str (maker v r)
    ∷ ulong r.size
    ∷ hex r.addr
    ∷ (trace_items v r.producer.backtrace ++ (newline ∷ leak_items program v rs))

-- Each object has a maker, and a backtrace that is in use where backtraces are wanted.
abbrev pub Produced : View → List Resource → Type 0
Produced v [] = Unit
Produced v (r ∷ rs) =
    (r.producer.action ≢ none)
    × (v.flags.backtrace ≡ true → not (count_at r.producer.backtrace v.backtraces == 0) ≡ true)
    × Produced v rs

module _ {W : Type 0} (os : Os W) (written : (item : Item) (w : W) → (os.print item w).0 ≡ true)
    {program : String} where
  owner-Leaves :
      (v : View) (r : Resource) (sink : List Item) (m : Machine W)
      → r.producer.action ≢ none
      → m.log ≡ sound program true sink
      → Leaves (sound program true (str (maker v r) ∷ sink)) (log_owner os v r.producer m)
  unfolding log_owner log_string
  owner-Leaves v r sink m produced h =
      (elim r.producer.action
          as (λ a.
            a ≢ none
            → Leaves
                (sound program true
                  (str (elim a [ none ↦ "" | some id ↦ action_name v.usage_name id ]) ∷ sink))
                ((elim a as (λ _. Cmd (Machine W) (Unit {0})) [
                  | none ↦ halted
                  | some id ↦ log_string os (action_name v.usage_name id)
                ])
                  m)) [
                    | none ↦ λ n. absurd (n refl)
                    | some id ↦
                        λ _. argument-Leaves os written (str (action_name v.usage_name id)) sink m h
                  ])
        produced

  log_frame-Leaves :
      (e : Exec) (addr : ℕ) (sink : List Item) (m : Machine W)
      → m.log ≡ sound program true sink
      → Leaves (sound program true (write_all (frame_items e addr) sink)) (log_frame os e addr m)
  unfolding log_frame frame_items log_string log_exec_addr log_uint_hex log_uint
  log_frame-Leaves e addr sink m h =
      option-Leaves (addr_name e addr) _ _ _ _ sink m
        (Leaves-bind (argument-Leaves os written (str "?") sink m h)
          (λ _ n k. argument-Leaves os written (hex addr) _ n k))
        (λ f. Leaves-bind (argument-Leaves os written (str f.name) sink m h) (λ _ m h.
          Leaves-bind (argument-Leaves os written (hex f.start_addr) _ m h) (λ _ m h.
            Leaves-bind (argument-Leaves os written (hex addr) _ m h) (λ _ m h.
              Leaves-bind (argument-Leaves os written (uint (sub32 addr f.start_addr)) _ m h)
                (λ _ m h.
                  Leaves-bind
                    (argument-Leaves os written (str (elim f.file_name [ none ↦ "?" | some n ↦ n ]))
                      _ m h)
                    (λ _ m h. argument-Leaves os written (uint f.line) _ m h))))))

  log_frames-Leaves :
      (e : Exec) (l : List ℕ) (sink : List Item) (m : Machine W)
      → m.log ≡ sound program true sink
      → Leaves (sound program true (write_all (frames_items e l) sink)) (log_frames os e l m)
  unfolding log_frames frames_items
  log_frames-Leaves e [] sink m h = leaves h
  log_frames-Leaves e (addr ∷ rest) sink m h =
      Leaves-bind (log_frame-Leaves e addr sink m h) (λ _ n k.
        subst (λ l. Leaves (sound program true l) (log_frames os e rest n))
          (sym (write_all-append (frame_items e addr) (frames_items e rest) sink))
          (log_frames-Leaves e rest _ n k))

  maybe_backtrace-Leaves :
      (v : View) (bt : ℕ) (sink : List Item) (m : Machine W)
      → (v.flags.backtrace ≡ true → not (count_at bt v.backtraces == 0) ≡ true)
      → m.log ≡ sound program true sink
      → Leaves (sound program true (write_all (trace_items v bt) sink)) (maybe_backtrace os v bt m)
  unfolding maybe_backtrace trace_items log_backtrace log_uint
  maybe_backtrace-Leaves v bt sink m live h =
      let frames = frames_at bt v.backtraces in
      (elim v.flags.backtrace
          as (λ b.
            (b ≡ true → not (count_at bt v.backtraces == 0) ≡ true)
            → Leaves
                (sound program true (
                  write_all (if b then uint (length frames) ∷ frames_items v.exec frames else [])
                    sink))
                (when b (log_backtrace os v bt) m)) [
                  | false ↦ λ _. leaves h
                  | true ↦ λ l.
                      Leaves-bind (assert-Leaves (not (count_at bt v.backtraces == 0)) m (l refl) h)
                        (λ _ n k.
                          Leaves-bind (argument-Leaves os written (uint (length frames)) sink n k)
                            (λ _ u e. log_frames-Leaves v.exec frames _ u e))
                ])
        live

  leak_each-Leaves :
      (v : View) (rs : List Resource) (sink : List Item) (m : Machine W)
      → Produced v rs
      → m.log ≡ sound program false sink
      → Leaves
          (sound program false (write_all (leak_items program v rs) sink))
          (leak_each os v rs m)
  unfolding leak_each leak_items log_error log_ulong log_exec_addr log_uint_hex
  leak_each-Leaves v [] sink m p h = leaves h
  leak_each-Leaves v (r ∷ rs) sink m (made, live, p) h =
      let traced = trace_items v r.producer.backtrace in
      Leaves-bind (start-Leaves os written (λ name. error name "MLK") sink m h) (λ _ m h.
        Leaves-bind (owner-Leaves v r _ m made h) (λ _ m h.
          Leaves-bind (argument-Leaves os written (ulong r.size) _ m h) (λ _ m h.
            Leaves-bind (argument-Leaves os written (hex r.addr) _ m h) (λ _ m h.
              Leaves-bind (maybe_backtrace-Leaves v r.producer.backtrace _ m live h) (λ _ m h.
                Leaves-bind (finish-Leaves os written _ m h) (λ _ m h.
                  subst (λ l. Leaves (sound program false l) (leak_each os v rs m))
                    (sym (write_all-append traced (newline ∷ leak_items program v rs) _))
                    (leak_each-Leaves v rs _ m p h)))))))

  -- From a log at rest, where every write succeeds, and every object in use has a maker and, where
  -- backtraces are wanted, a backtrace that is in use, mut_log_leaks succeeds and adds to the sink
  -- one record MLK for each object of the table that is in use, in the order of the list, with the
  -- name of its maker, its size, its address and, where backtraces are wanted, the frames of its
  -- backtrace; it adds nothing else.
  pub log_leaks-reports :
      (v : View) (rs : Resources) (sink : List Item) (m : Machine W)
      → Produced v (selected false rs.elems)
      → m.log ≡ sound program false sink
      → Leaves
          (sound program false (write_all (leak_items program v (selected false rs.elems)) sink))
          (log_leaks os v rs m)
  unfolding log_leaks iter_open
  log_leaks-reports v rs sink m p h =
      subst
        (λ l.
          Leaves
            (sound program false (write_all (leak_items program v (selected false rs.elems)) sink))
            (leak_each os v l m))
        (sym (drain-selected (length rs.elems + 1) false rs.elems (omega arith)))
        (leak_each-Leaves v (selected false rs.elems) sink m p h)
