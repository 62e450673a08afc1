-- ===== src/Exec/Aout/Held.antt =====
-- src/exec/aout/mut_exec.c: the file and the memory that mut_exec_open holds.
use mut.Base.{
  ℕ, ◌+◌, String, Bool, true, false, ◌≡◌, refl, ap, ◌∙◌, arith, Option, none, some, List, [], ◌∷◌,
  Outcome, Cmd, ok, fail, halt, spent, of_test, and_then, after_fail, within, Keeps, keeping,
  Keeps-bind, Keeps-if, Keeps-option, skip, pure, failed, halted, modify, assert, ltb, ◌>>◌,
  if◌then◌else◌,
}
use mut.Machine.{Os, Machine}
use mut.Log.{log_long, log_ulong, log_mem_full}
use mut.Exec.Symtab.{add_fun}
use mut.Exec.Elf.Text.{string_at}
use mut.Exec.Aout.Types.{Nlist, Reader, Files}
use mut.Exec.Aout.Open.{
  at_machine, refuse, errno_now, check_magic, check_type, allocate, give_back, seek_to, read_or,
  strtab_lookup, add_symbol, extract_each,
}

-- What holds of the state when a run succeeds, and when it fails.
pub data Ends {S A : Type 0} (G B : S → Type 0) : Outcome S A → Type 0 where
  ends_ok : {a : A} {s : S} → G s → Ends G B (ok a s)
  ends_fail : {s : S} → B s → Ends G B (fail s)
  ends_halt : {s : S} → Ends G B (halt s)
  ends_spent : {s : S} → Ends G B (spent s)

module _ {S : Type 0} {G B H : S → Type 0} where
  pub Ends-bind :
      {A C : Type 0} (o : Outcome S A) (k : A → Cmd S C)
      → Ends G B o
      → ((a : A) (t : S) → G t → Ends H B (k a t))
      → Ends H B (and_then o k)
  Ends-bind (ok a t) k (ends_ok g) next = next a t g
  Ends-bind (fail t) k (ends_fail b) next = ends_fail b
  Ends-bind (halt t) k e next = ends_halt
  Ends-bind (spent t) k e next = ends_spent

  pub Ends-on_fail :
      {A : Type 0} (o : Outcome S A) (cleanup : Cmd S (Unit {0}))
      → Ends G B o
      → ((t : S) → B t → Ends H H (cleanup t))
      → Ends G H (after_fail o cleanup)
  Ends-on_fail (ok a t) cleanup (ends_ok g) next = ends_ok g
  Ends-on_fail {A} (fail t) cleanup (ends_fail b) next = cleaned (cleanup t) (next t b)
    where
      cleaned :
          (o : Outcome S (Unit {0})) → Ends H H o → Ends {A = A} G H (and_then o (λ _ u. fail u))
      cleaned (ok a t) (ends_ok h) = ends_fail h
      cleaned (fail t) (ends_fail h) = ends_fail h
      cleaned (halt t) e = ends_halt
      cleaned (spent t) e = ends_spent
  Ends-on_fail (halt t) cleanup e next = ends_halt
  Ends-on_fail (spent t) cleanup e next = ends_spent

pub Ends-weaken :
    {S A : Type 0} {G B H : S → Type 0} (o : Outcome S A)
    → ((t : S) → B t → H t)
    → Ends G B o
    → Ends G H o
Ends-weaken (ok a t) f (ends_ok g) = ends_ok g
Ends-weaken (fail t) f (ends_fail b) = ends_fail (f t b)
Ends-weaken (halt t) f e = ends_halt
Ends-weaken (spent t) f e = ends_spent

pub Ends-imp :
    {S A : Type 0} {G B H : S → Type 0} (o : Outcome S A)
    → ((t : S) → G t → H t)
    → Ends G B o
    → Ends H B o
Ends-imp (ok a t) f (ends_ok g) = ends_ok (f t g)
Ends-imp (fail t) f (ends_fail b) = ends_fail b
Ends-imp (halt t) f e = ends_halt
Ends-imp (spent t) f e = ends_spent

pub kept :
    {S A : Type 0} {P : S → Type 0} {s : S} (o : Outcome S A) → Keeps P s o → P s → Ends P P o
kept (ok a t) k p = ends_ok (k.holds p)
kept (fail t) k p = ends_fail (k.holds p)
kept (halt t) k p = ends_halt
kept (spent t) k p = ends_spent

abbrev pub is_there : {A : Type 0} → Option A → Bool
is_there none = false
is_there (some _) = true

-- The file is open or not, the strings have been read or not,
-- and so many blocks are held.
pub record Holds {W : Type 0} (src : Bool) (read : Bool) (n : ℕ) (s : Reader W) : Type 0 where
  pub source_is : s.source_open ≡ src
  pub strings_is : is_there s.strings ≡ read
  pub blocks_is : s.blocks ≡ n

module _ {W : Type 0} {src read : Bool} {n : ℕ} where
  pub at_machine-Keeps :
      {A : Type 0} (o : Outcome (Machine W) A) (s : Reader W)
      → Keeps (Holds src read n) s (within (λ s m. record s { machine = m }) s o)
  at_machine-Keeps (ok a m) s = record {
    holds =
        λ p. record { source_is = p.source_is; strings_is = p.strings_is; blocks_is = p.blocks_is };
  }
  at_machine-Keeps (fail m) s = record {
    holds =
        λ p. record { source_is = p.source_is; strings_is = p.strings_is; blocks_is = p.blocks_is };
  }
  at_machine-Keeps (halt m) s = record {
    holds =
        λ p. record { source_is = p.source_is; strings_is = p.strings_is; blocks_is = p.blocks_is };
  }
  at_machine-Keeps (spent m) s = record {
    holds =
        λ p. record { source_is = p.source_is; strings_is = p.strings_is; blocks_is = p.blocks_is };
  }

  -- A step that changes nothing of what is held.
  leave :
      (f : Reader W → Reader W) (s : Reader W)
      → (f s).source_open ≡ s.source_open
      → (f s).strings ≡ s.strings
      → (f s).blocks ≡ s.blocks
      → Keeps (Holds src read n) s (modify f s)
  leave f s a b c = record {
    holds = λ p. record {
      source_is = a ∙ p.source_is;
      strings_is = ap is_there b ∙ p.strings_is;
      blocks_is = c ∙ p.blocks_is;
    };
  }

  leave_as :
      {A : Type 0} (a : A) (s t : Reader W)
      → t.source_open ≡ s.source_open
      → t.strings ≡ s.strings
      → t.blocks ≡ s.blocks
      → Keeps (Holds src read n) s (ok a t)
  leave_as a s t p q r = record {
    holds = λ h. record {
      source_is = p ∙ h.source_is;
      strings_is = ap is_there q ∙ h.strings_is;
      blocks_is = r ∙ h.blocks_is;
    };
  }

  later :
      {A : Type 0} (s t : Reader W) (o : Outcome (Reader W) A)
      → t.source_open ≡ s.source_open
      → t.strings ≡ s.strings
      → t.blocks ≡ s.blocks
      → Keeps (Holds src read n) t o
      → Keeps (Holds src read n) s o
  later s t o p q r k = record {
    holds = λ h. k.holds (record {
      source_is = p ∙ h.source_is;
      strings_is = ap is_there q ∙ h.strings_is;
      blocks_is = r ∙ h.blocks_is;
    });
  }

  module _ (os : Os W) (files : Files W) where
    pub refuse-Keeps :
        {A : Type 0} (what : String) (code : ℕ) (more : Cmd (Machine W) (Unit {0})) (s : Reader W)
        → Keeps {A = A} (Holds src read n) s (refuse os files what code more s)
    unfolding refuse
    refuse-Keeps what code more s = search (keeping, at_machine-Keeps)

    pub check_magic-Keeps : (s : Reader W) → Keeps (Holds src read n) s (check_magic os files s)
    unfolding check_magic
    check_magic-Keeps s = search (keeping, refuse-Keeps)

    pub check_type-Keeps : (s : Reader W) → Keeps (Holds src read n) s (check_type os files s)
    unfolding check_type
    check_type-Keeps s = search (keeping, refuse-Keeps)

    pub seek_to-Keeps :
        (offset : ℕ) (s : Reader W) → Keeps (Holds src read n) s (seek_to os files offset s)
    unfolding seek_to
    seek_to-Keeps offset s =
        let (done, w) = files.seek offset s.machine.world in
        let t : Reader W = record s { machine = record s.machine { world = w } } in
        later s t ((if done then skip else refuse os files "io.seek" 0 (log_long os offset)) t) refl
          refl refl
          (Keeps-if done skip (refuse os files "io.seek" 0 (log_long os offset))
            (λ _. record { holds = λ p. p }) (λ _. refuse-Keeps _ _ _ t))

    pub read_or-Keeps :
        {A : Type 0} (f : W → Option A × W) (coded : Bool) (size : ℕ) (s : Reader W)
        → Keeps (Holds src read n) s (read_or os files f coded size s)
    unfolding read_or errno_now
    read_or-Keeps f coded size s =
        let (item, w) = f s.machine.world in
        let t : Reader W = record s { machine = record s.machine { world = w } } in
        later s t _ refl refl refl (
          Keeps-option item
            (refuse os files "io.read" (if coded then os.errno w else 0) (log_ulong os size)) pure
            (λ _. refuse-Keeps _ _ _ t) (λ a _. record { holds = λ p. p }))

    strtab_lookup-Keeps :
        (str : ℕ) (s : Reader W) → Keeps (Holds src read n) s (strtab_lookup os files str s)
    unfolding strtab_lookup
    strtab_lookup-Keeps str s =
        Keeps-option s.strings halted (λ t. assert (ltb str t.size) >> pure (string_at str t.bytes))
          (λ _. record { holds = λ p. p }) (λ t _. search (keeping))

    add_symbol-Keeps :
        (junk : Option String) (name : String) (a : ℕ) (s : Reader W)
        → Keeps (Holds src read n) s (add_symbol os files junk name a s)
    unfolding add_symbol
    add_symbol-Keeps junk name a s =
        Keeps-bind (at_machine-Keeps (add_fun os junk s.symbols name a s.machine) s)
          (λ symbols t. leave_as tt t (record t { symbols = symbols }) refl refl refl)

    pub extract_each-Keeps :
        (junk : Option String) (ns : List Nlist) (s : Reader W)
        → Keeps (Holds src read n) s (extract_each os files junk ns s)
    unfolding extract_each
    extract_each-Keeps junk [] s = record { holds = λ p. p }
    extract_each-Keeps junk (n ∷ ns) s =
        search (keeping, strtab_lookup-Keeps, add_symbol-Keeps, extract_each-Keeps junk ns) depth 14

module _ {W : Type 0} (os : Os W) (files : Files W) where
  -- An allocation counts where it succeeds, and is given back after a failure behind it.
  pub allocate-Ends :
      {src read : Bool} {n : ℕ} (s : Reader W)
      → Holds src read n s
      → Ends (Holds src read (n + 1)) (Holds src read n) (allocate os files s)
  unfolding allocate errno_now
  allocate-Ends {src} {read} {n} s h =
      let (granted, w) = os.malloc s.machine.world in
      let t : Reader W = record s { machine = record s.machine { world = w } } in
      let H : Holds src read n t = record {
        source_is = h.source_is;
        strings_is = h.strings_is;
        blocks_is = h.blocks_is;
      } in
      let full : Cmd (Reader W) (Unit {0}) = at_machine (log_mem_full os (os.errno w)) >> failed in
      of_test
        (λ (c : Cmd (Reader W) (Unit {0})). Ends (Holds src read (n + 1)) (Holds src read n) (c t))
        granted (modify (λ s. record s { blocks = s.blocks + 1 })) full
        (λ _. ends_ok (record {
          source_is = h.source_is;
          strings_is = h.strings_is;
          blocks_is = ap (λ k. k + 1) h.blocks_is;
        }))
        (λ _.
          Ends-bind (at_machine (log_mem_full os (os.errno w)) t) (λ _. failed)
            (kept (at_machine (log_mem_full os (os.errno w)) t)
              (at_machine-Keeps (log_mem_full os (os.errno w) t.machine) t) H)
            (λ _ u g. ends_fail g))

  pub give_back-Ends :
      {src read : Bool} {n : ℕ} (s : Reader W)
      → Holds src read (n + 1) s
      → Ends (Holds src read n) (Holds src read n) (give_back os files s)
  unfolding give_back
  give_back-Ends s h = ends_ok (record {
    source_is = h.source_is;
    strings_is = h.strings_is;
    blocks_is = omega (arith, h.blocks_is);
  })
