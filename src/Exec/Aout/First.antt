-- ===== src/Exec/Aout/First.antt =====
-- src/exec/aout/mut_exec.c: which of several symbols of one address gives the name.
use mut.Base.{
  ℕ, String, Bool, true, false, ◌≡◌, refl, ap, subst, sym, ◌∙◌, arith, Option, none, some, List, [],
  ◌∷◌, Outcome, Cmd, ok, fail, halt, spent, and_then, within, pure, ◌==◌, if◌then◌else◌, ◌<◌, ltb,
  of_option, Option-cases, Bool-cases, lt→ltb, inl, inr, failed, ◌&&◌, ◌>>◌,
}
use mut.Machine.{Os, Machine}
use mut.Exec.Symtab.{Fun, Symtab, fun_open, place_fun, mem_malloc, log_full, add_fun}
use mut.Exec.Order.{Ordered, place_fun-Ordered}
use mut.Exec.Elf.Returned.{Returns, of_ok, of_fail, Returns-bind, Returns-if}
use mut.Exec.Elf.Text.{string_at}
use mut.Exec.Aout.Types.{Nlist, Strings, Reader, Files}
use mut.Exec.Aout.Names.{
  name_at, or_else, name_at-place_fun, place_fun-there, there, or_else-none, or_else_assoc,
}
use mut.Exec.Aout.Held.{Ends, ends_ok, ends_fail, ends_halt, ends_spent, Ends-bind, Ends-imp}
use mut.Exec.Aout.Open.{strip, strtab_lookup, is_function, add_symbol, extract_each}

reached : {S : Type 0} {G B : S → Type 0} {u : S} → Ends {A = Unit {0}} G B (ok tt u) → G u
reached (ends_ok g) = g

at_end :
    {S : Type 0} {G B : S → Type 0} {o : Outcome S (Unit {0})} {u : S}
    → o ≡ ok tt u
    → Ends G B o
    → G u
at_end {G = G} {B} e h = reached (subst (Ends G B) e h)

-- The table has named what it had, and what is new.
record Named {W : Type 0} (a : ℕ) (strings : Strings) (names : Option String) (s : Reader W)
    : Type 0 where
  ordered : Ordered s.symbols.head
  strings_are : s.strings ≡ some strings
  named : name_at a s.symbols.head ≡ names

module _ {W : Type 0} (os : Os W) (files : Files W) where
  -- The name of the first function among some symbols whose address is `a`.
  unfoldable pub first_at : Strings → ℕ → List Nlist → Option String
  first_at t a [] = none
  first_at t a (n ∷ ns) =
      or_else
        (if is_function os files n && (a == n.n_value)
          then some (files.text (strip (string_at n.n_strx t.bytes)))
          else none)
        (first_at t a ns)

  added :
      (a addr : ℕ) (t : Strings) (names : Option String) (name : String)
      (o : Outcome (Machine W) Symtab) (s : Reader W)
      → s.strings ≡ some t
      → Returns (λ u. Ordered u.head × (name_at a u.head ≡ names)) o
      → Ends
          (Named a t names)
          (λ _. Unit {0})
          (and_then
            (within (λ s m. record s { machine = m }) s o)
            (λ symbols s. ok tt (record s { symbols = symbols })))
  added a addr t names name (ok u m) s e (of_ok q) =
      ends_ok (record { ordered = q.0; strings_are = e; named = q.1 })
  added a addr t names name (fail m) s e q = ends_fail tt
  added a addr t names name (halt m) s e q = ends_halt
  added a addr t names name (spent m) s e q = ends_spent

  add_fun-names :
      (junk : Option String) (a : ℕ) (u : Symtab) (name : String) (addr : ℕ) (m : Machine W)
      → Ordered u.head
      → Returns
          (λ v.
            Ordered v.head
            × (name_at a v.head
                ≡ or_else (name_at a u.head) (if a == addr then some name else none)))
          (add_fun os junk u name addr m)
  unfolding add_fun fun_open
  add_fun-names junk a u name addr m h =
      let Q : Cmd (Machine W) Symtab → Type 0 = λ c.
        Returns
          (λ v.
            Ordered v.head
            × (name_at a v.head
                ≡ or_else (name_at a u.head) (if a == addr then some name else none)))
          (c m) in
      let nf : Fun = fun_open junk name addr in
      of_option Q (place_fun nf u.head) _ _
        (λ e. of_ok (h, there a addr name u.head (place_fun-there nf u.head e)))
        (λ gs e. Returns-bind (mem_malloc os m) _ (λ given t.
          Returns-if given (pure (record u { head = gs })) (log_full os >> failed) {t = t}
            (λ _. of_ok (place_fun-Ordered nf u.head gs h e, name_at-place_fun a nf u.head gs h e))
            (λ _. Returns-bind (log_full os t) (λ _. failed) (λ _ v. of_fail))))

  add_symbol-Named :
      (junk : Option String) (a addr : ℕ) (t : Strings) (names : Option String) (name : String)
      (s : Reader W)
      → Named a t names s
      → Ends
          (Named a t (or_else names (if a == addr then some name else none)))
          (λ _. Unit {0})
          (add_symbol os files junk name addr s)
  unfolding add_symbol
  add_symbol-Named junk a addr t names name s h =
      subst
        (λ o.
          Ends (Named a t (or_else o (if a == addr then some name else none))) (λ _. Unit {0})
            (add_symbol os files junk name addr s))
        h.named
        (added a addr t (or_else (name_at a s.symbols.head) (if a == addr then some name else none))
          name (add_fun os junk s.symbols name addr s.machine) s h.strings_are
          (add_fun-names junk a s.symbols name addr s.machine h.ordered))

  lookup_is :
      (str : ℕ) (t : Strings) (s : Reader W)
      → s.strings ≡ some t
      → strtab_lookup os files str s
        ≡ (if ltb str t.size then ok (string_at str t.bytes) s else halt s)
  unfolding strtab_lookup
  lookup_is str t s e = ground arith

  -- One symbol, and those behind it.
  each :
      (junk : Option String) (a : ℕ) (t : Strings) (v : ℕ) (b : Bool) (name : String)
      (tail names : Option String) (k : Cmd (Reader W) (Unit {0})) (s : Reader W)
      → ((o : Option String) (u : Reader W)
          → Named a t o u
          → Ends (Named a t (or_else o tail)) (λ _. Unit {0}) (k u))
      → Named a t names s
      → Ends
          (Named a t (or_else names (or_else (if b && (a == v) then some name else none) tail)))
          (λ _. Unit {0})
          ((if b then add_symbol os files junk name v >> k else k) s)
  unfolding or_else
  each junk a t v true name tail names k s rest h =
      let x : Option String = if a == v then some name else none in
      subst (λ o. Ends (Named a t o) (λ _. Unit {0}) ((add_symbol os files junk name v >> k) s))
        (or_else_assoc names x tail)
        (Ends-bind _ _ (add_symbol-Named junk a v t names name s h)
          (λ _ u g. rest (or_else names x) u g))
  each junk a t v false name tail names k s rest h = rest names s h

  -- A name that the strings hold is handed on.
  found :
      {G : Reader W → Type 0} (b : Bool) (cs : List ℕ) (k : List ℕ → Cmd (Reader W) (Unit {0}))
      (s : Reader W)
      → Ends G (λ _. Unit {0}) (k cs s)
      → Ends G (λ _. Unit {0}) (and_then (if b then ok cs s else halt s) k)
  found true cs k s h = h
  found false cs k s h = ends_halt

  extract_each-Named :
      (junk : Option String) (a : ℕ) (t : Strings) (ns : List Nlist) (names : Option String)
      (s : Reader W)
      → Named a t names s
      → Ends
          (Named a t (or_else names (first_at t a ns)))
          (λ _. Unit {0})
          (extract_each os files junk ns s)
  unfolding extract_each first_at
  extract_each-Named junk a t [] names s h =
      ends_ok (subst (λ o. Named a t o s) (sym (or_else-none names)) h)
  extract_each-Named junk a t (n ∷ ns) names s h =
      let name : String = files.text (strip (string_at n.n_strx t.bytes)) in
      let all : Option String = or_else names (first_at t a (n ∷ ns)) in
      let rest : (o : Option String) (u : Reader W)
          → Named a t o u
          → Ends (Named a t (or_else o (first_at t a ns))) (λ _. Unit {0})
              (extract_each os files junk ns u) =
        λ o u. extract_each-Named junk a t ns o u in
      let go : Cmd (Reader W) (Unit {0}) =
        if is_function os files n
        then add_symbol os files junk name n.n_value >> extract_each os files junk ns
        else extract_each os files junk ns in
      let on : Ends (Named a t all) (λ _. Unit {0}) (go s) =
        each junk a t n.n_value (is_function os files n) name (first_at t a ns) names
          (extract_each os files junk ns) s rest h in
      subst
        (λ o.
          Ends (Named a t all) (λ _. Unit {0})
            (and_then o (λ cs.
              if is_function os files n
              then add_symbol os files junk (files.text (strip cs)) n.n_value
                >> extract_each os files junk ns
              else extract_each os files junk ns)))
        (sym (lookup_is n.n_strx t s h.strings_are))
        (found (ltb n.n_strx t.size) (string_at n.n_strx t.bytes) _ s on)

  add_fun-grants :
      (junk : Option String) (u : Symtab) (name : String) (addr : ℕ) (m : Machine W)
      → ((w : W) → (os.malloc w).0 ≡ true)
      → (v : Symtab) × (m' : Machine W) × (add_fun os junk u name addr m ≡ ok v m')
  unfolding add_fun mem_malloc
  add_fun-grants junk u name addr m g =
      elim (Option-cases (place_fun (fun_open junk name addr) u.head)) [
        | inl e ↦ (u, m, rw (e, add_fun) refl)
        | inr (gs, e) ↦ (
          record u { head = gs },
          record m { world = (os.malloc m.world).1 },
          rw (e, add_fun) (rw (g m.world) refl),
        )
      ]

  add_symbol-grants :
      (junk : Option String) (name : String) (addr : ℕ) (s : Reader W)
      → ((w : W) → (os.malloc w).0 ≡ true)
      → (u : Reader W) × (add_symbol os files junk name addr s ≡ ok tt u) × (u.strings ≡ s.strings)
  unfolding add_symbol
  add_symbol-grants junk name addr s g =
      let (v, m, e) = add_fun-grants junk s.symbols name addr s.machine g in
      (record s { machine = m; symbols = v }, rw e refl, refl)

  -- Every symbol's name lies in the strings.
  abbrev pub InStrings : ℕ → List Nlist → Type 0
  InStrings size [] = Unit
  InStrings size (n ∷ ns) = (n.n_strx < size) × InStrings size ns

  extract_each-grants :
      (junk : Option String) (t : Strings) (ns : List Nlist) (s : Reader W)
      → ((w : W) → (os.malloc w).0 ≡ true)
      → InStrings t.size ns
      → s.strings ≡ some t
      → (u : Reader W) × (extract_each os files junk ns s ≡ ok tt u)
  unfolding extract_each
  extract_each-grants junk t [] s g h e = (s, refl)
  extract_each-grants junk t (n ∷ ns) s g h e =
      let name : String = files.text (strip (string_at n.n_strx t.bytes)) in
      let (u, p, q) = add_symbol-grants junk name n.n_value s g in
      let there : strtab_lookup os files n.n_strx s ≡ ok (string_at n.n_strx t.bytes) s =
        lookup_is n.n_strx t s e
        ∙ ap (λ b. if b then ok (string_at n.n_strx t.bytes) s else halt s)
            (lt→ltb n.n_strx t.size h.0) in
      elim (Bool-cases (is_function os files n)) [
        | inl b ↦
            let (v, r) = extract_each-grants junk t ns u g h.1 (q ∙ e) in (v, rw (there, b, p) r)
        | inr b ↦ let (v, r) = extract_each-grants junk t ns s g h.1 e in (v, rw (there, b) r)
      ]

  extract_each-names :
      (junk : Option String) (t : Strings) (ns : List Nlist) (s : Reader W)
      → s.strings ≡ some t
      → s.symbols.head ≡ []
      → (a : ℕ)
      → Ends
          (λ u. name_at a u.symbols.head ≡ first_at t a ns)
          (λ _. Unit {0})
          (extract_each os files junk ns s)
  unfolding name_at or_else
  extract_each-names junk t ns s e z a =
      let h : Named a t none s = record {
        ordered = subst Ordered (sym z) tt;
        strings_are = e;
        named = ap (name_at a) z;
      } in
      Ends-imp _ (λ u g. g.named) (extract_each-Named junk a t ns none s h)

  -- With the strings read, the table empty, memory granted whenever it is asked for, and the name
  -- of every symbol in the strings, mut_exec_extract_functions of the a.out reader succeeds, and
  -- the table then has, for each address, the name of the first function among the symbols whose
  -- value it is, an underscore in front taken off, and no function where there is none.
  pub extract_each-first :
      (junk : Option String) (t : Strings) (ns : List Nlist) (s : Reader W)
      → s.strings ≡ some t
      → s.symbols.head ≡ []
      → ((w : W) → (os.malloc w).0 ≡ true)
      → InStrings t.size ns
      → (u : Reader W) × (extract_each os files junk ns s ≡ ok tt u)
        × ((a : ℕ) → name_at a u.symbols.head ≡ first_at t a ns)
  extract_each-first junk t ns s e z g i =
      let (u, ends) = extract_each-grants junk t ns s g i e in
      (u, ends, λ a. at_end ends (extract_each-names junk t ns s e z a))
