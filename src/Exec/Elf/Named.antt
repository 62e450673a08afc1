-- ===== src/Exec/Elf/Named.antt =====
-- src/exec/elf/mut_exec.c: the functions of the table while the stabs are read.
use mut.Base.{
  ℕ, String, ◌≡◌, refl, ◌∙◌, Bool, true, false, Option, some, List, [], ◌∷◌, map, arith, Outcome,
  Cmd, ok, fail, halt, spent, and_then, within, final, pure, failed, skip, ◌>>◌, if◌then◌else◌,
  of_option, of_test, ◌%◌, ◌^◌, ◌==◌, add32,
}
use mut.Machine.{Os, Machine}
use mut.Log.{log_warning, finish}
use mut.Exec.Symtab.{
  Fun, Line, Symtab, find_fun, place_range, set_file, end_of, mem_malloc, log_full, add_range,
}
use mut.Exec.Elf.Types.{
  Stab, Strings, Reader, Files, stab_type, stab_line, stab_type_line, stab_type_fun, stab_type_so,
}
use mut.Exec.Elf.Stabs.{add_line, debug_loop, next_file}
use mut.Exec.Elf.Returned.{Returns, of_ok, Returns-bind, Returns-if}

-- The names and the starts of the functions.
unfoldable pub functions : List Fun → List (String × ℕ)
functions fs = map (λ f. (f.fun_name, f.fun_start_addr)) fs

functions-place_range :
    (a : ℕ) (nl : Line) (fn : Option String) (fs : List Fun)
    → functions (place_range a nl fn fs) ≡ functions fs
unfolding functions place_range
functions-place_range a nl fn [] = refl
functions-place_range a nl fn (f ∷ fs) = ground (arith, functions-place_range a nl fn fs)

functions-set_file :
    (a : ℕ) (fn : Option String) (fs : List Fun) → functions (set_file a fn fs) ≡ functions fs
unfolding functions set_file
functions-set_file a fn [] = refl
functions-set_file a fn (f ∷ fs) = ground (arith, functions-set_file a fn fs)

module _ {W : Type 0} (os : Os W) where
  add_range-functions :
      (s : Symtab) (a l : ℕ) (fn : Option String) (m : Machine W)
      → Returns (λ r. functions r.0.head ≡ functions s.head) (add_range os s a l fn m)
  unfolding add_range
  add_range-functions s a l fn m =
      let Q : Cmd (Machine W) (Symtab × Bool) → Type 0 =
        λ c. Returns (λ r. functions r.0.head ≡ functions s.head) (c m) in
      of_option Q (find_fun a s.head) _ _
        (λ _.
          Returns-bind (log_warning os "elf.xxx" m) (λ _. finish os >> pure (s, true))
            (λ _ t. Returns-bind (finish os t) (λ _. pure (s, true)) (λ _ u. of_ok refl)))
        (λ f _.
          let nl : Line = record { line_addr = a; line_number = l % 2 ^ 16 } in
          let located : Symtab = record s {
            cache = some f.fun_start_addr;
            end_addr = end_of s.end_addr a s.head;
          } in
          let full = log_full os >> pure (record located { head = set_file a fn s.head }, false) in
          Returns-bind (mem_malloc os m) _ (λ given t.
            Returns-if given (pure (record located { head = place_range a nl fn s.head }, true))
              full (λ _. of_ok (functions-place_range a nl fn s.head))
              (λ _.
                Returns-bind (log_full os t) (λ _. pure _)
                  (λ _ u. of_ok (functions-set_file a fn s.head)))))

-- The table at the end has the functions of the table before.
record Steady {W A : Type 0} (s : Reader W) (o : Outcome (Reader W) A) : Type 0 where
  pub same : functions (final o).symbols.head ≡ functions s.symbols.head

Steady-bind :
    {W A B : Type 0} {s : Reader W} (o : Outcome (Reader W) A) (k : A → Cmd (Reader W) B)
    → Steady s o
    → ((a : A) (t : Reader W) → Steady t (k a t))
    → Steady s (and_then o k)
Steady-bind (ok a t) k h next = record { same = (next a t).same ∙ h.same }
Steady-bind (fail t) k h next = record { same = h.same }
Steady-bind (halt t) k h next = record { same = h.same }
Steady-bind (spent t) k h next = record { same = h.same }

lined-Steady :
    {W : Type 0} (o : Outcome (Machine W) (Symtab × Bool)) (s : Reader W)
    → Returns (λ r. functions r.0.head ≡ functions s.symbols.head) o
    → Steady s (
        and_then
          (within (λ s m. record s { machine = m }) s o)
          (λ (symbols, done) s. (if done then skip else failed) (record s { symbols = symbols })))
lined-Steady (ok (t, true) m) s (of_ok q) = record { same = q }
lined-Steady (ok (t, false) m) s (of_ok q) = record { same = q }
lined-Steady (fail m) s h = record { same = refl }
lined-Steady (halt m) s h = record { same = refl }
lined-Steady (spent m) s h = record { same = refl }

module _ {W : Type 0} (os : Os W) (files : Files W) where
  add_line-Steady :
      (a l : ℕ) (fn : Option String) (s : Reader W) → Steady s (add_line os files a l fn s)
  unfolding add_line
  add_line-Steady a l fn s =
      lined-Steady (add_range os s.symbols a l fn s.machine) s
        (add_range-functions os s.symbols a l fn s.machine)

  debug_loop-Steady :
      (strings : Strings) (ss : List Stab) (base_addr : ℕ) (fn : Option String) (s : Reader W)
      → Steady s (debug_loop os files strings ss base_addr fn s)
  unfolding debug_loop
  debug_loop-Steady strings [] base_addr fn s = record { same = refl }
  debug_loop-Steady strings (x ∷ ss) base_addr fn s =
      let Q : Cmd (Reader W) (Unit {0}) → Type 0 = λ c. Steady s (c s) in
      let on = debug_loop-Steady strings ss in
      of_test Q (stab_type x == stab_type_line) _ _
        (λ _.
          of_test Q (base_addr == 0) _ _ (λ _. on base_addr fn s)
            (λ _.
              Steady-bind (add_line os files (add32 base_addr x.value) (stab_line x) fn s)
                (λ _. debug_loop os files strings ss base_addr fn)
                (add_line-Steady (add32 base_addr x.value) (stab_line x) fn s)
                (λ _ t. on base_addr fn t)))
        (λ _.
          of_test Q (stab_type x == stab_type_fun) _ _ (λ _. on x.value fn s)
            (λ _.
              of_test Q (stab_type x == stab_type_so) _ _
                (λ _. on base_addr (next_file files x strings fn) s) (λ _. on base_addr fn s)))

  -- However the reading of the stabs ends, the table of symbols has the functions that it had
  -- before, with their names and starts, in the same order.
  pub debug_loop-functions :
      (strings : Strings) (ss : List Stab) (base_addr : ℕ) (fn : Option String) (s : Reader W)
      → functions (final (debug_loop os files strings ss base_addr fn s)).symbols.head
        ≡ functions s.symbols.head
  debug_loop-functions strings ss base_addr fn s =
      (debug_loop-Steady strings ss base_addr fn s).same
