-- ===== src/Exec/Elf/Returned.antt =====
-- src/exec/mut_exec_symtab.c as src/exec/elf/mut_exec.c uses it: the tables that its additions return.
use mut.Base.{
  ◌%◌, ◌^◌, ℕ, String, ◌≡◌, refl, Bool, true, false, Option, some, List, [], ◌∷◌, arith, Outcome,
  Cmd, ok, fail, halt, spent, and_then, pure, failed, ◌>>◌, if◌then◌else◌, of_option,
}
use mut.Machine.{Os, Machine}
use mut.Log.{log_warning, finish}
use mut.Exec.Symtab.{
  Fun, Line, Symtab, fun_open, place_fun, find_fun, place_range, set_file, end_of, mem_malloc,
  log_full, add_fun, add_range,
}
use mut.Exec.Order.{Above, Ordered, place_fun-Ordered}

-- What is said of the result, where there is one.
pub data Returns {S A : Type 0} (Q : A → Type 0) : Outcome S A → Type 0 where
  of_ok : {a : A} {s : S} → Q a → Returns Q (ok a s)
  of_fail : {s : S} → Returns Q (fail s)
  of_halt : {s : S} → Returns Q (halt s)
  of_spent : {s : S} → Returns Q (spent s)

module _ {S A B : Type 0} {Q : B → Type 0} where
  pub Returns-bind :
      (o : Outcome S A) (k : A → Cmd S B)
      → ((a : A) (t : S) → Returns Q (k a t))
      → Returns Q (and_then o k)
  Returns-bind (ok a t) k h = h a t
  Returns-bind (fail t) k h = of_fail
  Returns-bind (halt t) k h = of_halt
  Returns-bind (spent t) k h = of_spent

module _ {S B : Type 0} {Q : B → Type 0} where
  pub Returns-if :
      (b : Bool) (m n : Cmd S B) {t : S}
      → (b ≡ true → Returns Q (m t))
      → (b ≡ false → Returns Q (n t))
      → Returns Q ((if b then m else n) t)
  Returns-if true m n p q = p refl
  Returns-if false m n p q = q refl

Above-place_range :
    (lo a : ℕ) (nl : Line) (fn : Option String) (fs : List Fun)
    → Above lo fs
    → Above lo (place_range a nl fn fs)
unfolding place_range
Above-place_range lo a nl fn [] h = tt
Above-place_range lo a nl fn (f ∷ fs) h =
    ground (arith, Above-place_range f.fun_start_addr a nl fn fs)

place_range-Ordered :
    (a : ℕ) (nl : Line) (fn : Option String) (fs : List Fun)
    → Ordered fs
    → Ordered (place_range a nl fn fs)
unfolding place_range
place_range-Ordered a nl fn [] h = tt
place_range-Ordered a nl fn (f ∷ fs) h =
    ground (arith, Above-place_range f.fun_start_addr a nl fn fs)

Above-set_file :
    (lo a : ℕ) (fn : Option String) (fs : List Fun) → Above lo fs → Above lo (set_file a fn fs)
unfolding set_file
Above-set_file lo a fn [] h = tt
Above-set_file lo a fn (f ∷ fs) h = ground (arith, Above-set_file f.fun_start_addr a fn fs)

set_file-Ordered :
    (a : ℕ) (fn : Option String) (fs : List Fun) → Ordered fs → Ordered (set_file a fn fs)
unfolding set_file
set_file-Ordered a fn [] h = tt
set_file-Ordered a fn (f ∷ fs) h = ground (arith, Above-set_file f.fun_start_addr a fn fs)

module _ {W : Type 0} (os : Os W) where
  pub add_fun-Returns :
      (junk : Option String) (s : Symtab) (name : String) (a : ℕ) (m : Machine W)
      → Ordered s.head
      → Returns (λ t. Ordered t.head) (add_fun os junk s name a m)
  unfolding add_fun
  add_fun-Returns junk s name a m h =
      let Q : Cmd (Machine W) Symtab → Type 0 = λ c. Returns (λ t. Ordered t.head) (c m) in
      of_option Q (place_fun (fun_open junk name a) s.head) _ _ (λ _. of_ok h)
        (λ funs placed. Returns-bind (mem_malloc os m) _ (λ given t.
          Returns-if given (pure (record s { head = funs })) (log_full os >> failed)
            (λ _. of_ok (place_fun-Ordered (fun_open junk name a) s.head funs h placed))
            (λ _. Returns-bind (log_full os t) (λ _. failed) (λ _ u. of_fail))))

  pub add_range-Returns :
      (s : Symtab) (a l : ℕ) (fn : Option String) (m : Machine W)
      → Ordered s.head
      → Returns (λ r. Ordered r.0.head) (add_range os s a l fn m)
  unfolding add_range
  add_range-Returns s a l fn m h =
      let Q : Cmd (Machine W) (Symtab × Bool) → Type 0 =
        λ c. Returns (λ r. Ordered r.0.head) (c m) in
      of_option Q (find_fun a s.head) _ _
        (λ _.
          Returns-bind (log_warning os "elf.xxx" m) (λ _. finish os >> pure (s, true))
            (λ _ t. Returns-bind (finish os t) (λ _. pure (s, true)) (λ _ u. of_ok h)))
        (λ f _.
          let nl : Line = record { line_addr = a; line_number = l % 2 ^ 16 } in
          let located : Symtab = record s {
            cache = some f.fun_start_addr;
            end_addr = end_of s.end_addr a s.head;
          } in
          let full = log_full os >> pure (record located { head = set_file a fn s.head }, false) in
          Returns-bind (mem_malloc os m) _ (λ given t.
            Returns-if given (pure (record located { head = place_range a nl fn s.head }, true))
              full (λ _. of_ok (place_range-Ordered a nl fn s.head h))
              (λ _.
                Returns-bind (log_full os t) (λ _. pure _)
                  (λ _ u. of_ok (set_file-Ordered a fn s.head h)))))
