-- ===== src/Tests/Allocator.antt =====
-- src/mem/debug/mut_mem.c at concrete inputs: a malloc(3) that grants addresses upwards.
use mut.Base.{
  ℕ, ◌≡◌, ◌≤◌, ◌<◌, ◌+◌, refl, subst, true, none, some, List, [], ◌∷◌, inl, ltb, if◌then◌else◌,
  arith, ok, fail, halt,
}
use mut.Memory.{
  SourcePos, Node, Libc, Mem, IsValid, Fits, Calls, none_left, then_call, Session, heap, call, Call,
  alloc, release, resize, Answer, init, close, put_on, leak_entry, report_on, Calls-Session,
  Calls-close, close-leaks, realloc, free, realloc-copies, realloc_lost-free, freeing_freed,
  find_node, find_node, total,
}

abbrev bump : Libc ℕ
bump = record {
  malloc = λ n w. if ltb w 1000 then (some w, w + n) else (none, w);
  free = λ a w. w;
  print = λ stream e w. (true, w);
  stderr = 2;
}

abbrev here : SourcePos
here = record { line = 7; file_name = some "mut.c" }

-- A node of 20 bytes at 100, as the first call leaves it.
abbrev block : Node
block = record {
  self = 120;
  addr = 100;
  n_bytes = 20;
  malloc_pos = here;
  free_pos = record { line = 0; file_name = none };
}

abbrev held : ℕ → Mem ℕ
held w = record {
  world = w;
  memory = λ a. a;
  output = [];
  in_use = block ∷ [];
  freed = [];
  n_bytes_allocated = 20;
  n_bytes_in_use = 20;
  n_blocks_in_use = 1;
  max_bytes_in_use = 20;
  max_blocks_in_use = 1;
  n_malloc = 1;
  n_realloc = 0;
  n_realloc0 = 0;
  n_free = 0;
  n_free0 = 0;
  log = 2;
  report = some 3;
}

held-IsValid : (w : ℕ) → IsValid (held w)
unfolding find_node total
held-IsValid w = record {
  distinct = (refl, tt);
  not_null = refl;
  bytes = refl;
  blocks = refl;
  bytes_fit = omega arith;
  blocks_fit = omega arith;
  bytes_peak = omega arith;
  blocks_peak = omega arith;
}

grown : Fits 30 148 (held 148).in_use
unfolding find_node total
grown = record {
  fresh = refl;
  not_zero = omega arith;
  bytes_left = omega arith;
  blocks_left = omega arith;
}

abbrev moved : Mem ℕ
moved = (call bump (resize 100 30 here) (held 148)).1

abbrev trace : List (Call × Answer)
trace =
    (resize 100 30 here, (call bump (resize 100 30 here) (held 148)).0)
    ∷ (release 148 here, (call bump (release 148 here) moved).0)
    ∷ []

two-Calls : Calls bump (held 148) trace (call bump (release 148 here) moved).1
two-Calls =
    then_call (λ a h. subst (λ b. Fits 30 b (held 148).in_use) (ground (arith, h)) grown)
      (then_call tt none_left)

Calls-Session_example :
    IsValid (call bump (release 148 here) moved).1
    × Session (heap (held 148)) trace (heap (call bump (release 148 here) moved).1)
Calls-Session_example =
    Calls-Session bump (held 148) (call bump (release 148 here) moved).1 trace (held-IsValid 148)
      two-Calls

first_grown : Fits 20 100 []
unfolding find_node total
first_grown = record {
  fresh = refl;
  not_zero = omega arith;
  bytes_left = omega arith;
  blocks_left = omega arith;
}

one_call :
    Calls bump
      (init bump 100 (λ a. a))
      ((alloc 20 here, (call bump (alloc 20 here) (init bump 100 (λ a. a))).0) ∷ [])
      (call bump (alloc 20 here) (init bump 100 (λ a. a))).1
unfolding init
one_call = then_call (λ a h. subst (λ b. Fits 20 b []) (ground (arith, h)) first_grown) none_left

Calls-close_example :
    (status : ℕ) × (u : Mem ℕ) × (close bump (call bump (alloc 20 here) (init bump 100 (λ a. a))).1
      ≡ ok status u)
    × (status ≤ 2)
    × (u.n_bytes_in_use ≡ 0)
    × (u.n_blocks_in_use ≡ 0)
Calls-close_example =
    Calls-close bump 100 (λ a. a) (call bump (alloc 20 here) (init bump 100 (λ a. a))).1
      ((alloc 20 here, (call bump (alloc 20 here) (init bump 100 (λ a. a))).0) ∷ []) one_call

close-leaks_example :
    (t : Mem ℕ) × (close bump (held 148) ≡ ok 0 t)
    × (t.output ≡ put_on 2 (leak_entry block ∷ []) (report_on (some 3) (held 148)))
close-leaks_example = close-leaks bump (held 148) (held-IsValid 148) (λ stream e w. refl)

realloc-copies_example :
    (t : Mem ℕ) × (realloc bump 100 30 here (held 148) ≡ ok 148 t)
    × ((i : ℕ) → i < 30 → i < 20 → t.memory (148 + i) ≡ 100 + i)
unfolding find_node
realloc-copies_example =
    realloc-copies bump 100 30 here block (held 148) 148 178 178 206 (omega arith) refl refl refl
      (inl (omega arith))

realloc_lost-free_example :
    (t : Mem ℕ) × (u : Mem ℕ) × (realloc bump 100 30 here (held 2000) ≡ fail t)
    × (free bump 100 here t ≡ halt u)
    × (u.output ≡ (2, freeing_freed here here) ∷ [])
unfolding find_node
realloc_lost-free_example =
    realloc_lost-free bump 100 30 here here block (held 2000) 2000 (λ stream e w. refl)
      (held-IsValid 2000) (omega arith) refl refl
