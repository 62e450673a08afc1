-- ===== src/Memory/Refine.antt =====
-- src/mem/debug/mut_mem.c: the operations against the map from addresses to sizes.
use mut.Base.{
  of_option, of_test, modify, pure, ◌>>◌, Cmd, ap, add32, sub32, ℕ, ◌≡◌, ◌≢◌, sym, subst, ◌∙◌, some,
  List, [], ◌∷◌, Outcome, and_then, ◌==◌, arith,
}
use mut.Memory.Defs.{SourcePos, Node, Libc, Mem, find_node, retire}
use mut.Memory.Operations.{malloc, free, realloc, free_block, realloc_block, move_block, copy_over}
use mut.Memory.Blocks.{find_node-addr}
use mut.Memory.Valid.{IsValid, enter-IsValid, retire-IsValid}
use mut.Memory.Steps.{new_node, later, malloc_lem, misuse_lem}
use mut.Memory.Forget.{heap-enter, heap-retire, heap-none, heap-some, Fits-unlink, Grants}
use mut.Memory.Spec.{
  Heap, put, heap, Call, alloc, release, resize, Answer, address, null, done, answer, call, Allows,
  granted, refused, freed_null, freed, freed_stray, resized_null, resized, resized_lost,
  resized_stray, Session, over, further,
}

abbrev Refines : {W : Type 0} → Heap → Call → Answer × Mem W → Type 0
Refines h c (r, t) = IsValid t × Allows h c r (heap t)

abbrev Ends : {W A : Type 0} → Heap → Call → (A → Answer) → Outcome (Mem W) A → Type 0
Ends h c f o = Refines h c (answer f o)

module _ {W : Type 0} (lib : Libc W) where
  malloc-Refines :
      (n : ℕ) (pos : SourcePos) (s : Mem W)
      → IsValid s
      → Grants lib (alloc n pos) s
      → Refines (heap s) (alloc n pos) (answer address (malloc lib n pos s))
  unfolding later heap new_node
  malloc-Refines n pos s v fits =
      malloc_lem lib (λ o. Refines (heap s) (alloc n pos) (answer address o)) n pos s
        (λ a self w h.
          let node = new_node self a n pos in
          (
            enter-IsValid node (later w s) v (fits a h),
            subst (Allows (heap s) (alloc n pos) (address a)) (sym (heap-enter node (later w s)))
                (granted (heap-none a s (fits a h).fresh) (fits a h).not_zero),
          ))
        (λ w. (v, refused))

  free_block-Refines :
      (a : ℕ) (pos : SourcePos) (s : Mem W)
      → IsValid s
      → a ≢ 0
      → Refines (heap s) (release a pos) (answer (λ _. done) (free_block lib a pos s))
  unfolding free_block heap
  free_block-Refines a pos s v ne =
      let P : Outcome (Mem W) (Unit {0}) → Type 0 = Ends (heap s) (release a pos) (λ _. done) in
      of_option P (find_node a s.in_use) _ _
        (λ h. misuse_lem lib P a _ _ s (λ w output. (v, freed_stray ne (heap-none a s h))))
        (λ n h. (
          retire-IsValid pos a n s v h,
          subst (Allows (heap s) (release a pos) done) (sym (heap-retire pos a n s v h))
              (freed (heap-some a n s h)),
        ))

  free-Refines :
      (a : ℕ) (pos : SourcePos) (s : Mem W)
      → IsValid s
      → Refines (heap s) (release a pos) (answer (λ _. done) (free lib a pos s))
  unfolding free heap
  free-Refines a pos s v =
      let counted = record s { n_free = add32 s.n_free 1 } in
      let P : Cmd (Mem W) (Unit {0}) → Type 0 =
        λ m. Ends (heap s) (release a pos) (λ _. done) (m counted) in
      of_test P (a == 0) _ _
        (λ h. (
          v,
          subst (λ z. Allows (heap s) (release z pos) done (heap s)) (ground (arith, h)) freed_null,
        ))
        (λ h. free_block-Refines a pos counted v (ground (arith, h)))

  move_block-Refines :
      (a n : ℕ) (pos : SourcePos) (node : Node) (s : Mem W)
      → IsValid s
      → Grants lib (resize a n pos) s
      → find_node a s.in_use ≡ some node
      → Refines (heap s) (resize a n pos) (answer address (move_block lib node n pos s))
  unfolding move_block copy_over later heap new_node retire
  move_block-Refines a n pos node s v fits found =
      let old = retire pos node s in
      let v' = retire-IsValid pos a node s v found in
      let at = find_node-addr a s.in_use node found in
      let was = heap-retire pos a node s v found in
      let found' = subst (λ x. find_node x s.in_use ≡ some node) (sym at) found in
      let ends : Outcome (Mem W) ℕ → Type 0 = Ends (heap s) (resize a n pos) address in
      malloc_lem lib (λ o. ends (and_then o (λ b. modify (copy_over lib node n b) >> pure b))) n pos
        old
        (λ b self w h.
          let new = new_node self b n pos in
          let room = Fits-unlink node s.in_use b n found' (fits b h) in
          (
            enter-IsValid new (later w old) v' room,
            subst (Allows (heap s) (resize a n pos) (address b))
                (sym (heap-enter new (later w old) ∙ ap (put b n) was))
                (resized (heap-some a node s found) (heap-none b s (fits b h).fresh) room.not_zero),
          ))
        (λ w. (
          v',
          subst (Allows (heap s) (resize a n pos) null) (sym was)
              (resized_lost (heap-some a node s found)),
        ))

  realloc_block-Refines :
      (a n : ℕ) (pos : SourcePos) (s : Mem W)
      → IsValid s
      → Grants lib (resize a n pos) s
      → a ≢ 0
      → Refines (heap s) (resize a n pos) (answer address (realloc_block lib a n pos s))
  unfolding realloc_block heap
  realloc_block-Refines a n pos s v fits ne =
      let P : Outcome (Mem W) ℕ → Type 0 = Ends (heap s) (resize a n pos) address in
      of_option P (find_node a s.in_use) _ _
        (λ h. misuse_lem lib P a _ _ s (λ w output. (v, resized_stray ne (heap-none a s h))))
        (λ node h. move_block-Refines a n pos node s v fits h)

  realloc-Refines :
      (a n : ℕ) (pos : SourcePos) (s : Mem W)
      → IsValid s
      → Grants lib (resize a n pos) s
      → Refines (heap s) (resize a n pos) (answer address (realloc lib a n pos s))
  unfolding realloc heap
  realloc-Refines a n pos s v fits =
      let counted = record s { n_realloc = add32 s.n_realloc 1 } in
      let counted0 = record counted {
        n_realloc0 = add32 s.n_realloc0 1;
        n_malloc = sub32 s.n_malloc 1;
      } in
      let P : Cmd (Mem W) ℕ → Type 0 = λ m. Ends (heap s) (resize a n pos) address (m counted) in
      of_test P (a == 0) _ _
        (λ h.
          let end = answer address (malloc lib n pos counted0) in
          let (valid, step) = malloc-Refines n pos counted0 v fits in
          (
            valid,
            subst (λ z. Allows (heap s) (resize z n pos) end.0 (heap end.1)) (ground (arith, h))
                (resized_null step),
          ))
        (λ h. realloc_block-Refines a n pos counted v fits (ground (arith, h)))

  call-Refines :
      (c : Call) (s : Mem W)
      → IsValid s
      → Grants lib c s
      → IsValid (call lib c s).1 × Allows (heap s) c (call lib c s).0 (heap (call lib c s).1)
  unfolding call
  call-Refines (alloc n pos) s v fits = malloc-Refines n pos s v fits
  call-Refines (release a pos) s v fits = free-Refines a pos s v
  call-Refines (resize a n pos) s v fits = realloc-Refines a n pos s v fits

  -- Calls one after the other, each where what malloc(3) grants fits.
  pub data Calls : Mem W → List (Call × Answer) → Mem W → Type 0 where
    none_left : {s : Mem W} → Calls s [] s
    then_call :
        {s t : Mem W} {c : Call} {rest : List (Call × Answer)}
        → Grants lib c s
        → Calls (call lib c s).1 rest t
        → Calls s ((c, (call lib c s).0) ∷ rest) t

  -- From a valid store of the debugging allocator, any sequence of calls of malloc, free and
  -- realloc, in each of which a block that malloc(3) grants is not one in use, is not at 0 and
  -- fits into the address space, does to the map from the addresses in use to their sizes what a
  -- session allows, answer by answer, and ends in a valid store: its byte and block counts are
  -- those of its list, no block is listed twice, and the peaks are not below the counts.
  pub Calls-Session :
      (s t : Mem W) (trace : List (Call × Answer))
      → IsValid s
      → Calls s trace t
      → IsValid t × Session (heap s) trace (heap t)
  Calls-Session s t trace v none_left = (v, over)
  Calls-Session s t trace v (then_call {c = c} {rest = rest} fits more) =
      let (v', step) = call-Refines c s v fits in
      let (vt, steps) = Calls-Session (call lib c s).1 t rest v' more in (vt, further step steps)
