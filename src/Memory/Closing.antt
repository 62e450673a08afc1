-- ===== src/Memory/Closing.antt =====
-- src/mem/debug/mut_mem.c: mut_mem_close on a valid store.
use mut.Base.{
  pure, ℕ, ◌≡◌, ◌≤◌, ◌<◌, ◌^◌, refl, sym, subst, true, none, some, List, [], ◌∷◌, map, length,
  Outcome, ok, and_then, arith, if◌then◌else◌, sub32, Option,
}
use mut.Memory.Defs.{Node, Entry, memory_leak, Libc, Mem, sys_free, emit}
use mut.Memory.Close.{
  report_lines, put_line, put_lines, write_report, leak_all, free_all, after_leaks, after_report,
  close,
}
use mut.Memory.Blocks.{total}
use mut.Memory.Valid.{IsValid, init-IsValid}
use mut.Memory.Operations.{init}
use mut.Memory.Spec.{Call, Answer}
use mut.Memory.Refine.{Calls, Calls-Session}

-- The entries on a stream, put on what was written before.
unfoldable pub put_on : ℕ → List Entry → List (ℕ × Entry) → List (ℕ × Entry)
put_on stream [] out = out
put_on stream (e ∷ es) out = put_on stream es ((stream, e) ∷ out)

unfoldable pub leak_entry : Node → Entry
leak_entry p = memory_leak p.malloc_pos p.addr p.n_bytes

-- What a report on a stream puts on the output.
unfoldable pub report_on : {W : Type 0} → Option ℕ → Mem W → List (ℕ × Entry)
unfolding put_on
report_on none s = s.output
report_on (some stream) s = put_on stream (report_lines s) s.output

abbrev pub Prints : {W : Type 0} → Libc W → Type 0
Prints {W} lib = (stream : ℕ) (e : Entry) (w : W) → (lib.print stream e w).0 ≡ true

module _ {W : Type 0} (lib : Libc W) where
  put_lines_lem :
      (P : Outcome (Mem W) ℕ → Type 0) (stream : ℕ) (es : List Entry) (status : ℕ) (s : Mem W)
      → status ≤ 2
      → ((st : ℕ) (w : W) (out : List (ℕ × Entry))
          → st ≤ 2
          → (Prints lib → (st ≡ status) × (out ≡ put_on stream es s.output))
          → P (ok st (record s { world = w; output = out })))
      → P (put_lines lib 2 stream es status s)
  unfolding put_lines put_line emit put_on
  put_lines_lem P stream [] status s small k = k status s.world s.output small (λ _. (refl, refl))
  put_lines_lem P stream (e ∷ es) status s small k =
      let done = (lib.print stream e s.world).0 in
      put_lines_lem P stream es (if done then status else 2)
        (record s {
          world = (lib.print stream e s.world).1;
          output = if done then (stream, e) ∷ s.output else s.output;
        })
        (ground arith)
        (λ st w out small' same.
          k st w out small' (λ prints. ground (arith, prints stream e s.world, same prints)))

  leak_all_lem :
      (P : Outcome (Mem W) ℕ → Type 0) (ps : List Node) (status : ℕ) (s : Mem W)
      → status ≤ 2
      → s.n_bytes_in_use ≡ total ps
      → s.n_blocks_in_use ≡ length ps
      → total ps < 2 ^ 32
      → length ps < 2 ^ 32
      → ((st : ℕ) (w : W) (out : List (ℕ × Entry))
          → st ≤ 2
          → (Prints lib → (st ≡ status) × (out ≡ put_on s.log (map leak_entry ps) s.output))
          → P (
              ok st
                (record s { world = w; output = out; n_bytes_in_use = 0; n_blocks_in_use = 0 })))
      → P (leak_all lib ps status s)
  unfolding leak_all put_line emit sys_free total put_on leak_entry
  leak_all_lem P [] status s small bytes blocks fit fit' k =
      subst
        (λ n. P (ok status (record s { n_bytes_in_use = n; n_blocks_in_use = s.n_blocks_in_use })))
        (sym bytes)
        (subst (λ n. P (ok status (record s { n_bytes_in_use = 0; n_blocks_in_use = n })))
          (sym blocks) (k status s.world s.output small (λ _. (refl, refl))))
  leak_all_lem P (p ∷ ps) status s small bytes blocks fit fit' k =
      let e = memory_leak p.malloc_pos p.addr p.n_bytes in
      let done = (lib.print s.log e s.world).0 in
      leak_all_lem P ps (if done then status else 1)
        (record s {
          world = lib.free p.self (lib.free p.addr (lib.print s.log e s.world).1);
          output = if done then (s.log, e) ∷ s.output else s.output;
          n_bytes_in_use = sub32 s.n_bytes_in_use p.n_bytes;
          n_blocks_in_use = sub32 s.n_blocks_in_use 1;
        })
        (ground arith) (omega arith) (omega arith) (omega arith) (omega arith)
        (λ st w out small' same.
          k st w out small' (λ prints. ground (arith, prints s.log e s.world, same prints)))

  free_all_lem :
      (P : Outcome (Mem W) (Unit {0}) → Type 0) (ps : List Node) (s : Mem W)
      → ((w : W) → P (ok tt (record s { world = w })))
      → P (free_all lib ps s)
  unfolding free_all sys_free
  free_all_lem P [] s k = k s.world
  free_all_lem P (p ∷ ps) s k =
      free_all_lem P ps (record s { world = lib.free p.self (lib.free p.addr s.world) }) k

  report_on_lem :
      (P : Outcome (Mem W) ℕ → Type 0) (s : Mem W) (r : Option ℕ)
      → ((st : ℕ) (w : W) (out : List (ℕ × Entry))
          → st ≤ 2
          → (Prints lib → (st ≡ 0) × (out ≡ report_on r s))
          → P (ok st (record s { world = w; output = out })))
      → P ((elim r [ none ↦ pure 0 s | some stream ↦ put_lines lib 2 stream (report_lines s) 0 s ]))
  unfolding report_on
  report_on_lem P s none k = k 0 s.world s.output (omega arith) (λ _. (refl, refl))
  report_on_lem P s (some stream) k = put_lines_lem P stream (report_lines s) 0 s (omega arith) k

  close_lem :
      (s : Mem W)
      → IsValid s
      → (status : ℕ) × (t : Mem W) × (close lib s ≡ ok status t)
        × (status ≤ 2)
        × (t.n_bytes_in_use ≡ 0)
        × (t.n_blocks_in_use ≡ 0)
        × (Prints lib
            → (status ≡ 0)
              × (t.output ≡ put_on s.log (map leak_entry s.in_use) (report_on s.report s)))
  unfolding close after_report after_leaks write_report
  close_lem s v =
      let P : Outcome (Mem W) ℕ → Type 0 = λ o.
        (status : ℕ) × (t : Mem W) × (o ≡ ok status t)
        × (status ≤ 2)
        × (t.n_bytes_in_use ≡ 0)
        × (t.n_blocks_in_use ≡ 0)
        × (Prints lib
            → (status ≡ 0)
              × (t.output ≡ put_on s.log (map leak_entry s.in_use) (report_on s.report s))) in
      report_on_lem (λ o. P (and_then o (after_report lib))) s s.report
        (λ st w out small told.
          leak_all_lem (λ o. P (and_then o (after_leaks lib))) s.in_use st
            (record s { world = w; output = out }) small v.bytes v.blocks v.bytes_fit v.blocks_fit
            (λ st' w' out' small' same.
              free_all_lem (λ o. P (and_then o (λ _. pure st'))) s.freed
                (record s { world = w'; output = out'; n_bytes_in_use = 0; n_blocks_in_use = 0 })
                (λ w''. (
                  st',
                  _,
                  refl,
                  small',
                  refl,
                  refl,
                  λ prints. ground (arith, told prints, same prints),
                ))))

  -- A valid store is closed with no assertion failing.
  close-ends :
      (s : Mem W)
      → IsValid s
      → (status : ℕ) × (t : Mem W) × (close lib s ≡ ok status t)
        × (status ≤ 2)
        × (t.n_bytes_in_use ≡ 0)
        × (t.n_blocks_in_use ≡ 0)
  close-ends s v =
      let (status, t, ends, small, bytes, blocks, _) = close_lem s v in
      (status, t, ends, small, bytes, blocks)

  -- Where every write succeeds, mut_mem_close of a valid store returns 0, and its output is the
  -- report, if one is wanted, and then one leak for each block in use, in the order of the list,
  -- with the place of its malloc, its address and its size.
  pub close-leaks :
      (s : Mem W)
      → IsValid s
      → Prints lib
      → (t : Mem W) × (close lib s ≡ ok 0 t)
        × (t.output ≡ put_on s.log (map leak_entry s.in_use) (report_on s.report s))
  close-leaks s v prints =
      let (status, t, ends, _, _, _, told) = close_lem s v in
      let (zero_status, output) = told prints in
      (t, subst (λ n. close lib s ≡ ok n t) zero_status ends, output)

  -- After mut_mem_init and any sequence of calls in each of which a block that malloc(3) grants is
  -- not one in use, is not at 0 and fits into the address space, mut_mem_close fails no assertion,
  -- whether its writes succeed or not: it returns a status of at most 2 and leaves both counts of
  -- what is in use at 0.
  pub Calls-close :
      (w : W) (memory : ℕ → ℕ) (t : Mem W) (trace : List (Call × Answer))
      → Calls lib (init lib w memory) trace t
      → (status : ℕ) × (u : Mem W) × (close lib t ≡ ok status u)
        × (status ≤ 2)
        × (u.n_bytes_in_use ≡ 0)
        × (u.n_blocks_in_use ≡ 0)
  Calls-close w memory t trace calls =
      let (valid, _) =
        Calls-Session lib (init lib w memory) t trace (init-IsValid lib w memory) calls in
      close-ends t valid
