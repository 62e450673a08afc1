-- ===== src/Exec/Aout/Releases.antt =====
-- src/exec/aout/mut_exec.c: what mut_exec_open gives back on each of its ways out.
use mut.Base.{
  ℕ, ◌+◌, String, Bool, true, false, not, refl, arith, Option, Cmd, of_test, Keeps-when, halted,
  ltb, ◌/◌, ◌%◌, ◌==◌, sub32, mul32, skip, modify, ◌>>◌, if◌then◌else◌,
}
use mut.Machine.{Os}
use mut.Exec.Symtab.{open_symtab}
use mut.Exec.Aout.Types.{Reader, Files}
use mut.Exec.Aout.Open.{
  refuse, errno_now, strtab_open, reader_symtab_open, extract_functions, close_source, open_symbols,
  open_header, exec_open, give_back,
}
use mut.Exec.Aout.Held.{
  Ends, ends_ok, ends_fail, Ends-bind, Ends-weaken, Ends-on_fail, kept, Holds, refuse-Keeps,
  check_magic-Keeps, check_type-Keeps, seek_to-Keeps, read_or-Keeps, extract_each-Keeps,
  allocate-Ends, give_back-Ends, at_machine-Keeps,
}

module _ {W : Type 0} (os : Os W) (files : Files W) where
  strtab_open-Ends :
      {n : ℕ} (s : Reader W)
      → Holds true false n s
      → Ends (Holds true true (n + 1)) (Holds true false n) (strtab_open os files s)
  unfolding strtab_open
  strtab_open-Ends {n} s h =
      Ends-bind _ _ (kept _ (seek_to-Keeps os files s.header.str_off s) h) (λ _ t g.
        Ends-bind _ _ (kept _ (read_or-Keeps os files files.read_size false 4 t) g) (λ size u g.
          Ends-bind _ _ (allocate-Ends os files u g) (λ _ v g.
            Ends-on_fail _ (give_back os files)
              (Ends-bind _ _
                (kept _ (Keeps-when (ltb size 4) halted (λ _. record { holds = λ p. p })) g)
                (λ _ w g.
                  Ends-bind _ _
                    (kept _
                      (read_or-Keeps os files (files.read_bytes (sub32 size 4)) true (sub32 size 4)
                        w)
                      g)
                    (λ bytes x g. ends_ok (record {
                      source_is = g.source_is;
                      strings_is = refl;
                      blocks_is = g.blocks_is;
                    }))))
              (λ w b. give_back-Ends os files w b))))

  reader_symtab_open-Ends :
      {read : Bool} {n : ℕ} (s : Reader W)
      → Holds true read n s
      → Ends (Holds true read (n + 1)) (Holds true read n) (reader_symtab_open os files s)
  unfolding reader_symtab_open
  reader_symtab_open-Ends {read} {n} s h =
      let k : ℕ = s.header.a_syms / files.sizeof_nlist in
      Ends-bind _ _
        (kept _
          (Keeps-when (not (s.header.a_syms % files.sizeof_nlist == 0)) _
            (λ _. refuse-Keeps os files _ _ _ s))
          h)
        (λ _ t g. Ends-bind _ _ (allocate-Ends os files t g) (λ _ u g.
          Ends-on_fail _ (give_back os files)
            (Ends-bind _ _ (kept _ (seek_to-Keeps os files s.header.sym_off u) g) (λ _ v g.
              Ends-bind _ _
                (kept _
                  (read_or-Keeps os files (files.read_nlists k) true (mul32 files.sizeof_nlist k) v)
                  g)
                (λ elems w g. ends_ok (record {
                  source_is = g.source_is;
                  strings_is = g.strings_is;
                  blocks_is = g.blocks_is;
                }))))
            (λ v b. give_back-Ends os files v b)))

  open_symbols-Ends :
      {n : ℕ} (junk : Option String) (s : Reader W)
      → Holds true true n s
      → Ends (Holds true true n) (Holds true true n) (open_symbols os files junk s)
  unfolding open_symbols extract_functions
  open_symbols-Ends {n} junk s h = Ends-bind _ _ (reader_symtab_open-Ends s h) (λ _ t g.
      Ends-bind _ _
        (Ends-on_fail _ (give_back os files)
          (kept _ (extract_each-Keeps os files junk t.elems (record t { symbols = open_symtab }))
            (record {
              source_is = g.source_is;
              strings_is = g.strings_is;
              blocks_is = g.blocks_is;
            }))
          (λ u b. give_back-Ends os files u b))
        (λ _ u g. give_back-Ends os files u g))

  -- After a failure the strings are held if they have been read, and nothing else.
  abbrev pub Left : Bool → ℕ → Reader W → Type 0
  Left src n t = (read : Bool) × Holds src read (n + (if read then 1 else 0)) t

  nothing_read : {n : ℕ} {src : Bool} (t : Reader W) → Holds src false n t → Left src n t
  nothing_read t h = (
    false,
    record {
      source_is = h.source_is;
      strings_is = h.strings_is;
      blocks_is = omega (arith, h.blocks_is);
    },
  )

  open_header-Ends :
      {n : ℕ} (junk : Option String) (s : Reader W)
      → Holds true false n s
      → Ends (Holds true true (n + 1)) (Left true n) (open_header os files junk s)
  unfolding open_header
  open_header-Ends {n} junk s h =
      Ends-bind _ _
        (Ends-weaken _ nothing_read (
          kept _
            (read_or-Keeps os files (files.read_header files.sizeof_exec) true files.sizeof_exec s)
            h))
        (λ header t g.
          let u : Reader W = record t { header = header } in
          let gu : Holds true false n u = record {
            source_is = g.source_is;
            strings_is = g.strings_is;
            blocks_is = g.blocks_is;
          } in
          Ends-bind _ _ (Ends-weaken _ nothing_read (kept _ (check_magic-Keeps os files u) gu))
            (λ _ v g.
              Ends-bind _ _ (Ends-weaken _ nothing_read (kept _ (check_type-Keeps os files v) g))
                (λ _ w g.
                  Ends-bind _ _ (Ends-weaken _ nothing_read (strtab_open-Ends w g))
                    (λ _ x g. Ends-weaken _ (λ y k. (true, k)) (open_symbols-Ends junk x g)))))

  -- The closing of the file.
  close_source-Ends :
      {src read : Bool} {n : ℕ} (k : ℕ) (s : Reader W)
      → Holds src read n s
      → Ends (Holds false read n) (Left false k) (close_source os files s)
  unfolding close_source
  close_source-Ends k s h =
      ends_ok (record { source_is = refl; strings_is = h.strings_is; blocks_is = h.blocks_is })

  closed_after :
      (n : ℕ) (t : Reader W)
      → Left true n t
      → Ends (Left false n) (Left false n) ((close_source os files >> skip) t)
  unfolding close_source
  closed_after n t (read, h) =
      ends_ok
        (read, record { source_is = refl; strings_is = h.strings_is; blocks_is = h.blocks_is })

  -- What refuses does not succeed.
  refused :
      {n : ℕ} (s t : Reader W)
      → Holds false false n t
      → Ends {A = Unit {0}}
          (Holds true false n)
          (Left false n)
          (refuse os files "io.open" (os.errno s.machine.world) skip t)
  unfolding refuse
  refused s t h =
      Ends-bind _ _ (Ends-weaken _ nothing_read (kept _ (at_machine-Keeps _ t) h))
        (λ _ u g. ends_fail (nothing_read u g))

  -- With the file not open and the strings not read, mut_exec_open of the a.out reader closes the
  -- file before it returns, on every way out; when it succeeds it holds the block of the strings
  -- besides what was held before, and when it fails it holds that block exactly if the strings
  -- have been read, and no other: the nodes of the table of symbols are not counted.
  pub exec_open-releases :
      (junk : Option String) (n : ℕ) (s : Reader W)
      → Holds false false n s
      → Ends (Holds false true (n + 1)) (Left false n) (exec_open os files junk s)
  unfolding exec_open errno_now
  exec_open-releases junk n s h =
      let (opened, w) = files.open_read s.file_name s.machine.world in
      let t : Reader W = record s { machine = record s.machine { world = w } } in
      let here : Holds false false n t = record {
        source_is = h.source_is;
        strings_is = h.strings_is;
        blocks_is = h.blocks_is;
      } in
      let wrong : Cmd (Reader W) (Unit {0}) = refuse os files "io.open" (os.errno w) skip in
      Ends-bind _ _
        (of_test (λ (c : Cmd (Reader W) (Unit {0})). Ends (Holds true false n) (Left false n) (c t))
          opened (modify (λ s. record s { source_open = true })) wrong
          (λ _.
            ends_ok
              (record { source_is = refl; strings_is = h.strings_is; blocks_is = h.blocks_is }))
          (λ _. refused t t here))
        (λ _ u g.
          Ends-bind _ _
            (Ends-on_fail _ (close_source os files >> skip) (open_header-Ends junk u g)
              (closed_after n))
            (λ _ v g. Ends-bind _ _ (close_source-Ends n v g) (λ closed x g.
              Ends-weaken _ (λ y k. (true, k))
                (kept _ (Keeps-when (not closed) _ (λ _. at_machine-Keeps _ x)) g))))
