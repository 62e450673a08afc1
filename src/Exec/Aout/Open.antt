-- ===== src/Exec/Aout/Open.antt =====
-- src/exec/aout/mut_exec.c: the reader of a.out executables.
use Prim.Native.Nat.{bit_and}
use mut.Base.{
  ℕ, zero, suc, String, Bool, true, false, not, ◌&&◌, Option, none, some, List, [], ◌∷◌, ◌++◌, ◌-◌,
  ◌+◌, ◌/◌, ◌%◌, Cmd, ok, within, and_then, pure, failed, halted, skip, get, modify, assert, when,
  ◌>>=◌, ◌>>◌, ◌on_fail◌, if◌then◌else◌, ltb, ◌==◌, sub32, mul32,
}
use mut.Machine.{Os, Machine}
use mut.Log.{
  log_fatal, log_warning, log_mem_full, log_string, log_uint, log_uint_hex, log_long, log_ulong,
  finish,
}
use mut.Exec.Symtab.{add_fun, open_symtab}
use mut.Exec.Elf.Symbols.{nodes}
use mut.Exec.Elf.Text.{string_at}
use mut.Exec.Aout.Types.{Nlist, Reader, Files, sizeof_size}

abbrev pub at_machine : {W A : Type 0} → Cmd (Machine W) A → Cmd (Reader W) A
at_machine c s = within (λ s m. record s { machine = m }) s (c s.machine)

-- A call of the C library.
abbrev pub sys : {W A : Type 0} → (W → A × W) → Cmd (Reader W) A
sys f s =
    let (a, w) = f s.machine.world in ok a (record s { machine = record s.machine { world = w } })

-- `*name == '_' ? name+1 : name`
unfoldable pub strip : List ℕ → List ℕ
strip [] = []
strip (c ∷ cs) = if c == b'_' then cs else c ∷ cs

module _ {W : Type 0} (os : Os W) (files : Files W) where
  -- A fatal record about the file, `more` being its further arguments, and `return 0`.
  unfoldable pub refuse : {A : Type 0} → String → ℕ → Cmd (Machine W) (Unit {0}) → Cmd (Reader W) A
  refuse what code more = do
    name ← get (λ s. s.file_name)
    at_machine (do log_fatal os what code; log_string os name; more; finish os)
    failed

  unfoldable pub errno_now : Cmd (Reader W) ℕ
  errno_now = get (λ s. os.errno s.machine.world)

  -- `mut_exec_check_magic`
  unfoldable pub check_magic : Cmd (Reader W) (Unit {0})
  check_magic = do
    h ← get (λ s. s.header)
    when h.bad_magic (refuse "aout.bad-magic" 0 (log_uint_hex os h.magic))

  -- `mut_exec_check_type`
  unfoldable pub check_type : Cmd (Reader W) (Unit {0})
  check_type = do
    h ← get (λ s. s.header)
    when (not (h.mach == files.aout_mach))
        (refuse "aout.bad-magic" 0 (do log_uint os h.mach; log_uint os files.aout_mach))

  -- `mut_mem_malloc`, with `mut_log_mem_full` where it fails.
  unfoldable pub allocate : Cmd (Reader W) (Unit {0})
  allocate = do
    granted ← sys os.malloc
    e ← errno_now
    if granted
        then modify (λ s. record s { blocks = s.blocks + 1 })
        else (do at_machine (log_mem_full os e); failed)

  -- `mut_mem_free`
  unfoldable pub give_back : Cmd (Reader W) (Unit {0})
  give_back s = ok tt (record s {
    machine = record s.machine { world = files.mem_free s.machine.world };
    blocks = s.blocks - 1;
  })

  -- `if (fseek(...) < 0)`
  unfoldable pub seek_to : ℕ → Cmd (Reader W) (Unit {0})
  seek_to offset = do
    done ← sys (files.seek offset)
    if done then skip else refuse "io.seek" 0 (log_long os offset)

  -- `if (fread(...) != ...)`, `coded` saying whether the record has errno, and `size` the bytes.
  unfoldable pub read_or : {A : Type 0} → (W → Option A × W) → Bool → ℕ → Cmd (Reader W) A
  read_or {A} f coded size = do
    item ← sys f
    e ← errno_now
    elim item as (λ _. Cmd (Reader W) A) [
      | none ↦ refuse "io.read" (if coded then e else 0) (log_ulong os size)
      | some a ↦ pure a
    ]

  -- `mut_exec_strtab_open`. A size below that of the size itself makes fread write behind the
  -- block.
  unfoldable pub strtab_open : Cmd (Reader W) (Unit {0})
  strtab_open = do
    h ← get (λ s. s.header)
    seek_to h.str_off
    size ← read_or files.read_size false sizeof_size
    allocate
    (do
      when (ltb size sizeof_size) halted
      let rest : ℕ = sub32 size sizeof_size
      bytes ← read_or (files.read_bytes rest) true rest
      modify λ s. record s {
        strings = some (record { bytes = files.size_bytes ++ bytes; size = size });
      })
        on_fail give_back

  -- `mut_exec_strtab_lookup`
  unfoldable pub strtab_lookup : ℕ → Cmd (Reader W) (List ℕ)
  strtab_lookup str = do
    strings ← get (λ s. s.strings)
    elim strings as (λ _. Cmd (Reader W) (List ℕ)) [
      | none ↦ halted
      | some t ↦ do assert (ltb str t.size); pure (string_at str t.bytes)
    ]

  -- `mut_exec_reader_symtab_open`
  unfoldable pub reader_symtab_open : Cmd (Reader W) (Unit {0})
  reader_symtab_open = do
    h ← get (λ s. s.header)
    when (not (h.a_syms % files.sizeof_nlist == 0))
        (refuse "aout.symbols.size" 0 (do log_uint os h.a_syms; log_uint os files.sizeof_nlist))
    let n : ℕ = h.a_syms / files.sizeof_nlist
    allocate
    (do
      seek_to h.sym_off
      elems ← read_or (files.read_nlists n) true (mul32 files.sizeof_nlist n)
      modify λ s. record s { elems = elems })
        on_fail give_back

  -- `mut_exec_functions_is_function`
  unfoldable pub is_function : Nlist → Bool
  is_function n = (bit_and n.n_type files.n_text == files.n_text) && ltb n.n_type files.n_type_end

  unfoldable pub add_symbol : Option String → String → ℕ → Cmd (Reader W) (Unit {0})
  add_symbol junk name a s =
      and_then
        (within (λ s m. record s { machine = m }) s (add_fun os junk s.symbols name a s.machine))
        (λ symbols s. ok tt (record s { symbols = symbols }))

  -- The loop of `mut_exec_extract_functions`; its count of the functions is not used. The name is
  -- looked up for every symbol.
  unfoldable pub extract_each : Option String → List Nlist → Cmd (Reader W) (Unit {0})
  extract_each junk [] = skip
  extract_each junk (n ∷ ns) =
      let rest = extract_each junk ns in
      do
        name ← strtab_lookup n.n_strx
        if is_function n
            then (do add_symbol junk (files.text (strip name)) n.n_value; rest)
            else rest

  -- `mut_exec_extract_functions`
  unfoldable pub extract_functions : Option String → Cmd (Reader W) (Unit {0})
  extract_functions junk s = extract_each junk s.elems s

  -- `fclose`, its result being for the caller.
  unfoldable pub close_source : Cmd (Reader W) Bool
  close_source s =
      let (closed, w) = files.close s.machine.world in
      ok closed (record s { machine = record s.machine { world = w }; source_open = false })

  -- `mut_exec_open` from `mut_exec_reader_symtab_open` on.
  unfoldable pub open_symbols : Option String → Cmd (Reader W) (Unit {0})
  open_symbols junk = do
    reader_symtab_open
    modify λ s. record s { symbols = open_symtab }
    extract_functions junk on_fail give_back
    give_back

  -- `mut_exec_open` once the file is open.
  unfoldable pub open_header : Option String → Cmd (Reader W) (Unit {0})
  open_header junk = do
    h ← read_or (files.read_header files.sizeof_exec) true files.sizeof_exec
    modify λ s. record s { header = h }
    check_magic
    check_type
    strtab_open
    open_symbols junk

  -- `mut_exec_open`
  unfoldable pub exec_open : Option String → Cmd (Reader W) (Unit {0})
  exec_open junk = do
    name ← get (λ s. s.file_name)
    opened ← sys (files.open_read name)
    e ← errno_now
    if opened then modify (λ s. record s { source_open = true }) else refuse "io.open" e skip
    open_header junk on_fail (do _ ← close_source; skip)
    closed ← close_source
    when (not closed) (at_machine (do log_warning os "io.close"; log_string os name; finish os))

  -- The nodes that `mut_exec_symtab_close` gives back.
  unfoldable pub free_nodes : ℕ → Cmd (Reader W) (Unit {0})
  free_nodes zero = skip
  free_nodes (suc n) = do sys (λ w. (tt, files.mem_free w)); free_nodes n

  -- `mut_exec_close`
  unfoldable pub exec_close : Cmd (Reader W) (Unit {0})
  exec_close = do
    give_back
    modify λ s. record s { strings = none }
    free_nodes (nodes (← get (λ s. s.symbols.head)))
