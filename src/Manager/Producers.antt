-- ===== src/Manager/Producers.antt =====
-- `mut_do_malloc` and `mut_do_calloc` of src/mut.c.
use mut.Base.{
  ℕ, not, ◌||◌, String, List, [], ◌∷◌, Cmd, pure, failed, get, assert, when, ◌>>=◌, ◌>>◌, ◌on_fail◌,
  if◌then◌else◌, ◌==◌, mul32,
}
use mut.Process.{read_arg, write_arg, function_return_addr, read_result}
use mut.Resources.Defs.{ActionId, is_new, make_producer, assign}
use mut.Manager.State.{Mut, Env, lift, set_resources, count_hit}
use mut.Manager.Reports.{alloc_failure, alloc_trace, log_clash}
use mut.Manager.Zones.{zone_size, round_up, calloc_zones, install_check_zones}
use mut.Manager.Common.{
  view, close_backtrace, do_action, maybe_usage, produce_backtrace, create_resource, maybe_collect,
}

module _ {W C : Type 0} (env : Env W C) where
  -- `mut_malloc_failure` and `mut_calloc_failure`
  unfoldable pub producer_failure :
      (code : String) → ActionId → List ℕ → (bt : ℕ) → Cmd (Mut W C) (Unit {0})
  producer_failure code id sizes bt = do
    s ← get (λ s. s)
    lift (alloc_failure env.os (view s) code id sizes bt)
    close_backtrace bt

  -- The common body of `mut_malloc_success` and `mut_calloc_success`: `code` is what the routine
  -- logs when the object is in the table already, `sizes` are the arguments that it traces.
  unfoldable pub producer_success :
      (code : String) → ActionId → List ℕ → (size obj_addr bt : ℕ) → Cmd (Mut W C) (Unit {0})
  producer_success code id sizes size obj_addr bt = do
    maybe_collect env size
    obj ← create_resource env obj_addr
    s ← get (λ s. s)
    if not (is_new obj)
        then (do lift (log_clash env.os (view s) code id obj obj_addr); failed)
        else (do
          set_resources (assign obj_addr (make_producer id size bt) s.resources)
          lift (alloc_trace env.os (view s) id sizes obj_addr bt)
          maybe_usage env)

  -- `mut_malloc_success`
  unfoldable pub malloc_success : (size obj_addr bt : ℕ) → Cmd (Mut W C) (Unit {0})
  unfolding producer_success
  malloc_success size obj_addr bt = do
    assert ((← get (λ s. s.flags.backtrace)) || (bt == 0))
    producer_success "MMM" ActionId.malloc (size ∷ []) size obj_addr bt

  -- `mut_calloc_success`
  unfoldable pub calloc_success : (n_elems elem_size obj_addr bt : ℕ) → Cmd (Mut W C) (Unit {0})
  unfolding producer_success
  calloc_success n_elems elem_size obj_addr bt =
      producer_success "CMM" ActionId.calloc (n_elems ∷ elem_size ∷ []) (mul32 n_elems elem_size)
        obj_addr bt

  -- The part of both handlers that ends at `mut_process_read_result`: run the routine and read its
  -- result. `widen` changes the arguments so that the zones have room.
  unfoldable pub run_producer : ActionId → (widen : Cmd (Mut W C) (Unit {0})) → Cmd (Mut W C) ℕ
  run_producer id widen = do
    return_addr ← lift (function_return_addr env.os)
    s ← get (λ s. s)
    when s.flags.check widen
    do_action env return_addr id
    lift (read_result env.os)

  -- `m->flags & mut_control_check && !mut_install_check_zones(...)`
  unfoldable pub maybe_install : (obj_addr size : ℕ) → Cmd (Mut W C) ℕ
  maybe_install obj_addr size = do
    s ← get (λ s. s)
    if s.flags.check then lift (install_check_zones env.os obj_addr size) else pure obj_addr

  unfoldable pub maybe_hit : ActionId → Cmd (Mut W C) (Unit {0})
  maybe_hit id = do s ← get (λ s. s); when s.flags.stats (count_hit env.ops id)

  -- `mut_do_malloc`
  unfoldable pub do_malloc : Cmd (Mut W C) (Unit {0})
  unfolding run_producer maybe_install maybe_hit producer_failure
  do_malloc = do
    size ← lift (read_arg env.os 0)
    bt ← produce_backtrace env
    obj_addr ←
        run_producer ActionId.malloc (lift (write_arg env.os 0 (round_up size)))
        on_fail close_backtrace bt
    maybe_hit ActionId.malloc
    if obj_addr == 0 then producer_failure "MR0" ActionId.malloc (size ∷ []) bt else (do
      shown ← maybe_install obj_addr (round_up size) on_fail close_backtrace bt
      malloc_success size shown bt)

  -- `mut_do_calloc`
  unfoldable pub do_calloc : Cmd (Mut W C) (Unit {0})
  unfolding run_producer maybe_install maybe_hit producer_failure
  do_calloc = do
    n_elems ← lift (read_arg env.os 0)
    elem_size ← lift (read_arg env.os 1)
    bt ← produce_backtrace env
    obj_addr ←
        run_producer ActionId.calloc (
          lift
            (do write_arg env.os 0 (calloc_zones n_elems elem_size); write_arg env.os 1 zone_size))
        on_fail close_backtrace bt
    maybe_hit ActionId.calloc
    if obj_addr == 0
        then producer_failure "CR0" ActionId.calloc (n_elems ∷ elem_size ∷ []) bt
        else (do
          shown ←
              maybe_install obj_addr (mul32 (calloc_zones n_elems elem_size) zone_size)
              on_fail close_backtrace bt
          calloc_success n_elems elem_size shown bt)
