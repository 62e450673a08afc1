-- ===== src/Manager/Invariant/Whole.antt =====
-- The counts of the table through `mut_run` of src/mut.c.
use mut.Base.{
  final, ℕ, zero, suc, Option, none, some, List, [], ◌∷◌, skip, Keeps, keeping, Keeps-bind,
  Keeps-if, Keeps-ok, Keeps-ok,
}
use mut.Resources.Defs.{ActionId}
use mut.Manager.State.{Mut, Env, ActionType}
use mut.Manager.Actions.{
  actions_lookup, remove_action_breakpoints, install_each, install_action_breakpoints,
}
use mut.Manager.Run.{do_usage, dispatch, handle_action, handle, after_wait, round, run}
use mut.Manager.Invariant.{TableInv, keeping_frame, do_malloc-Keeps, do_calloc-Keeps}
use mut.Manager.Invariant.Consume.{do_consumer-Keeps}
use mut.Manager.Invariant.Resize.{do_realloc-Keeps}

module _ {W C : Type 0} (env : Env W C) where
  install_each-Keeps :
      (ids : List ActionId) (s : Mut W C) → Keeps TableInv s (install_each env ids s)
  unfolding install_each
  install_each-Keeps [] s = Keeps-ok
  install_each-Keeps (id ∷ ids) s = search (keeping, keeping_frame, install_each-Keeps ids) depth 14

  install_action_breakpoints-Keeps :
      (s : Mut W C) → Keeps TableInv s (install_action_breakpoints env s)
  unfolding install_action_breakpoints
  install_action_breakpoints-Keeps s = install_each-Keeps s.actions.root s

  remove_action_breakpoints-Keeps :
      (s : Mut W C) → Keeps TableInv s (remove_action_breakpoints env s)
  unfolding remove_action_breakpoints
  remove_action_breakpoints-Keeps s = search (keeping, keeping_frame) depth 14

  do_usage-Keeps : (s : Mut W C) → Keeps TableInv s (do_usage env s)
  unfolding do_usage
  do_usage-Keeps s = search (keeping, keeping_frame) depth 14

  -- The counts of the table through the switch of `mut_run`.
  dispatch-Keeps :
      (id : ActionId) (t : ActionType) (s : Mut W C) → Keeps TableInv s (dispatch env id t s)
  unfolding dispatch
  dispatch-Keeps id ActionType.malloc s = do_malloc-Keeps env s
  dispatch-Keeps id ActionType.consumer s = do_consumer-Keeps env id s
  dispatch-Keeps id ActionType.realloc s = do_realloc-Keeps env s
  dispatch-Keeps id ActionType.calloc s = do_calloc-Keeps env s
  dispatch-Keeps id ActionType.usage s = do_usage-Keeps s

  -- Each case of the switch of mut_run keeps the table invariant, from any state that has it, on
  -- success and on every failure: malloc, calloc, free and cfree, realloc in both modes, and the
  -- usage report.
  pub dispatch-TableInv :
      (id : ActionId) (t : ActionType) (s : Mut W C)
      → TableInv s
      → TableInv (final (dispatch env id t s))
  dispatch-TableInv id t s = (dispatch-Keeps id t s).holds

  handle_action-Keeps :
      (o : Option ActionId) (s : Mut W C) → Keeps TableInv s (handle_action env o s)
  unfolding handle_action
  handle_action-Keeps none s = Keeps-ok
  handle_action-Keeps (some id) s =
      search
        (keeping, remove_action_breakpoints-Keeps, dispatch-Keeps, install_action_breakpoints-Keeps)
        depth 14

  after_wait-Keeps : (o : Option ℕ) (s : Mut W C) → Keeps TableInv s (after_wait env o s)
  unfolding after_wait handle
  after_wait-Keeps none s = Keeps-ok
  after_wait-Keeps (some pc) s =
      Keeps-bind (handle_action-Keeps (actions_lookup s.actions pc) s) λ _ t. Keeps-ok

  round-Keeps : (s : Mut W C) → Keeps TableInv s (round env s)
  unfolding round
  round-Keeps s = search (keeping, keeping_frame, after_wait-Keeps) depth 14

  -- The counts of the table through `mut_run`, however it ends.
  pub run-Keeps : (rounds : ℕ) (s : Mut W C) → Keeps TableInv s (run env rounds s)
  unfolding run
  run-Keeps zero s = record { holds = λ v. v }
  run-Keeps (suc rounds) s =
      Keeps-bind (round-Keeps s)
        λ more t. Keeps-if more (run env rounds) skip (λ _. run-Keeps rounds t) (λ _. Keeps-ok)
