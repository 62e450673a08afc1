-- ===== src/Manager/Ending/Whole.antt =====
-- src/mut.c: one round of the loop of mut_run comes to an end, whatever the target has called.
use mut.Base.{ℕ, none, some, List, [], ◌∷◌, Option, lasting, lasts_ok}
use mut.Machine.{Machine}
use mut.Resources.Defs.{ActionId}
use mut.Process.{wait}
use mut.Process.Steady.{Steady, Runs, Holds}
use mut.Process.SteadyTarget.{target}
use mut.Manager.State.{Action, ActionType, Mut, Env}
use mut.Manager.SteadyReports.{reports}
use mut.Manager.Actions.{
  actions_lookup, remove_each, remove_action_breakpoints, install_each, install_action_breakpoints,
}
use mut.Manager.Run.{do_usage, dispatch, handle_action, handle}
use mut.Manager.Patient.{Held, Goes, holding, steps}
use mut.Manager.Ending.Objects.{do_malloc-Lasts, do_calloc-Lasts, do_consumer-Lasts}
use mut.Manager.Ending.Moved.{do_realloc-Lasts}

module _ {W C : Type 0} {P : W → Type 0} (env : Env W C) (steady : Steady env.os P) where
  remove_each-Lasts :
      (table : ActionId → Action C) (l : List ActionId) (m : Machine W)
      → Holds P m
      → Runs P (remove_each env table l m)
  unfolding remove_each
  remove_each-Lasts table [] m h = lasts_ok h
  remove_each-Lasts table (id ∷ l) m h =
      search (lasting, target, remove_each-Lasts table l) depth 18

  remove_action_breakpoints-Lasts :
      (s : Mut W C) → Held P s → Goes P (remove_action_breakpoints env s)
  unfolding remove_action_breakpoints
  remove_action_breakpoints-Lasts s h = search (holding, remove_each-Lasts) depth 18

  install_each-Lasts : (l : List ActionId) (s : Mut W C) → Held P s → Goes P (install_each env l s)
  unfolding install_each
  install_each-Lasts [] s h = lasts_ok h
  install_each-Lasts (id ∷ l) s h = search (holding, target, install_each-Lasts l) depth 18

  install_action_breakpoints-Lasts :
      (s : Mut W C) → Held P s → Goes P (install_action_breakpoints env s)
  unfolding install_action_breakpoints
  install_action_breakpoints-Lasts s h = search (holding, install_each-Lasts) depth 18

module _ {W C : Type 0} {P : W → Type 0} (env : Env W C) (steady : Steady env.os P)
    (by_wait : (m : Machine W) → Holds P m → Runs P (wait env.os env.fuel m)) where
  do_usage-Lasts : (s : Mut W C) → Held P s → Goes P (do_usage env s)
  unfolding do_usage
  do_usage-Lasts s h = search (holding, target, reports, steps) depth 24

  dispatch-Lasts :
      (id : ActionId) (type : ActionType) (s : Mut W C) → Held P s → Goes P (dispatch env id type s)
  unfolding dispatch
  dispatch-Lasts id ActionType.malloc s h = do_malloc-Lasts env steady by_wait s h
  dispatch-Lasts id ActionType.consumer s h = do_consumer-Lasts env steady by_wait id s h
  dispatch-Lasts id ActionType.realloc s h = do_realloc-Lasts env steady by_wait s h
  dispatch-Lasts id ActionType.calloc s h = do_calloc-Lasts env steady by_wait s h
  dispatch-Lasts id ActionType.usage s h = do_usage-Lasts s h

  handle_action-Lasts :
      (o : Option ActionId) (s : Mut W C) → Held P s → Goes P (handle_action env o s)
  unfolding handle_action
  handle_action-Lasts none s h = lasts_ok h
  handle_action-Lasts (some id) s h =
      search
        (holding, remove_action_breakpoints-Lasts, dispatch-Lasts, install_action_breakpoints-Lasts)
        depth 18

  -- What a round does at a stop comes to an end.
  pub handle-Lasts : (pc : ℕ) (s : Mut W C) → Held P s → Goes P (handle env pc s)
  unfolding handle
  handle-Lasts pc s h = handle_action-Lasts (actions_lookup s.actions pc) s h
