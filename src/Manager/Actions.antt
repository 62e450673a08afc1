-- ===== src/Manager/Actions.antt =====
-- The address -> action map of src/mut.c and its breakpoints.
use mut.Base.{
  ℕ, String, not, Option, none, some, List, [], ◌∷◌, ◌++◌, Cmd, skip, get, modify, ◌>>=◌, ◌>>◌,
  if◌then◌else◌, ◌==◌,
}
use mut.Machine.{Machine}
use mut.Log.{log_info, log_string, log_exec_addr, finish}
use mut.Process.{breakpoint, restore}
use mut.Exec.{Function, functions_addr}
use mut.Resources.Defs.{ActionId}
use mut.Manager.State.{Action, Actions, Mut, Env, lift, set_action, same_action, action_name}

module _ {C : Type 0} where
  -- The walk that `mut_actions_enter` and `mut_actions_lookup` share.
  unfoldable pub find_action : (ActionId → Action C) → ℕ → List ActionId → Option ActionId
  find_action table a [] = none
  find_action table a (id ∷ ids) = if (table id).addr == a then some id else find_action table a ids

  -- `mut_actions_lookup`
  unfoldable pub actions_lookup : Actions C → ℕ → Option ActionId
  unfolding find_action
  actions_lookup as' a = find_action as'.action a as'.root

  -- `mut_actions_enter`: the action that holds the address, and the list.
  unfoldable pub actions_enter : Actions C → ActionId → ActionId × List ActionId
  unfolding find_action
  actions_enter as' id = elim (find_action as'.action (as'.action id).addr as'.root) [
    | some other ↦ (other, as'.root)
    | none ↦ (id, id ∷ as'.root)
  ]

module _ {W C : Type 0} (env : Env W C) where
  -- `mut_manage_action`
  unfoldable pub manage_action : ActionId → Function → Cmd (Mut W C) (Unit {0})
  manage_action id f = do
    set_action id λ a. record a { hits = env.ops.from_uint 0 }
    if not f.flags then skip else (do
      set_action id λ a. record a { addr = f.addr }
      s ← get (λ s. s)
      let (other, root) = actions_enter s.actions id
      modify λ t. record t { actions = record t.actions { root = root } }
      if not (same_action other id)
          then lift (do
            log_info env.os "duplicate.addr"
            log_string env.os (action_name s.actions.usage_name id)
            log_string env.os (action_name s.actions.usage_name other)
            log_exec_addr env.os f.addr
            finish env.os)
          else (do
            instr ← lift (breakpoint env.os f.addr)
            set_action id λ a. record a { instr = instr }))

  unfoldable pub manage_each : List ActionId → List Function → Cmd (Mut W C) (Unit {0})
  unfolding manage_action
  manage_each (id ∷ ids) (f ∷ fs) = do manage_action id f; manage_each ids fs
  manage_each _ _ = skip

  abbrev routines : List ActionId
  routines =
      ActionId.malloc ∷ ActionId.calloc ∷ ActionId.realloc ∷ ActionId.free ∷ ActionId.cfree ∷ []

  -- The addresses of the functions of these names, then each action is managed.
  unfoldable pub manage_names : List ActionId → List String → Cmd (Mut W C) (Unit {0})
  unfolding manage_each
  manage_names ids names = do s ← get (λ s. s); manage_each ids (functions_addr s.exec names)

  abbrev routine_names : List String
  routine_names = "malloc" ∷ "calloc" ∷ "realloc" ∷ "free" ∷ "cfree" ∷ []

  -- `mut_manage_actions`: the usage function is managed only if one is named.
  unfoldable pub manage_actions : Option String → Cmd (Mut W C) (Unit {0})
  unfolding manage_names
  manage_actions none = manage_names routines routine_names
  manage_actions (some usage_function) = do
    modify λ s. record s { actions = record s.actions { usage_name = usage_function } }
    manage_names (routines ++ (ActionId.usage ∷ [])) (routine_names ++ (usage_function ∷ []))

  unfoldable pub remove_each : (ActionId → Action C) → List ActionId → Cmd (Machine W) (Unit {0})
  remove_each table [] = skip
  remove_each table (id ∷ ids) = do
    restore env.os (table id).addr (table id).instr
    remove_each table ids

  -- `mut_remove_action_breakpoints`
  unfoldable pub remove_action_breakpoints : Cmd (Mut W C) (Unit {0})
  unfolding remove_each
  remove_action_breakpoints = do
    s ← get (λ s. s)
    lift (remove_each s.actions.action s.actions.root)

  unfoldable pub install_each : List ActionId → Cmd (Mut W C) (Unit {0})
  install_each [] = skip
  install_each (id ∷ ids) = do
    s ← get (λ s. s)
    instr ← lift (breakpoint env.os (s.actions.action id).addr)
    set_action id λ a. record a { instr = instr }
    install_each ids

  -- `mut_install_action_breakpoints`
  unfoldable pub install_action_breakpoints : Cmd (Mut W C) (Unit {0})
  unfolding install_each
  install_action_breakpoints = do s ← get (λ s. s); install_each s.actions.root
