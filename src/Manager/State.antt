-- ===== src/Manager/State.antt =====
-- src/mut.h and src/mut_action.h: the state of the manager.
use mut.Base.{
  ℕ, String, Bool, Option, none, some, List, Cmd, within, ok, halt, modify, if◌then◌else◌,
}
use mut.Machine.{Os, Machine}
use mut.Counter.{CounterOps}
use mut.Backtrace.Store.{Store}
use mut.Resources.Defs.{ActionId, Resources}
use mut.Exec.{Exec}

-- `enum mut_control`, a set of bits, as one Boolean for each.
pub record Control : Type 0 where
  pub trace : Bool
  pub backtrace : Bool
  pub free : Bool
  pub stats : Bool
  pub zero : Bool
  pub usage : Bool
  pub check : Bool

-- `enum mut_action_type`
pub data ActionType : Type 0 where
  malloc calloc realloc consumer usage : ActionType

-- `struct mut_action`, less `next` (the order is `Actions.root`) and the type, which is fixed.
pub record Action (C : Type 0) : Type 0 where
  pub addr : ℕ
  pub instr : ℕ
  pub hits : C

-- `actions` of `struct mut`: the actions by name, and the linked list that starts at `root`.
pub record Actions (C : Type 0) : Type 0 where
  pub action : ActionId → Action C
  pub root : List ActionId
  pub usage_name : String

pub record Stat (C : Type 0) : Type 0 where
  pub space : C
  pub count : C

-- `stats` of `struct mut`
pub record Stats (C : Type 0) : Type 0 where
  pub now : Stat C
  pub total : Stat C
  pub max_space : Stat C
  pub max_count : Stat C

-- `struct mut`, with the backtraces that its resources point at.
pub record Mut (W C : Type 0) : Type 0 where
  pub machine : Machine W
  pub backtraces : Store
  pub exec : Exec
  pub actions : Actions C
  pub resources : Resources
  pub flags : Control
  pub stats : Stats C

-- What the manager is given: the system, the counters, the fuel of each wait, and what
-- uninitialised memory happens to hold.
pub record Env (W C : Type 0) : Type 0 where
  pub os : Os W
  pub ops : CounterOps C
  pub fuel : ℕ
  pub junk : ℕ

abbrev pub action_type : ActionId → ActionType
action_type ActionId.malloc = ActionType.malloc
action_type ActionId.calloc = ActionType.calloc
action_type ActionId.realloc = ActionType.realloc
action_type ActionId.free = ActionType.consumer
action_type ActionId.cfree = ActionType.consumer
action_type ActionId.usage = ActionType.usage

abbrev pub action_name : String → ActionId → String
action_name usage_name ActionId.malloc = "malloc"
action_name usage_name ActionId.calloc = "calloc"
action_name usage_name ActionId.realloc = "realloc"
action_name usage_name ActionId.free = "free"
action_name usage_name ActionId.cfree = "cfree"
action_name usage_name ActionId.usage = usage_name

abbrev pub same_action : ActionId → ActionId → Bool
same_action ActionId.malloc ActionId.malloc = Bool.true
same_action ActionId.calloc ActionId.calloc = Bool.true
same_action ActionId.realloc ActionId.realloc = Bool.true
same_action ActionId.free ActionId.free = Bool.true
same_action ActionId.cfree ActionId.cfree = Bool.true
same_action ActionId.usage ActionId.usage = Bool.true
same_action _ _ = Bool.false

module _ {W C : Type 0} where
  abbrev pub put_machine : Mut W C → Machine W → Mut W C
  put_machine s m = record s { machine = m }

  -- A command of the tracing and logging layers, which can change nothing else.
  abbrev pub lift : {A : Type 0} → Cmd (Machine W) A → Cmd (Mut W C) A
  lift m s = within put_machine s (m s.machine)

  abbrev pub set_resources : Resources → Cmd (Mut W C) (Unit {0})
  set_resources rs = modify λ s. record s { resources = rs }

  abbrev pub set_backtraces : Store → Cmd (Mut W C) (Unit {0})
  set_backtraces bts = modify λ s. record s { backtraces = bts }

  abbrev pub set_action : ActionId → (Action C → Action C) → Cmd (Mut W C) (Unit {0})
  set_action id f = modify λ s. record s {
    actions = record s.actions {
      action = λ i. if same_action i id then f (s.actions.action i) else s.actions.action i;
    };
  }

  -- `none` where an assertion has failed or freed memory has been used.
  abbrev pub or_halt : {A : Type 0} → Option A → Cmd (Mut W C) A
  or_halt none s = halt s
  or_halt (some a) s = ok a s

  -- `action->hits = mut_counter_inc(action->hits, 1)`
  abbrev pub count_hit : CounterOps C → ActionId → Cmd (Mut W C) (Unit {0})
  count_hit ops id = set_action id λ a. record a { hits = ops.inc a.hits 1 }
