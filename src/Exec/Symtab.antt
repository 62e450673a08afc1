-- ===== src/Exec/Symtab.antt =====
-- src/exec/mut_exec_symtab.c: functions in the order of their addresses, each with its lines.
use text.Mathlib.Text.{◌==◌ as str_eq}
use mut.Base.{
  ◌%◌, ◌^◌, ℕ, String, Bool, true, false, ◌&&◌, Option, none, some, List, [], ◌∷◌, Cmd, ok, pure,
  failed, get, ◌>>=◌, ◌>>◌, if◌then◌else◌, ltb, leb, ◌==◌,
}
use mut.Machine.{Os, Machine}
use mut.Log.{log_fatal, log_warning, finish}

-- `struct mut_exec_symtab_fun_line`; the line number is an `unsigned short`.
pub record Line : Type 0 where
  pub line_addr : ℕ
  pub line_number : ℕ

-- `struct mut_exec_symtab_fun`; `file_name` is a pointer that may be null.
pub record Fun : Type 0 where
  pub fun_name : String
  pub fun_start_addr : ℕ
  pub file_name : Option String
  pub fun_lines : List Line

-- `struct mut_exec_symtab`; `cache` is given by the start of the function that it points at.
pub record Symtab : Type 0 where
  pub head : List Fun
  pub cache : Option ℕ
  pub end_addr : ℕ

-- `mut_exec_symtab_open`
unfoldable pub open_symtab : Symtab
open_symtab = record { head = []; cache = none; end_addr = 0 }

-- The node that `mut_exec_symtab_fun_open` fills in; it leaves `file_name` as it found it.
unfoldable pub fun_open : Option String → String → ℕ → Fun
fun_open junk name start_addr = record {
  fun_name = name;
  fun_start_addr = start_addr;
  file_name = junk;
  fun_lines = [];
}

-- The walk of `mut_exec_symtab_add_fun`: `none` when the address is there already.
unfoldable pub place_fun : Fun → List Fun → Option (List Fun)
place_fun nf [] = some (nf ∷ [])
place_fun nf (f ∷ fs) =
    let rest = place_fun nf fs in
    if ltb nf.fun_start_addr f.fun_start_addr
    then some (nf ∷ f ∷ fs)
    else if nf.fun_start_addr == f.fun_start_addr
    then none
    else elim rest [ none ↦ none | some gs ↦ some (f ∷ gs) ]

-- The walk of `mut_exec_symtab_add_xxx`: behind the lines of the same address.
unfoldable pub place_line : Line → List Line → List Line
place_line nl [] = nl ∷ []
place_line nl (l ∷ ls) =
    let rest = place_line nl ls in if ltb nl.line_addr l.line_addr then nl ∷ l ∷ ls else l ∷ rest

-- `f->next == 0 || a < f->next->fun_start_addr`
unfoldable pub before_next : ℕ → List Fun → Bool
before_next a [] = true
before_next a (g ∷ _) = ltb a g.fun_start_addr

-- The function that `a` lies in, by the walk of `mut_exec_symtab_lookup_addr`.
unfoldable pub find_fun : ℕ → List Fun → Option Fun
unfolding before_next
find_fun a [] = none
find_fun a (f ∷ fs) = if leb f.fun_start_addr a && before_next a fs then some f else find_fun a fs

unfoldable pub find_line : ℕ → List Line → ℕ
find_line a [] = 0
find_line a (l ∷ ls) = if leb a l.line_addr then l.line_number else find_line a ls

-- The results of `mut_exec_symtab_lookup_addr`.
pub record Found : Type 0 where
  pub start_addr : ℕ
  pub name : String
  pub file_name : Option String
  pub line : ℕ

unfoldable pub lookup_addr : Symtab → ℕ → Option Found
unfolding find_fun find_line
lookup_addr s a = elim (find_fun a s.head) [
  | none ↦ none
  | some f ↦ some (record {
    start_addr = f.fun_start_addr;
    name = f.fun_name;
    file_name = f.file_name;
    line = find_line a f.fun_lines;
  })
]

unfoldable pub find_name : String → List Fun → ℕ
find_name n [] = 0
find_name n (f ∷ fs) = if str_eq n f.fun_name then f.fun_start_addr else find_name n fs

-- `mut_exec_symtab_lookup_name`
unfoldable pub lookup_name : Symtab → String → ℕ
unfolding find_name
lookup_name s n = find_name n s.head

-- The loop of `mut_exec_symtab_add_range`, once memory for the line is granted: the file name and
-- the new line go to the function that the address lies in.
unfoldable pub place_range : ℕ → Line → Option String → List Fun → List Fun
unfolding before_next place_line
place_range a nl fn [] = []
place_range a nl fn (f ∷ fs) =
    if leb f.fun_start_addr a && before_next a fs
    then record f { file_name = fn; fun_lines = place_line nl f.fun_lines } ∷ fs
    else f ∷ place_range a nl fn fs

-- `s->end` after `mut_exec_symtab_add_range`: the start of the function behind, if there is one.
unfoldable pub end_of : ℕ → ℕ → List Fun → ℕ
end_of old a [] = old
end_of old a (f ∷ []) = old
end_of old a (f ∷ g ∷ fs) =
    if leb f.fun_start_addr a && ltb a g.fun_start_addr
    then g.fun_start_addr
    else end_of old a (g ∷ fs)

-- The file name, which is assigned before the memory for the line is asked for.
unfoldable pub set_file : ℕ → Option String → List Fun → List Fun
unfolding before_next
set_file a fn [] = []
set_file a fn (f ∷ fs) =
    if leb f.fun_start_addr a && before_next a fs
    then record f { file_name = fn } ∷ fs
    else f ∷ set_file a fn fs

module _ {W : Type 0} (os : Os W) where
  -- `mut_mem_malloc`: true when the memory is granted.
  unfoldable pub mem_malloc : Cmd (Machine W) Bool
  mem_malloc m = let (granted, w) = os.malloc m.world in ok granted (record m { world = w })

  unfoldable pub log_full : Cmd (Machine W) (Unit {0})
  log_full = do log_fatal os "mem.full" (← get (λ m. os.errno m.world)); finish os

  unfoldable pub add_fun : Option String → Symtab → String → ℕ → Cmd (Machine W) Symtab
  unfolding fun_open place_fun mem_malloc log_full
  add_fun junk s n a = elim (place_fun (fun_open junk n a) s.head) [
    | none ↦ pure s
    | some funs ↦ do
      granted ← mem_malloc
      if granted then pure (record s { head = funs }) else (do log_full; failed)
  ]

  -- `mut_exec_symtab_add_range`; what it leaves in the table also when it fails comes first.
  unfoldable pub add_range : Symtab → ℕ → ℕ → Option String → Cmd (Machine W) (Symtab × Bool)
  unfolding find_fun place_range set_file end_of mem_malloc log_full
  add_range s a l fn = elim (find_fun a s.head) [
    | none ↦ do log_warning os "elf.xxx"; finish os; pure (s, true)
    | some f ↦ do
      let located = record s {
        cache = some f.fun_start_addr;
        end_addr = end_of s.end_addr a s.head;
      }
      granted ← mem_malloc
      if granted
          then pure (
            record located {
              head = place_range a (record { line_addr = a; line_number = l % 2 ^ 16 }) fn s.head;
            },
            true,
          )
          else (do log_full; pure (record located { head = set_file a fn s.head }, false))
  ]
