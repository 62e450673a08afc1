-- ===== src/Exec/Elf/OrderedParts.antt =====
-- src/exec/elf/mut_exec.c: the reading of the symbols and of the lines keeps the table of symbols in
-- the order of its addresses.
use mut.Base.{
  ℕ, zero, suc, String, Bool, true, false, ◌&&◌, not, Option, List, [], ◌∷◌, Outcome, ok, fail,
  halt, spent, and_then, within, Keeps, keeping, Keeps-bind, Keeps-if, if◌then◌else◌, skip, failed,
  halted, ◌==◌, add32,
}
use mut.Machine.{Os, Machine}
use mut.Exec.Symtab.{Symtab, add_fun, add_range}
use mut.Exec.Order.{Ordered}
use mut.Exec.Elf.Types.{Shdr, Sym, Stab, Strings, Reader, Files}
use mut.Exec.Elf.Reading.{errno_now}
use mut.Exec.Elf.Symbols.{
  nodes, give_back_all, symtab_close, add_symbol, cut_suffix, symbol_loop, read_symbols,
  extract_symbols,
}
use mut.Exec.Elf.Stabs.{
  read_stabs, extract_stabs, read_stabstr, stabstr_open, add_line, debug_loop, extract_debug_info,
}
use mut.Exec.Elf.Returned.{Returns, of_ok, add_fun-Returns, add_range-Returns}
use mut.Exec.Elf.Ordered.{InOrder, at_machine-Keeps, reading, give_back-Keeps}

returned : {S A : Type 0} {Q : A → Type 0} {a : A} {s : S} → Returns Q (ok a s) → Q a
returned (of_ok q) = q

module _ {W : Type 0} where
  added-Keeps :
      (o : Outcome (Machine W) Symtab) (s : Reader W)
      → (InOrder s → Returns (λ t. Ordered t.head) o)
      → Keeps InOrder s (
          and_then
            (within (λ s m. record s { machine = m }) s o)
            (λ symbols s. ok tt (record s { symbols = symbols })))
  added-Keeps (ok t m) s h = record { holds = λ p. returned (h p) }
  added-Keeps (fail m) s h = record { holds = λ p. p }
  added-Keeps (halt m) s h = record { holds = λ p. p }
  added-Keeps (spent m) s h = record { holds = λ p. p }

  lined-Keeps :
      (o : Outcome (Machine W) (Symtab × Bool)) (s : Reader W)
      → (InOrder s → Returns (λ r. Ordered r.0.head) o)
      → Keeps InOrder s (
          and_then
            (within (λ s m. record s { machine = m }) s o)
            (λ (symbols, done) s. (if done then skip else failed) (record s { symbols = symbols })))
  lined-Keeps (ok (t, true) m) s h = record { holds = λ p. returned (h p) }
  lined-Keeps (ok (t, false) m) s h = record { holds = λ p. returned (h p) }
  lined-Keeps (fail m) s h = record { holds = λ p. p }
  lined-Keeps (halt m) s h = record { holds = λ p. p }
  lined-Keeps (spent m) s h = record { holds = λ p. p }

module _ {W : Type 0} (os : Os W) (files : Files W) where
  add_symbol-Keeps :
      (junk : Option String) (name : String) (a : ℕ) (s : Reader W)
      → Keeps InOrder s (add_symbol os files junk name a s)
  unfolding add_symbol
  add_symbol-Keeps junk name a s =
      added-Keeps (add_fun os junk s.symbols name a s.machine) s
        (λ p. add_fun-Returns os junk s.symbols name a s.machine p)

  add_line-Keeps :
      (a l : ℕ) (fn : Option String) (s : Reader W) → Keeps InOrder s (add_line os files a l fn s)
  unfolding add_line
  add_line-Keeps a l fn s =
      lined-Keeps (add_range os s.symbols a l fn s.machine) s
        (λ p. add_range-Returns os s.symbols a l fn s.machine p)

  give_back_all-Keeps : (n : ℕ) (s : Reader W) → Keeps InOrder s (give_back_all os files n s)
  unfolding give_back_all
  give_back_all-Keeps zero s = record { holds = λ p. p }
  give_back_all-Keeps (suc n) s = search (keeping, give_back-Keeps, give_back_all-Keeps n)

  pub symtab_close-Keeps : (s : Reader W) → Keeps InOrder s (symtab_close os files s)
  unfolding symtab_close
  symtab_close-Keeps s =
      Keeps-if (s.symtab_closed && not (nodes s.symbols.head == 0)) halted _
        (λ _. record { holds = λ p. p })
        (λ _.
          Keeps-bind (give_back_all-Keeps (nodes s.symbols.head) s)
            (λ _ t. record { holds = λ p. p }))

  pub symbol_loop-Keeps :
      (junk : Option String) (suffix : Option (List ℕ)) (plt : Option Shdr) (ss : List Sym) (f : ℕ)
      (strings : Strings) (s : Reader W)
      → Keeps InOrder s (symbol_loop os files junk suffix plt ss f strings s)
  unfolding symbol_loop
  symbol_loop-Keeps junk suffix plt [] f strings s = record { holds = λ p. p }
  symbol_loop-Keeps junk suffix plt (x ∷ ss) f strings s =
      let cut = cut_suffix suffix x.st_name strings in
      search
        (
          keeping,
          add_symbol-Keeps,
          symbol_loop-Keeps junk suffix plt ss (add32 f 1) cut,
          symbol_loop-Keeps junk suffix plt ss f strings,
        )
        depth 14

  debug_loop-Keeps :
      (strings : Strings) (ss : List Stab) (base_addr : ℕ) (fn : Option String) (s : Reader W)
      → Keeps InOrder s (debug_loop os files strings ss base_addr fn s)
  unfolding debug_loop
  debug_loop-Keeps strings [] base_addr fn s = record { holds = λ p. p }
  debug_loop-Keeps strings (x ∷ ss) base_addr fn s =
      search (keeping, add_line-Keeps, debug_loop-Keeps strings ss) depth 14

  pub extract_symbols-Keeps :
      (junk : Option String) (h : Shdr) (strings : Strings) (suffix : Option (List ℕ))
      (plt : Option Shdr) (s : Reader W)
      → Keeps InOrder s (extract_symbols os files junk h strings suffix plt s)
  unfolding extract_symbols read_symbols
  extract_symbols-Keeps junk h strings suffix plt s =
      search (keeping, reading, symbol_loop-Keeps, symtab_close-Keeps) depth 18

  extract_stabs-Keeps : (h : Shdr) (s : Reader W) → Keeps InOrder s (extract_stabs os files h s)
  unfolding extract_stabs read_stabs
  extract_stabs-Keeps h s = search (keeping, reading) depth 18

  pub stabstr_open-Keeps : (h : Shdr) (s : Reader W) → Keeps InOrder s (stabstr_open os files h s)
  unfolding stabstr_open read_stabstr errno_now
  stabstr_open-Keeps h s = search (keeping, reading, at_machine-Keeps) depth 18

  pub extract_debug_info-Keeps :
      (h : Shdr) (strings : Strings) (s : Reader W)
      → Keeps InOrder s (extract_debug_info os files h strings s)
  unfolding extract_debug_info
  extract_debug_info-Keeps h strings s =
      search (keeping, reading, extract_stabs-Keeps, debug_loop-Keeps) depth 14
