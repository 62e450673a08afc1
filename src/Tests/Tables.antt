-- ===== src/Tests/Tables.antt =====
-- The table of resources, the symbol table, the counters, the zones and the backtraces on small
-- inputs.
use mut.Base.{
  ℕ, ◌≡◌, ◌≢◌, ◌≤◌, ◌<◌, ◌+◌, ◌*◌, ◌%◌, ◌^◌, ◌↔◌, inl, refl, arith, false, none, some, List, [],
  ◌∷◌, if◌then◌else◌, ◌==◌, ◌⊎◌, ltb, add32, mul32,
}
use mut.Counter.{Uint64, uint64, uint64_value, inc, lt}
use mut.Counter.Laws.{struct_ops, struct_laws, inc_carry, lt_misses}
use mut.Backtrace.Store.{Store, count_at, share, close, close-share_counts}
use mut.Resources.Defs.{ActionId, Resources, find, lookup, insert, delete, mark_as_free}
use mut.Resources.Iter.{drain, selected, drain-selected}
use mut.Resources.Count.{active, consumed, IsValid, insert-IsValid, delete-IsValid}
use mut.Resources.Counted.{Counted, delete-Counted}
use mut.Resources.Lookup.{remains, delete-lookup}
use mut.Exec.Symtab.{Fun, Line, find_fun, place_fun}
use mut.Exec.Floor.{floor, find_fun-floor}
use mut.Manager.State.{Stats}
use mut.Manager.Stats.{collect, release}
use mut.Manager.Peaks.{Peaks, collect-Peaks, release-Peaks}
use mut.Manager.Zones.{
  checked_post_zone, installed_post_zone, zone_size, round_up, calloc_zones, post_zone_malloc,
  post_zone_calloc,
}
use mut.Tests.Sample.{block, freed_block, three_blocks, three_blocks-IsValid, three_funs, fun_at}

abbrev no_backtraces : Store
no_backtraces = record { next = 1; cell = λ _. none }

-- The table after the object at 0x10 has been freed.
abbrev after_free : Resources
after_free = record {
  elems = block 0x30 ∷ freed_block 0x20 ∷ freed_block 0x10 ∷ [];
  n_active = 1;
  n_consumed = 2;
  really_free = false;
}

found_0x10 : find 0x10 three_blocks.elems ≡ some (block 0x10)
unfolding find
found_0x10 = refl

looked_up : lookup three_blocks 0x10 ≡ some (block 0x10)
unfolding lookup
looked_up = found_0x10

freed_0x10 :
    delete (block 0x10) ActionId.free 0 three_blocks no_backtraces
    ≡ some (after_free, no_backtraces)
unfolding delete mark_as_free
freed_0x10 = refl

delete-lookup_example :
    (rs' : Resources) × (bts' : Store) × (delete
        (block 0x10)
        ActionId.free
        0
        three_blocks
        no_backtraces
      ≡ some (rs', bts'))
    × ((b : ℕ)
        → lookup rs' b ≡ (
            if 0x10 == b
            then remains false ActionId.free 0 (block 0x10)
            else lookup three_blocks b))
delete-lookup_example =
    delete-lookup (block 0x10) ActionId.free 0 three_blocks no_backtraces three_blocks-IsValid
      looked_up refl (inl refl) (inl refl)

delete-IsValid_example : IsValid after_free
delete-IsValid_example =
    delete-IsValid (block 0x10) ActionId.free 0 three_blocks no_backtraces after_free no_backtraces
      three_blocks-IsValid found_0x10 freed_0x10

three_blocks-Counted : Counted three_blocks
unfolding active consumed
three_blocks-Counted = record {
  active_count = refl;
  consumed_count = refl;
  mode = λ h. ground arith;
}

delete-Counted_example : Counted after_free × (false ≡ false)
delete-Counted_example =
    delete-Counted (block 0x10) ActionId.free 0 three_blocks no_backtraces after_free no_backtraces
      three_blocks-Counted looked_up freed_0x10

no_0x40 : find 0x40 three_blocks.elems ≡ none
unfolding find
no_0x40 = refl

insert-IsValid_example : IsValid (insert 5 0x40 three_blocks)
insert-IsValid_example =
    insert-IsValid 5 0x40 three_blocks three_blocks-IsValid no_0x40 (omega arith)

drain-selected_example :
    drain 4 (record { elem = three_blocks.elems; all = false }) ≡ selected false three_blocks.elems
drain-selected_example = drain-selected 4 false three_blocks.elems (omega arith)

find_fun-floor_example : find_fun 0x2345 three_funs ≡ floor 0x2345 three_funs
find_fun-floor_example = find_fun-floor 0x2345 three_funs (omega arith, (omega arith, tt))

abbrev four_funs : List Fun
four_funs =
    fun_at "malloc" 0x1000
    ∷ fun_at "calloc" 0x1800
    ∷ fun_at "free" 0x2000
    ∷ fun_at "main" 0x3000
    ∷ []

placed : place_fun (fun_at "calloc" 0x1800) three_funs ≡ some four_funs
unfolding place_fun
placed = refl

abbrev line_at : ℕ → ℕ → Line
line_at a n = record { line_addr = a; line_number = n }

-- One object of 8 bytes in use; two were in use at the peak.
abbrev some_stats : Stats Uint64
some_stats = record {
  now = record { space = uint64 0 8; count = uint64 0 1 };
  total = record { space = uint64 0 24; count = uint64 0 2 };
  max_space = record { space = uint64 0 24; count = uint64 0 2 };
  max_count = record { space = uint64 0 24; count = uint64 0 2 };
}

some_stats-Peaks : Peaks (struct_ops 9) (struct_laws 9) some_stats
unfolding struct_laws
some_stats-Peaks = record {
  space_peak = omega arith;
  count_peak = omega arith;
  space_total = omega arith;
  count_total = omega arith;
  space_limit = omega arith;
  count_limit = omega arith;
}

collect-Peaks_example :
    Peaks (struct_ops 9) (struct_laws 9) (collect (struct_ops 9) 40 some_stats)
    × ((struct_laws 9).value (collect (struct_ops 9) 40 some_stats).now.space ≡ 48)
    × ((struct_laws 9).value (collect (struct_ops 9) 40 some_stats).now.count ≡ 2)
unfolding struct_laws
collect-Peaks_example =
    collect-Peaks (struct_ops 9) (struct_laws 9) 40 some_stats some_stats-Peaks (omega arith)
      (omega arith)

release-Peaks_example :
    (t : Stats Uint64) × (release (struct_ops 9) 8 some_stats ≡ some t)
    × Peaks (struct_ops 9) (struct_laws 9) t
    × ((struct_laws 9).value t.now.space ≡ 0)
    × ((struct_laws 9).value t.now.count ≡ 0)
unfolding struct_laws
release-Peaks_example =
    release-Peaks (struct_ops 9) (struct_laws 9) 8 some_stats some_stats-Peaks (omega arith)
      (omega arith)

post_zone_malloc_example :
    let post = installed_post_zone 0x1000 (round_up 10) in
    let end_of_object = 0x1000 + zone_size + 10 in
    (checked_post_zone (add32 0x1000 zone_size) 10 ≡ post)
    × (end_of_object ≤ post)
    × (post < end_of_object + zone_size)
    × (post + zone_size ≡ 0x1000 + round_up 10)
    × (post % zone_size ≡ 0x1000 % zone_size)
post_zone_malloc_example = post_zone_malloc 0x1000 10 (omega arith)

post_zone_calloc_example :
    (checked_post_zone (add32 0x1000 zone_size) (2 * 4)
      ≡ installed_post_zone 0x1000 (mul32 (calloc_zones 2 4) zone_size))
    ↔ (2 * 4 % 4 ≢ 0)
post_zone_calloc_example = post_zone_calloc 0x1000 2 4 (omega arith) (omega arith)

-- Backtrace 1 is referred to twice.
abbrev one_backtrace : Store
one_backtrace = record {
  next = 2;
  cell = λ p. if p == 1 then some (record { ref_count = 2; frames = [] }) else none;
}

live_one : 0 < count_at 1 one_backtrace
unfolding count_at
live_one = omega arith

small_one : count_at 1 one_backtrace + 1 < 4294967296
unfolding count_at
small_one = omega arith

close-share_counts_example :
    (t u : Store) × (share 1 one_backtrace ≡ some t)
    × (close 1 t ≡ some u)
    × (count_at 1 u ≡ count_at 1 one_backtrace)
close-share_counts_example = close-share_counts 1 1 one_backtrace live_one small_one

abbrev none_yet : ℕ
none_yet = 0

inc_carry_example :
    ((inc none_yet (uint64 1 0xFFFFFFFF) 2).lo ≡ (0xFFFFFFFF + 2) % 2 ^ 32)
    × ((uint64_value (inc none_yet (uint64 1 0xFFFFFFFF) 2)
          ≡ uint64_value (uint64 1 0xFFFFFFFF) + 2)
        ↔ (none_yet ≡ 1))
inc_carry_example =
    inc_carry 0 (uint64 1 0xFFFFFFFF) 2 (omega arith) (omega arith) (omega arith) (omega arith)
      (omega arith)

lt_misses_example :
    (lt (uint64 0 9) (uint64 1 3) ≡ ltb (uint64_value (uint64 0 9)) (uint64_value (uint64 1 3)))
    ↔ ((1 ≤ 0) ⊎ (9 < 3))
lt_misses_example = lt_misses (uint64 0 9) (uint64 1 3) (omega arith) (omega arith)
