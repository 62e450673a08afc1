-- ===== src/Tests/Leaks.antt =====
-- The leaks of a small table, as src/mut.c reports them.
use mut.Base.{refl, false, [], ◌∷◌}
use mut.Machine.{error, str, ulong, hex, newline}
use mut.Log.Writing.{sound, Leaves}
use mut.Resources.Iter.{selected}
use mut.Manager.Common.{view}
use mut.Manager.Reports.{log_leaks}
use mut.Manager.Leaks.{leak_items, trace_items, log_leaks-reports}
use mut.Tests.Sample.{toy_os, toy_machine, toy_state, three_blocks}

-- Two of the three objects are in use; the last record stands in front.
log_leaks-reports_example :
    Leaves
      (sound "mut" false (
        newline
        ∷ hex 0x10
        ∷ ulong 8
        ∷ str "malloc"
        ∷ error "mut" "MLK"
        ∷ newline
        ∷ hex 0x30
        ∷ ulong 8
        ∷ str "malloc"
        ∷ error "mut" "MLK"
        ∷ []))
      (log_leaks toy_os (view toy_state) three_blocks toy_machine)
unfolding selected leak_items trace_items
log_leaks-reports_example =
    log_leaks-reports toy_os (λ item w. refl) (view toy_state) three_blocks [] toy_machine
      (λ e. cc, λ e. absurd cc, (λ e. cc, λ e. absurd cc, tt)) refl
