-- ===== src/Manager/SteadyReports.antt =====
-- src/mut.c: the records and reports come to an end.
use mut.Base.{
  ℕ, String, List, [], ◌∷◌, Cmd, halted, ◌>>◌, Lasts-option, lasts_ok, lasts_halt, lasting,
}
use mut.Machine.{Os, Machine}
use mut.Log.{log_string, log_exec_addr}
use mut.Exec.{Exec, addr_name}
use mut.Resources.Defs.{ActionId, Resource, Resources, Owner}
use mut.Manager.Reports.Tables.{
  View, log_frame, log_frames, log_backtrace, maybe_backtrace, log_owner, report_each, report_usage,
}
use mut.Manager.Reports.Calls.{
  log_uints, alloc_failure, alloc_trace, log_clash, log_fum, log_ffm, log_wum, free_trace,
  log_realloc_failure, realloc_trace, realloc_fum_trace,
}
use mut.Process.Steady.{Steady, Runs, Holds, logging}

module _ {W : Type 0} {os : Os W} {P : W → Type 0} (steady : Steady os P) where
  pub log_frame-Lasts : (e : Exec) (a : ℕ) (m : Machine W) → Holds P m → Runs P (log_frame os e a m)
  unfolding log_frame
  log_frame-Lasts e a m p =
      let unnamed : Cmd (Machine W) (Unit {0}) = (do log_string os "?"; log_exec_addr os a) in
      Lasts-option (addr_name e a) unnamed _ (search (lasting, logging) depth 14)
        (λ f. search (lasting, logging) depth 14)

  log_frames-Lasts :
      (e : Exec) (l : List ℕ) (m : Machine W) → Holds P m → Runs P (log_frames os e l m)
  unfolding log_frames
  log_frames-Lasts e [] m p = lasts_ok p
  log_frames-Lasts e (x ∷ l) m p =
      search (lasting, logging, log_frame-Lasts, log_frames-Lasts e l) depth 18

  pub maybe_backtrace-Lasts :
      (v : View) (bt : ℕ) (m : Machine W) → Holds P m → Runs P (maybe_backtrace os v bt m)
  unfolding maybe_backtrace log_backtrace
  maybe_backtrace-Lasts v bt m p = search (lasting, logging, log_frames-Lasts) depth 14

  pub log_owner-Lasts :
      (v : View) (o : Owner) (m : Machine W) → Holds P m → Runs P (log_owner os v o m)
  unfolding log_owner
  log_owner-Lasts v o m p =
      Lasts-option o.action halted _ (lasts_halt p) (λ id. search (lasting, logging) depth 14)

  report_each-Lasts :
      (v : View) (l : List Resource) (m : Machine W) → Holds P m → Runs P (report_each os v l m)
  unfolding report_each
  report_each-Lasts v [] m p = lasts_ok p
  report_each-Lasts v (x ∷ l) m p =
      search (lasting, logging, log_owner-Lasts, maybe_backtrace-Lasts, report_each-Lasts v l) depth
        18

  pub report_usage-Lasts :
      (v : View) (rs : Resources) (m : Machine W) → Holds P m → Runs P (report_usage os v rs m)
  unfolding report_usage
  report_usage-Lasts v rs m p = search (lasting, logging, report_each-Lasts) depth 14

  pub log_uints-Lasts : (l : List ℕ) (m : Machine W) → Holds P m → Runs P (log_uints os l m)
  unfolding log_uints
  log_uints-Lasts [] m p = lasts_ok p
  log_uints-Lasts (n ∷ l) m p = search (lasting, logging, log_uints-Lasts l) depth 14

  ruleset parts = (maybe_backtrace-Lasts, log_owner-Lasts, log_uints-Lasts)

  pub alloc_failure-Lasts :
      (v : View) (c : String) (id : ActionId) (l : List ℕ) (bt : ℕ) (m : Machine W)
      → Holds P m
      → Runs P (alloc_failure os v c id l bt m)
  unfolding alloc_failure
  alloc_failure-Lasts v c id l bt m p = search (lasting, logging, parts) depth 24

  pub alloc_trace-Lasts :
      (v : View) (id : ActionId) (l : List ℕ) (a bt : ℕ) (m : Machine W)
      → Holds P m
      → Runs P (alloc_trace os v id l a bt m)
  unfolding alloc_trace
  alloc_trace-Lasts v id l a bt m p = search (lasting, logging, parts) depth 24

  pub log_clash-Lasts :
      (v : View) (c : String) (id : ActionId) (r : Resource) (a : ℕ) (m : Machine W)
      → Holds P m
      → Runs P (log_clash os v c id r a m)
  unfolding log_clash
  log_clash-Lasts v c id r a m p = search (lasting, logging, parts) depth 24

  pub log_fum-Lasts :
      (v : View) (a : ℕ) (id : ActionId) (bt : ℕ) (m : Machine W)
      → Holds P m
      → Runs P (log_fum os v a id bt m)
  unfolding log_fum
  log_fum-Lasts v a id bt m p = search (lasting, logging, parts) depth 24

  pub log_ffm-Lasts :
      (v : View) (a : ℕ) (id : ActionId) (r : Resource) (bt : ℕ) (m : Machine W)
      → Holds P m
      → Runs P (log_ffm os v a id r bt m)
  unfolding log_ffm
  log_ffm-Lasts v a id r bt m p = search (lasting, logging, parts) depth 24

  pub log_wum-Lasts :
      (v : View) (a z w : ℕ) (id : ActionId) (r : Resource) (bt : ℕ) (m : Machine W)
      → Holds P m
      → Runs P (log_wum os v a z w id r bt m)
  unfolding log_wum
  log_wum-Lasts v a z w id r bt m p = search (lasting, logging, parts) depth 24

  pub log_realloc_failure-Lasts :
      (v : View) (a b c bt : ℕ) (m : Machine W)
      → Holds P m
      → Runs P (log_realloc_failure os v a b c bt m)
  unfolding log_realloc_failure
  log_realloc_failure-Lasts v a b c bt m p = search (lasting, logging, parts) depth 24

  pub realloc_trace-Lasts :
      (v : View) (a b c d bt : ℕ) (m : Machine W)
      → Holds P m
      → Runs P (realloc_trace os v a b c d bt m)
  unfolding realloc_trace
  realloc_trace-Lasts v a b c d bt m p = search (lasting, logging, parts) depth 24

  pub realloc_fum_trace-Lasts :
      (v : View) (a n : ℕ) (m : Machine W) → Holds P m → Runs P (realloc_fum_trace os v a n m)
  unfolding realloc_fum_trace
  realloc_fum_trace-Lasts v a n m p = search (lasting, logging, parts) depth 24

  pub free_trace-Lasts :
      (v : View) (id : ActionId) (a : ℕ) (more : Cmd (Machine W) (Unit {0})) (m : Machine W)
      → ((n : Machine W) → Holds P n → Runs P (more n))
      → Holds P m
      → Runs P (free_trace os v id a more m)
  unfolding free_trace
  free_trace-Lasts v id a more m k p = search (lasting, logging) depth 18

  pub ruleset reports = (
    report_usage-Lasts, alloc_failure-Lasts, alloc_trace-Lasts, log_clash-Lasts, log_fum-Lasts,
    log_ffm-Lasts, log_wum-Lasts, log_realloc_failure-Lasts, realloc_trace-Lasts,
    realloc_fum_trace-Lasts, free_trace-Lasts,
  )
