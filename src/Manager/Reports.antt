-- ===== src/Manager/Reports.antt =====
-- The log records of src/mut.c. Each reads the manager's state and writes to the log alone.
pub mod Tables
pub mod Calls
pub use Tables.{View}
unfoldable pub use Tables.{
  log_frame, log_frames, log_backtrace, maybe_backtrace, log_owner, report_each, report_usage,
  leak_each, log_leaks,
}
unfoldable pub use Calls.{
  log_uints, alloc_failure, alloc_trace, log_clash, log_fum, log_ffm, log_wum, free_trace,
  log_realloc_failure, realloc_trace, realloc_fum_trace, log_counter, log_stats,
}
