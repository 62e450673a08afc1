-- ===== src/Manager/Realloc.antt =====
-- realloc in src/mut.c.
mod Moving
mod Handler
unfoldable pub use Moving.{
  realloc_failure, enter_object, realloc_producer, report_realloc, realloc_malloc, reallocated,
  close_old, move_object, leave_object, move_entry, realloc_realloc,
}
unfoldable pub use Handler.{
  copy_object, hit_and_collect, fill_object, replace_object, realloc_realloc_no_free,
  realloc_malloc_no_free, run_realloc, realloc_unknown, realloc_known, realloc_null, realloc_addr,
  do_realloc,
}
