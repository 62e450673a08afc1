-- ===== src/Backtrace.antt =====
-- src/backtrace/fixed: reference-counted backtraces of bounded length.
pub mod Frames
pub mod Store
