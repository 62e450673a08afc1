-- ===== src/Machine.antt =====
-- The machine that MUT runs on: what the operating system does for it, which is not code of the
-- repository and enters as the parameter `Os`, and the part of MUT's own state that only the
-- tracing and logging layers touch (`struct mut_log`, `struct mut_process`).
mod System
mod State
pub use System.*
pub use State.*
