-- ===== src/Manager/Ending.antt =====
-- src/mut.c: the handlers of the manager come to an end.
pub mod Objects
pub mod Moved
pub mod Whole
pub mod Loop
