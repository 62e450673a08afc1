-- ===== src/Manager.antt =====
-- src/mut.c: the manager, which runs the target, stops it at each call of an allocation routine,
-- and keeps the table of what is allocated.
pub mod State
pub mod Reports
pub mod Stats
pub mod Peaks
pub mod Zones
pub mod Common
pub mod Producers
pub mod Consumer
pub mod Realloc
pub mod Actions
pub mod Run
pub mod Frame
pub mod Refused
pub mod Recorded
pub mod SteadyReports
pub mod Patient
pub mod Leaks
pub mod Ending
pub mod Invariant
