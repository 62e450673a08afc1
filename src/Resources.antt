-- ===== src/Resources.antt =====
-- src/resources/list/mut_resources.c, the default of the build: the objects that the target has
-- allocated, in a linked list, the newest first.
pub mod Defs
pub mod Iter
pub mod Count
pub mod Lookup
pub mod Counted
