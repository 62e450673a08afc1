-- ===== src/Memory.antt =====
-- src/mem/debug/mut_mem.c: the allocator that keeps a node for every block, in use or freed.
mod Defs
mod Operations
mod Close
mod Blocks
mod Valid
mod Steps
mod Spec
unfoldable pub use Defs.*
unfoldable pub use Operations.*
unfoldable pub use Close.*
unfoldable pub use Blocks.*
unfoldable pub use Valid.*
unfoldable pub use Steps.*
unfoldable pub use Spec.*
mod Forget
mod Refine
unfoldable pub use Forget.*
unfoldable pub use Refine.*
mod Closing
unfoldable pub use Closing.*
mod Moving
unfoldable pub use Moving.*
