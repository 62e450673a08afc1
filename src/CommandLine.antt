-- ===== src/CommandLine.antt =====
-- src/ui/tty/mut_ui.c: the command line.
mod Args
mod Printed
mod Fatal
mod Endings
mod Main
mod Refusal
unfoldable pub use Args.*
unfoldable pub use Printed.*
unfoldable pub use Fatal.*
unfoldable pub use Endings.*
unfoldable pub use Main.*
unfoldable pub use Refusal.*
