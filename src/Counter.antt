-- ===== src/Counter.antt =====
-- src/counter and src/uint64: the counters of the statistics. The build chooses one of three
-- representations; the rest of the program goes through the operations of `CounterOps`.
mod Defs
mod Bits
mod Nibbles
pub mod Decimal
mod Printing
mod Rounds
pub mod Quotient
pub mod Laws
pub use Defs.{CounterOps, CounterLaws, Uint64}
unfoldable pub use Defs.{uint64, uint64_value, from_uint, inc, dec, lt}
unfoldable pub use Printing.{udiv10, uint64_out, out_digits, divide_chunks, divide_chunk}
