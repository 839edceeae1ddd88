-- ===== src/Bits.antt =====
-- Bit operations of C on unsigned words, read bit by bit.
mod Step
mod Laws
mod Sum
mod Flags
pub use Laws.*
pub use Sum.*
pub use Flags.*
