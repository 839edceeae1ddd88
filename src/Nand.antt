-- ===== src/Nand.antt =====
-- The raw NAND device of the board, qemu/overlay/hw/block/bbk9588_nand.c: its command, address and
-- data windows, the page buffers, and the raw image behind them.
pub mod State
pub mod Read
pub mod Program
pub mod Flush
pub mod Bus
mod Tests
