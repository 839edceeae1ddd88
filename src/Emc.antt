-- ===== src/Emc.antt =====
-- The memory controller's NAND error correction, qemu/overlay/hw/mem/jz4740_emc.c.
pub mod State
pub mod Registers
pub mod Line
pub mod Block
mod Tests
