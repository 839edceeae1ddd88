-- ===== src/Cpm.antt =====
-- The clock and power manager, qemu/overlay/hw/misc/jz4740_cpm.c.
pub mod Registers
pub mod Masks
mod Tests
