-- ===== src/Msc.antt =====
-- The SD and MMC controller, qemu/overlay/hw/sd/jz4740_msc.c.
pub mod State
pub mod Registers
pub mod Signal
