-- ===== src/Sadc.antt =====
-- The touch and battery converter, qemu/overlay/hw/input/jz4740_sadc.c.
pub mod State
pub mod Touch
pub mod Registers
pub mod Armed
pub mod Progress
pub mod Samples
mod Tests
