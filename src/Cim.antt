-- ===== src/Cim.antt =====
-- The camera interface, qemu/overlay/hw/misc/jz4740_cim.c.
pub mod Registers
pub mod Idle
mod Tests
