-- ===== src/Tcu.antt =====
-- The timer and counter unit, qemu/overlay/hw/timer/jz4740_tcu.c.
pub mod Counter
pub mod Deadline
pub mod Channel
pub mod Registers
pub mod Match
pub mod Latch
pub mod Frame
pub mod Outputs
pub mod Flags
pub mod Schedule
pub mod Forget
mod Tests
