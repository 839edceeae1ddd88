-- ===== src/Rtc.antt =====
-- The real-time clock, qemu/overlay/hw/rtc/jz4740_rtc.c: the seconds counter, the alarm, hibernation,
-- the register window and the interrupt line.
pub mod State
pub mod Registers
pub mod Signal
pub mod Seconds
pub mod Protect
mod Tests
