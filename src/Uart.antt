-- ===== src/Uart.antt =====
-- The serial port, qemu/overlay/hw/char/jz4740_uart.c.
pub mod State
pub mod Fifo
pub mod Registers
pub mod Queue
pub mod Status
pub mod Range
pub mod Line
pub mod Access
mod Tests
