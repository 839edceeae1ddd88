-- ===== src/Dmac.antt =====
-- The DMA controller, qemu/overlay/hw/dma/jz4740_dmac.c.
pub mod State
pub mod Channel
pub mod Transfer
pub mod Registers
pub mod Memory
pub mod Copy
pub mod Fill
pub mod Auto
pub mod Moved
pub mod Status
pub mod Errors
pub mod Stream
pub mod Chain
mod Tests
