-- ===== src/Bridge.antt =====
-- The bridge between the DMA controller and the devices, qemu/overlay/hw/dma/bbk9588_dma_bridge.c.
pub mod Host
pub mod Card
pub mod Command
mod Tests
