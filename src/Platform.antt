-- ===== src/Platform.antt =====
-- The peripherals of vp/src/platform.
pub mod Scan
pub mod IrqBits
pub mod Fe310Plic
pub mod Fu540Plic
pub mod Clint
pub mod Slip
pub mod Memory
pub mod Registers
pub mod Bus
pub mod Dma
pub mod Sharing
pub mod Banks
pub mod Spi
pub mod Tests
