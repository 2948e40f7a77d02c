-- ===== src/Core.antt =====
-- The processor of vp/src/core.
pub mod Trap
pub mod Instr
pub mod Opcode
pub mod Mmu
pub mod Exec
pub mod Timing
pub mod Tests
