-- ===== src/Crypto.antt =====
-- The SM3 and SM4 accelerators of vp/src/platform/tiny32 and the coprocessor of
-- vp/src/core/rv32/nice.h.
pub mod Tables
pub mod Feistel
pub mod Sm3
pub mod Sm4
pub mod Nice
pub mod Tests
