-- ===== src/Platform/Memory.antt =====
-- The memory of vp/src/platform/common/memory.h, as an array of bytes. An access past its end,
-- which the sum of 32-bit numbers in the assertion may miss, is a failure. Traces and delays are left out.
use dse_vp.Base.{ℕ, ◌+◌, List, length, replicate, ltb, leb, if◌then◌else◌, u32}
use dse_vp.Tlm.{Response, ok, address_error, failure, Target}
use dse_vp.Tlm.Bytes.{load, store}

module _ (size : ℕ) where
  unfoldable pub load_data : List ℕ → ℕ → (ℕ → ℕ) → Response (ℕ → ℕ)
  load_data src dst_addr m =
      if leb (dst_addr + length src) size then ok (store dst_addr src m) else failure

  unfoldable pub load_zero : ℕ → ℕ → (ℕ → ℕ) → Response (ℕ → ℕ)
  load_zero dst_addr n m =
      if leb (dst_addr + n) size then ok (store dst_addr (replicate n 0) m) else failure

  unfoldable pub write_data : ℕ → List ℕ → (ℕ → ℕ) → Response (ℕ → ℕ)
  write_data addr src m = if leb (addr + length src) size then ok (store addr src m) else failure

  unfoldable pub read_data : ℕ → ℕ → (ℕ → ℕ) → Response (List ℕ)
  read_data addr num_bytes m =
      if leb (addr + num_bytes) size then ok (load num_bytes addr m) else failure

  -- The address is truncated to 32 bits. Every access that returns is `TLM_OK_RESPONSE`, the
  -- initiator's own response status, also a write of a memory that is `read_only`.
  unfoldable pub transport : Target (ℕ → ℕ)
  transport = record {
    read = λ addr n m.
        if ltb (u32 addr) size
        then elim (read_data (u32 addr) n m) [
          | ok bs ↦ ok (bs, m)
          | address_error ↦ address_error
          | failure ↦ failure
        ]
        else failure;
    write = λ addr bs m. if ltb (u32 addr) size then write_data (u32 addr) bs m else failure;
  }
