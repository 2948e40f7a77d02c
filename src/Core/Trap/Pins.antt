-- ===== src/Core/Trap/Pins.antt =====
-- The interrupt pins: which bits of `mip` the devices drive.
use dse_vp.Base.{
  ℕ, ◌-◌, ◌^◌, ◌<◌, ◌≡◌, Bool, true, false, arith, ◌==◌, if◌then◌else◌, digit, and-digit, or-digit,
  pow-digit, not-digit, pow_small,
}
use dse_vp.Core.Trap.{
  Hart, machine_mode, assign_bit, trigger_external_interrupt, clear_external_interrupt,
}

pub assign_bit-digit :
    (w n j : ℕ) (b : Bool)
    → n < 32
    → j < 32
    → digit (assign_bit w n b) j ≡ (if j == n then (if b then 1 else 0) else digit w j)
assign_bit-digit w n j true p q = ground (arith, or-digit j w (2 ^ n), pow-digit n j)
assign_bit-digit w n j false p q = ground (
  arith,
  and-digit j w (2 ^ 32 - 1 - 2 ^ n),
  not-digit 32 j (2 ^ n) q (pow_small n p),
  pow-digit n j,
)

-- The pin of a hart in machine mode.
abbrev pub external_pin : Hart → ℕ
external_pin h = digit h.csrs.mip 11

pub trigger_external-pin : (h : Hart) → external_pin (trigger_external_interrupt machine_mode h) ≡ 1
unfolding trigger_external_interrupt
trigger_external-pin h = assign_bit-digit h.csrs.mip 11 11 true (omega arith) (omega arith)

pub clear_external-pin : (h : Hart) → external_pin (clear_external_interrupt machine_mode h) ≡ 0
unfolding clear_external_interrupt
clear_external-pin h = assign_bit-digit h.csrs.mip 11 11 false (omega arith) (omega arith)
