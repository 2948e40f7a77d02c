-- ===== src/Platform/Clint.antt =====
-- The core-local interruptor of vp/src/core/common/clint.h: the timer and software interrupts of
-- each hart. The register arrays are functions of the index and hold 64-bit and 32-bit words; an index out of
-- range is `none`. Times are in the kernel's picoseconds. `irq_event` is the time for which a notification is
-- pending, and `notify`, which combines it with a further one, belongs to the SystemC kernel. The delay
-- that `transport` adds is part of the times that the callbacks get.
pub mod Timer
pub mod Transport
pub mod Software
pub mod Tests
use dse_vp.Base.{
  ℕ, zero, suc, ◌+◌, ◌-◌, ◌*◌, ◌/◌, ◌%◌, ◌^◌, Bool, true, false, not, ◌&&◌, Option, none, some, ltb,
  leb, ◌==◌, if◌then◌else◌, bit_and,
}
use dse_vp.Core.Trap.{Hart, trigger_timer_interrupt, trigger_software_interrupt}

pub record Clint : Type 0 where
  pub mtime : ℕ
  pub mtimecmp : ℕ → ℕ
  pub msip : ℕ → ℕ
  pub target_harts : ℕ → Hart
  pub irq_event : Option ℕ

abbrev pub scaler : ℕ
scaler = 1000000

-- `now` is the kernel's time.
unfoldable pub update_and_get_mtime : ℕ → Clint → Clint
update_and_get_mtime now s =
    let time = now / scaler in if ltb s.mtime time then record s { mtime = time } else s

abbrev pub set_timer : ℕ → Bool → Clint → Clint
set_timer i b s = record s {
  target_harts =
      λ n. if n == i then trigger_timer_interrupt b (s.target_harts n) else s.target_harts n;
}

-- `goal - time`, of two 64-bit times.
abbrev pub delay_until : ℕ → ℕ → ℕ
delay_until cmp mtime = (cmp * scaler % 2 ^ 64 + 2 ^ 64 - mtime * scaler % 2 ^ 64) % 2 ^ 64

unfoldable pub pre_read_mtime : ℕ → ℕ → Clint → Clint
pre_read_mtime now delay s = record s { mtime = (now + delay) % 2 ^ 64 / scaler }

module _ (number_of_cores : ℕ) where
  unfoldable pub post_write_msip : ℕ → Clint → Option Clint
  post_write_msip addr s =
      let idx = addr / 4 in
      if addr % 4 == 0 && ltb idx number_of_cores
      then some (record s {
        msip = λ n. if n == idx then bit_and (s.msip n) 1 else s.msip n;
        target_harts = λ n.
            if n == idx
            then trigger_software_interrupt (not (bit_and (s.msip n) 1 == 0)) (s.target_harts n)
            else s.target_harts n;
      })
      else none

module _ (notify : Option ℕ → ℕ → Option ℕ) where
  unfoldable pub post_write_mtimecmp : ℕ → ℕ → Clint → Clint
  post_write_mtimecmp now delay s = record s { irq_event = notify s.irq_event (now + delay) }

  -- One pass of the thread's loop.
  unfoldable pub update_timer : ℕ → ℕ → Clint → Clint
  update_timer now i s =
      let cmp = s.mtimecmp i in
      if ltb 0 cmp && leb cmp s.mtime
      then set_timer i true s
      else if ltb 0 cmp && ltb cmp (2 ^ 64 - 1)
      then record (set_timer i false s) {
        irq_event = notify s.irq_event (now + delay_until cmp s.mtime);
      }
      else set_timer i false s

  unfoldable pub update_timers : ℕ → ℕ → ℕ → Clint → Clint
  update_timers now zero i s = s
  update_timers now (suc left) i s = update_timers now left (i + 1) (update_timer now i s)

  -- The thread from a notification to the next wait.
  unfoldable pub run : ℕ → ℕ → Clint → Clint
  run number_of_cores now s =
      update_timers now number_of_cores 0 (update_and_get_mtime now (record s { irq_event = none }))
