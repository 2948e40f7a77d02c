-- ===== src/Platform/Sharing.antt =====
-- Several harts and peripherals on one bus: the accesses of vp/src/core/rv32/mem.h under the lock of
-- vp/src/platform/common/bus.h, and those of a peripheral behind its `PeripheralWriteConnector`. The harts have no
-- memory management unit and share the memory and the lock. `v2p` and the conversions of a word that is read are
-- left out.
pub mod Reservation
pub mod Tests
use dse_vp.Base.{
  ℕ, ◌≡◌, ◌≢◌, Bool, true, false, not, ◌&&◌, Option, none, some, List, ◌==◌, if◌then◌else◌,
}
use dse_vp.Tlm.{Response, ok, address_error, failure, Target}
use dse_vp.Core.Exec.Interface.{MemoryDmi, raw_load, raw_store}
use dse_vp.Platform.Bus.{BusLock, is_locked_by, lock, unlock, connect}

pub record Shared (M : Type 0) : Type 0 where
  pub bus_lock : BusLock
  pub lr_addr : ℕ → ℕ
  pub memory : M

-- An access returns, raises a trap, or is stopped: it waits for the lock, or an assertion fails.
pub data Outcome (M A : Type 0) : Type 0 where
  returned : A → Shared M → Outcome M A
  raised : Shared M → Outcome M A
  stopped : Outcome M A

-- What a hart does on the bus, with the sizes, addresses and values.
pub data Access : Type 0 where
  loads : ℕ → ℕ → Access
  stores : ℕ → ℕ → ℕ → Access
  atomic_loads : ℕ → Access
  atomic_stores : ℕ → ℕ → Access
  load_reserved : ℕ → Access
  store_conditional : ℕ → ℕ → Access
  releases : Access

-- `wait_for_access_rights` does not wait.
abbrev pub has_access : ℕ → BusLock → Bool
has_access hart l = if l.locked then is_locked_by hart l else true

module _ {M : Type 0} where
  unfoldable pub atomic_unlock : ℕ → Shared M → Shared M
  atomic_unlock hart s = record s { bus_lock = unlock hart s.bus_lock }

  abbrev pub after_load : Shared M → Response (ℕ × M) → Outcome M ℕ
  after_load s (ok (v, m)) = returned v (record s { memory = m })
  after_load s address_error = raised s
  after_load s failure = stopped

  -- A store gives the lock back.
  abbrev pub after_store : ℕ → Shared M → Response M → Outcome M (Unit {0})
  after_store hart s (ok m) = returned tt (atomic_unlock hart (record s { memory = m }))
  after_store hart s address_error = raised s
  after_store hart s failure = stopped

  abbrev pub conditional : Outcome M (Unit {0}) → Outcome M Bool
  conditional (returned v s) = returned true s
  conditional (raised s) = raised s
  conditional stopped = stopped

  abbrev pub completed : {A : Type 0} → Outcome M A → Option (Shared M)
  completed (returned v s) = some s
  completed (raised s) = some s
  completed stopped = none

  abbrev pub after_read : Shared M → Response (List ℕ × M) → Option (Shared M)
  after_read s (ok (bs, m)) = some (record s { memory = m })
  after_read s address_error = none
  after_read s failure = none

  abbrev pub after_write : Shared M → Response M → Option (Shared M)
  after_write s (ok m) = some (record s { memory = m })
  after_write s address_error = none
  after_write s failure = none

  -- The state in which the word of a load-reserved is read.
  abbrev pub reserved : ℕ → ℕ → BusLock → Shared M → Shared M
  reserved hart addr l s = record s {
    bus_lock = l;
    lr_addr = λ n. if n == hart then addr else s.lr_addr n;
  }

module _ {M : Type 0} (isock : Target M) where
  -- `wait_until_unlocked`, and the access of the peripheral.
  unfoldable pub peripheral_read : ℕ → ℕ → Shared M → Option (Shared M)
  peripheral_read addr n s =
      if s.bus_lock.locked then none else after_read s ((connect isock).read addr n s.memory)

  unfoldable pub peripheral_write : ℕ → List ℕ → Shared M → Option (Shared M)
  peripheral_write addr bs s =
      if s.bus_lock.locked then none else after_write s ((connect isock).write addr bs s.memory)

module _ {M : Type 0} (isock : Target M) (ranges : List (MemoryDmi M)) where
  unfoldable pub load : ℕ → ℕ → ℕ → Shared M → Outcome M ℕ
  load n hart addr s =
      if has_access hart s.bus_lock
      then after_load s (raw_load isock ranges n addr s.memory)
      else stopped

  unfoldable pub store : ℕ → ℕ → ℕ → ℕ → Shared M → Outcome M (Unit {0})
  store n hart addr value s =
      if has_access hart s.bus_lock
      then after_store hart s (raw_store isock ranges n addr value s.memory)
      else stopped

  unfoldable pub atomic_load_word : ℕ → ℕ → Shared M → Outcome M ℕ
  atomic_load_word hart addr s = elim (lock hart s.bus_lock) [
    | none ↦ stopped
    | some l ↦ load 4 hart addr (record s { bus_lock = l })
  ]

  unfoldable pub atomic_store_word : ℕ → ℕ → ℕ → Shared M → Outcome M (Unit {0})
  atomic_store_word hart addr value s =
      if is_locked_by hart s.bus_lock then store 4 hart addr value s else stopped

  unfoldable pub atomic_load_reserved_word : ℕ → ℕ → Shared M → Outcome M ℕ
  atomic_load_reserved_word hart addr s = elim (lock hart s.bus_lock) [
    | none ↦ stopped
    | some l ↦ load 4 hart addr (reserved hart addr l s)
  ]

  unfoldable pub atomic_store_conditional_word : ℕ → ℕ → ℕ → Shared M → Outcome M Bool
  atomic_store_conditional_word hart addr value s =
      if is_locked_by hart s.bus_lock
      then if addr == s.lr_addr hart
        then conditional (store 4 hart addr value s)
        else returned false (atomic_unlock hart s)
      else returned false s

  abbrev pub perform : ℕ → Access → Shared M → Option (Shared M)
  perform hart (loads n addr) s = completed (load n hart addr s)
  perform hart (stores n addr value) s = completed (store n hart addr value s)
  perform hart (atomic_loads addr) s = completed (atomic_load_word hart addr s)
  perform hart (atomic_stores addr value) s = completed (atomic_store_word hart addr value s)
  perform hart (load_reserved addr) s = completed (atomic_load_reserved_word hart addr s)
  perform hart (store_conditional addr value) s =
      completed (atomic_store_conditional_word hart addr value s)
  perform hart releases s = some (atomic_unlock hart s)

  -- Accesses that complete, in any order, of the other harts than `hart` and of peripherals.
  pub data Others (hart : ℕ) (s : Shared M) : Shared M → Type 0 where
    none_yet : Others hart s s
    by_hart :
        {t u : Shared M} (i : ℕ) (x : Access)
        → Others hart s t
        → i ≢ hart
        → perform i x t ≡ some u
        → Others hart s u
    by_read :
        {t u : Shared M} (addr n : ℕ)
        → Others hart s t
        → peripheral_read isock addr n t ≡ some u
        → Others hart s u
    by_write :
        {t u : Shared M} (addr : ℕ) (bs : List ℕ)
        → Others hart s t
        → peripheral_write isock addr bs t ≡ some u
        → Others hart s u
