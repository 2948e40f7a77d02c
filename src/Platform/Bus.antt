-- ===== src/Platform/Bus.antt =====
-- The bus of vp/src/platform/common/bus.h, the adapter for components that write to it, and the lock
-- that a processor holds. A port's socket is a target of the platform's state. The activity of the
-- power model is left out.
pub mod Routing
pub mod Tests
use dse_vp.Base.{
  ℕ, ◌-◌, Bool, true, false, not, ◌&&◌, Option, none, some, List, [], ◌∷◌, leb, ◌==◌, if◌then◌else◌,
}
use dse_vp.Tlm.{Response, ok, address_error, failure, Target}

pub record PortMapping : Type 0 where
  pub start : ℕ
  pub end : ℕ

abbrev pub contains : PortMapping → ℕ → Bool
contains p addr = leb p.start addr && leb addr p.end

abbrev pub global_to_local : PortMapping → ℕ → ℕ
global_to_local p addr = addr - p.start

pub record Port (M : Type 0) : Type 0 where
  pub mapping : PortMapping
  pub socket : Target M

-- An address error is a `runtime_error`.
abbrev pub found : {A : Type 0} → Response A → Response A
found (ok r) = ok r
found address_error = failure
found failure = failure

module _ {M : Type 0} where
  -- The port itself, where the source returns its index or -1.
  unfoldable pub decode : List (Port M) → ℕ → Option (Port M)
  decode [] addr = none
  decode (p ∷ ports) addr =
      let rest = decode ports addr in if contains p.mapping addr then some p else rest

  -- The access of the port that was found.
  abbrev pub read_port : ℕ → ℕ → M → Option (Port M) → Response (List ℕ × M)
  read_port addr n m none = address_error
  read_port addr n m (some p) = p.socket.read (global_to_local p.mapping addr) n m

  abbrev pub write_port : ℕ → List ℕ → M → Option (Port M) → Response M
  write_port addr bs m none = address_error
  write_port addr bs m (some p) = p.socket.write (global_to_local p.mapping addr) bs m

  unfoldable pub transport : List (Port M) → Target M
  transport ports = record {
    read = λ addr n m. read_port addr n m (decode ports addr);
    write = λ addr bs m. write_port addr bs m (decode ports addr);
  }

  -- `PeripheralWriteConnector::transport`, once the bus is unlocked.
  unfoldable pub connect : Target M → Target M
  connect t = record {
    read = λ addr n m. found (t.read addr n m);
    write = λ addr bs m. found (t.write addr bs m);
  }

pub record BusLock : Type 0 where
  pub locked : Bool
  pub owner : ℕ

abbrev pub is_locked_by : ℕ → BusLock → Bool
is_locked_by hart_id l = l.locked && l.owner == hart_id

-- No result where the caller waits for another owner.
unfoldable pub lock : ℕ → BusLock → Option BusLock
lock hart_id l =
    if l.locked && not (l.owner == hart_id)
    then none
    else some (record { locked = true; owner = hart_id })

unfoldable pub unlock : ℕ → BusLock → BusLock
unlock hart_id l = if is_locked_by hart_id l then record l { locked = false } else l
