-- ===== src/Platform/Registers.antt =====
-- Ranges of registers, vp/src/util/memory_map.h: what a peripheral maps to addresses, with the callbacks
-- around an access, and the routing of an access to a range. The bytes of a range are a part of the platform's
-- state `M`, which the callbacks change, too. A failed assertion and a thrown error are `failure`, also of
-- a callback, which has no result then; a callback that is not set is one that allows the access. Delays are left out.
pub mod Access
use dse_vp.Base.{
  ℕ, zero, suc, ◌+◌, ◌-◌, ◌%◌, Bool, true, false, not, ◌&&◌, ◌||◌, Option, none, some, List, [],
  ◌∷◌, length, leb, ◌==◌, if◌then◌else◌,
}
use dse_vp.Tlm.{Response, ok, address_error, failure, Target, Part}
use dse_vp.Tlm.Bytes.{load, store, to_word, to_bytes}

-- A callback gets the offset in the range and the size of the access; one before an access says
-- whether the access goes on.
pub record RegisterRange (M : Type 0) : Type 0 where
  pub start : ℕ
  pub end : ℕ
  pub mem : Part M (ℕ → ℕ)
  pub readonly : Bool
  pub alignment : ℕ
  pub pre_write_callback : ℕ → ℕ → M → Option (Bool × M)
  pub post_write_callback : ℕ → ℕ → M → Option M
  pub pre_read_callback : ℕ → ℕ → M → Option (Bool × M)
  pub post_read_callback : ℕ → ℕ → M → Option M

-- A callback that is not set.
abbrev pub no_pre : {M : Type 0} → ℕ → ℕ → M → Option (Bool × M)
no_pre addr size m = some (true, m)

abbrev pub no_post : {M : Type 0} → ℕ → ℕ → M → Option M
no_post addr size m = some m

module _ {M : Type 0} where
  abbrev pub contains : RegisterRange M → ℕ → Bool
  contains r addr = leb r.start addr && leb addr r.end

  abbrev pub to_local : RegisterRange M → ℕ → ℕ
  to_local r addr = addr - r.start

  -- `local_addr + len <= mem.size()`.
  abbrev pub fits : RegisterRange M → ℕ → ℕ → Bool
  fits r addr len = contains r addr && leb (to_local r addr + len) (r.end - r.start + 1)

  -- A read that a callback stops leaves the bytes of the payload, `data`, as they are.
  unfoldable pub read : RegisterRange M → ℕ → List ℕ → M → Response (List ℕ × M)
  read r addr payload m =
      let local = to_local r addr in
      let len = length payload in
      if fits r addr len
      then elim (r.pre_read_callback local len m) [
        | none ↦ failure
        | some (false, m') ↦ ok (payload, m')
        | some (true, m') ↦
            let bs = load len local (r.mem.view m') in
            elim (r.post_read_callback local len m') [ none ↦ failure | some m'' ↦ ok (bs, m'') ]
      ]
      else failure

  unfoldable pub write : RegisterRange M → ℕ → List ℕ → M → Response M
  write r addr src m =
      let local = to_local r addr in
      let len = length src in
      if fits r addr len
      then elim (r.pre_write_callback local len m) [
        | none ↦ failure
        | some (false, m') ↦ ok m'
        | some (true, m') ↦
            elim (r.post_write_callback local len
              (r.mem.update (store local src (r.mem.view m')) m')) [
                | none ↦ failure
                | some m'' ↦ ok m''
              ]
      ]
      else failure

  abbrev pub aligned : RegisterRange M → ℕ → ℕ → Bool
  aligned r addr len = addr % r.alignment == 0 && len % r.alignment == 0

  unfoldable pub process_read : RegisterRange M → ℕ → List ℕ → M → Response (List ℕ × M)
  process_read r addr payload m =
      if aligned r addr (length payload) then read r addr payload m else failure

  unfoldable pub process_write : RegisterRange M → ℕ → List ℕ → M → Response M
  process_write r addr src m =
      if aligned r addr (length src) && not r.readonly then write r addr src m else failure

  -- The first range with the address takes the access.
  unfoldable pub route_read : List (RegisterRange M) → ℕ → List ℕ → M → Response (List ℕ × M)
  route_read [] addr payload m = failure
  route_read (r ∷ rs) addr payload m =
      let rest = route_read rs addr payload m in
      if contains r addr then process_read r addr payload m else rest

  unfoldable pub route_write : List (RegisterRange M) → ℕ → List ℕ → M → Response M
  route_write [] addr src m = failure
  route_write (r ∷ rs) addr src m =
      let rest = route_write rs addr src m in
      if contains r addr then process_write r addr src m else rest
