-- ===== src/Core/Exec.antt =====
-- The state of the RV32 instruction set simulator and its way to memory: the members of `ISS` in
-- vp/src/core/rv32/iss.h that instructions read and write, and `CombinedMemoryInterface` of
-- vp/src/core/rv32/mem.h. An operation is a function of the state that is done, raises a
-- `SimulationTrap`, or fails (a `runtime_error` or an assertion that does not hold); what was written
-- before a trap stays written. What lies behind the bus is an interface, with the target sockets and
-- the ranges of direct access. Tracing, the power model and the waiting for another processor's lock
-- are left out.
pub mod Laws
pub mod Operands
pub mod Csr
pub mod Step
pub mod Interface
pub mod Muldiv
pub mod Keeps
pub mod Tests
use dse_vp.Base.{
  ℕ, ◌+◌, ◌-◌, ◌*◌, ◌/◌, ◌%◌, ◌^◌, Bool, true, false, not, ◌&&◌, ◌||◌, Option, none, some, bit_and,
  ◌==◌, if◌then◌else◌, u32, digit,
}
use dse_vp.Tlm.{Response, ok, address_error, failure}
use dse_vp.Core.Trap.{Hart, SimulationTrap}
use dse_vp.Core.Opcode.{Mapping}
use dse_vp.Core.Mmu.{Access, Setting, Translation, translated, page_fault, failed}

-- The result of an operation of a state in `S`.
pub data Outcome (S A : Type 0) : Type 0 where
  done : A → S → Outcome S A
  trapped : SimulationTrap → S → Outcome S A
  stopped : Outcome S A

pub data Status : Type 0 where
  runnable : Status
  hit_breakpoint : Status
  terminated : Status

-- `words` holds, by address, the registers of `csr_table` that `Csrs` does not, and `cycle_counter`
-- counts in units of `cycle_time`.
pub record Iss (M : Type 0) : Type 0 where
  pub hart : Hart
  pub regs : ℕ → ℕ
  pub words : ℕ → ℕ
  pub cycle : ℕ
  pub time : ℕ
  pub instret : ℕ
  pub cycle_counter : ℕ
  pub total_num_instr : ℕ
  pub lr_addr : ℕ
  pub instr : ℕ
  pub op : Mapping
  pub status : Status
  pub shall_exit : Bool
  pub debug_mode : Bool
  pub breakpoints : ℕ → Bool
  pub memory : M

-- What the processor reaches through pointers: `v2p` of the memory management unit, which says
-- whether it has stored a page table entry, the raw accesses of `n` bytes, and the time of the interrupt controller.
pub record Bus (M : Type 0) : Type 0 where
  pub page_fault_on_ad : Bool
  pub v2p : Setting → ℕ → Access → M → Translation (M × Bool)
  pub raw_load : ℕ → ℕ → M → Response (ℕ × M)
  pub raw_store : ℕ → ℕ → ℕ → M → Response M
  pub flush_tlb : M → M
  pub mtime : M → ℕ × M

abbrev pub Exec : Type 0 → Type 0 → Type 0
Exec M A = Iss M → Outcome (Iss M) A

abbrev pub pure : {M A : Type 0} → A → Exec M A
pure a s = done a s

infixl 5 ◌>>=◌ ◌>>◌
abbrev pub ◌>>=◌ : {M A B : Type 0} → Exec M A → (A → Exec M B) → Exec M B
◌>>=◌ m f s = elim (m s) [ done a t ↦ f a t | trapped e t ↦ trapped e t | stopped ↦ stopped ]

abbrev pub ◌>>◌ : {M B : Type 0} → Exec M (Unit {0}) → Exec M B → Exec M B
m >> k = m >>= λ _. k

abbrev pub raise_trap : {M A : Type 0} → ℕ → ℕ → Exec M A
raise_trap reason mtval s = trapped (record { reason = reason; mtval = mtval }) s

abbrev pub stop : {M A : Type 0} → Exec M A
stop s = stopped

abbrev pub modify : {M : Type 0} → (Iss M → Iss M) → Exec M (Unit {0})
modify f s = done tt (f s)

abbrev pub gets : {M A : Type 0} → (Iss M → A) → Exec M A
gets f s = done (f s) s

-- `if (b) raise_trap(reason, mtval)`.
abbrev pub trap_if : {M : Type 0} → Bool → ℕ → ℕ → Exec M (Unit {0})
trap_if b reason mtval = if b then raise_trap reason mtval else pure tt

abbrev pub set_bus_lock : {M : Type 0} → Bool → Iss M → Iss M
set_bus_lock b s = record s { hart = record s.hart { bus_locked = b } }

-- A write of a register truncates to 32 bits.
abbrev pub put : (ℕ → ℕ) → ℕ → ℕ → ℕ → ℕ
put r k v n = if n == k then u32 v else r n

abbrev pub set_reg : {M : Type 0} → ℕ → ℕ → Exec M (Unit {0})
set_reg k v = modify λ s. record s { regs = put s.regs k v }

-- `satp` has the address 0x180.
abbrev pub setting : {M : Type 0} → Bool → Iss M → Setting
setting ad s =
    let m = s.hart.csrs.mstatus in
    let satp = s.words 0x180 in
    record {
      xlen = 32;
      satp_mode = satp / 2 ^ 31;
      satp_ppn = satp % 2 ^ 22;
      prv = s.hart.prv;
      mprv = m.mprv;
      mpp = m.mpp;
      sum = m.sum;
      mxr = m.mxr;
      page_fault_on_ad = ad;
    }

abbrev pub page_fault_reason : Access → ℕ
page_fault_reason Access.fetch = 12
page_fault_reason Access.load = 13
page_fault_reason Access.store = 15

module _ {M : Type 0} (bus : Bus M) where
  -- The store of a page table entry frees the bus, as each store does.
  unfoldable pub v2p : ℕ → Access → Exec M ℕ
  v2p vaddr type s = elim (bus.v2p (setting bus.page_fault_on_ad s) vaddr type s.memory) [
    | translated paddr (m, stored) ↦ done paddr (record s {
      memory = m;
      hart = record s.hart { bus_locked = s.hart.bus_locked && not stored };
    })
    | page_fault ↦ raise_trap (page_fault_reason type) vaddr s
    | failed ↦ stopped
  ]

  unfoldable pub raw_load_data : ℕ → ℕ → Exec M ℕ
  raw_load_data n addr s = elim (bus.raw_load n addr s.memory) [
    | address_error ↦ raise_trap 13 addr s
    | failure ↦ stopped
    | ok (v, m) ↦ done (v % 2 ^ (8 * n)) (record s { memory = m })
  ]

  unfoldable pub raw_store_data : ℕ → ℕ → ℕ → Exec M (Unit {0})
  raw_store_data n addr value s = elim (bus.raw_store n addr (value % 2 ^ (8 * n)) s.memory) [
    | address_error ↦ raise_trap 15 addr s
    | failure ↦ stopped
    | ok m ↦ done tt (record s { memory = m; hart = record s.hart { bus_locked = false } })
  ]

  unfoldable pub load_data : ℕ → ℕ → Exec M ℕ
  load_data n addr = do paddr ← v2p addr Access.load; raw_load_data n paddr

  unfoldable pub store_data : ℕ → ℕ → ℕ → Exec M (Unit {0})
  store_data n addr value = do paddr ← v2p addr Access.store; raw_store_data n paddr value

  unfoldable pub load_instr : ℕ → Exec M ℕ
  load_instr addr = do paddr ← v2p addr Access.fetch; raw_load_data 4 paddr

  unfoldable pub atomic_load_word : ℕ → Exec M ℕ
  atomic_load_word addr = do modify (set_bus_lock true); load_data 4 addr

  unfoldable pub atomic_store_word : ℕ → ℕ → Exec M (Unit {0})
  atomic_store_word addr value = do
    locked ← gets λ s. s.hart.bus_locked
    if locked then store_data 4 addr value else stop

  unfoldable pub atomic_load_reserved_word : ℕ → Exec M ℕ
  atomic_load_reserved_word addr = do
    modify (set_bus_lock true)
    modify λ s. record s { lr_addr = addr }
    load_data 4 addr

  unfoldable pub atomic_store_conditional_word : ℕ → ℕ → Exec M Bool
  atomic_store_conditional_word addr value = do
    locked ← gets λ s. s.hart.bus_locked
    reserved ← gets λ s. s.lr_addr
    if locked
        then (if addr == reserved
            then (do store_data 4 addr value; pure true)
            else (do modify (set_bus_lock false); pure false))
        else pure false
