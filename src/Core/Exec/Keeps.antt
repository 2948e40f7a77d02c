-- ===== src/Core/Exec/Keeps.antt =====
-- A condition on the state that every part of the simulator keeps: the registers hold words, the
-- addresses of instructions are even, and the extension of compressed instructions is there.
pub mod Registers
pub mod Memory
pub mod Instructions
pub mod Accesses
pub mod Steps
use dse_vp.Base.{
  ℕ, ◌%◌, ◌^◌, ◌<◌, ◌≡◌, refl, Bool, true, false, Option, none, some, if◌then◌else◌, arith,
}
use dse_vp.Core.Trap.{Hart, has_extension}
use dse_vp.Core.Exec.Step.{◌or_else◌}
use dse_vp.Core.Exec.{
  Iss, Exec, Outcome, done, trapped, stopped, ◌>>=◌, pure, raise_trap, modify, gets, put, set_reg,
  trap_if,
}

pub record HasEven (h : Hart) : Type 0 where
  pub pc_even : h.pc % 2 ≡ 0
  pub last_pc_even : h.last_pc % 2 ≡ 0
  pub mepc_even : h.csrs.mepc % 2 ≡ 0
  pub sepc_even : h.csrs.sepc % 2 ≡ 0
  pub uepc_even : h.csrs.uepc % 2 ≡ 0
  pub has_c : has_extension (2 ^ 2) h.csrs ≡ true

pub record IsSound {M : Type 0} (s : Iss M) : Type 0 where
  pub regs_word : (k : ℕ) → s.regs k < 2 ^ 32
  pub even : HasEven s.hart

-- The state that an operation leaves, if it is not stopped.
abbrev pub Leaves : {M A : Type 0} → (Iss M → Type 0) → Outcome (Iss M) A → Type 0
Leaves P (done a s) = P s
Leaves P (trapped e s) = P s
Leaves P stopped = Unit

pub record Keeps {M A : Type 0} (m : Exec M A) : Type 0 where
  pub leaves : (s : Iss M) → IsSound s → Leaves IsSound (m s)

-- The entry of a table, if there is one.
abbrev pub KeepsEntry : {M A : Type 0} → Option (Exec M A) → Type 0
KeepsEntry none = Unit
KeepsEntry (some m) = Keeps m

module _ {M A B : Type 0} where
  Leaves-bind :
      (o : Outcome (Iss M) A) (f : A → Exec M B)
      → Leaves IsSound o
      → ((a : A) → Keeps (f a))
      → Leaves IsSound (elim o [ done a t ↦ f a t | trapped e t ↦ trapped e t | stopped ↦ stopped ])
  Leaves-bind (done a s) f h k = (k a).leaves s h
  Leaves-bind (trapped e s) f h k = h
  Leaves-bind stopped f h k = tt

  pub Keeps-bind :
      (m : Exec M A) (f : A → Exec M B) → Keeps m → ((a : A) → Keeps (f a)) → Keeps (m >>= f)
  Keeps-bind m f h k = record { leaves = λ s v. Leaves-bind (m s) f (h.leaves s v) k }

module _ {M A : Type 0} where
  pub Keeps-if : (b : Bool) (m n : Exec M A) → Keeps m → Keeps n → Keeps (if b then m else n)
  Keeps-if true m n h k = h
  Keeps-if false m n h k = k

  pub pure-Keeps : (a : A) → Keeps {M = M} (pure a)
  pure-Keeps a = record { leaves = λ s v. v }

  pub raise_trap-Keeps : (reason mtval : ℕ) → Keeps {M = M} {A = A} (raise_trap reason mtval)
  raise_trap-Keeps reason mtval = record { leaves = λ s v. v }

  pub Leaves-if :
      (b : Bool) (x y : Outcome (Iss M) A)
      → Leaves IsSound x
      → Leaves IsSound y
      → Leaves IsSound (if b then x else y)
  Leaves-if true x y h k = h
  Leaves-if false x y h k = k

  pub KeepsEntry-elim :
      (x : Option (Exec M A)) (n : Exec M A)
      → KeepsEntry x
      → Keeps n
      → Keeps (elim x [ some m ↦ m | none ↦ n ])
  KeepsEntry-elim (some m) n h k = h
  KeepsEntry-elim none n h k = k

  pub KeepsEntry-or_else :
      (x y : Option (Exec M A)) → KeepsEntry x → KeepsEntry y → KeepsEntry (x or_else y)
  KeepsEntry-or_else none y h k = k
  KeepsEntry-or_else (some m) y h k = h

module _ {M : Type 0} where
  pub trap_if-Keeps : (b : Bool) (reason mtval : ℕ) → Keeps {M = M} (trap_if b reason mtval)
  trap_if-Keeps true reason mtval = record { leaves = λ s v. v }
  trap_if-Keeps false reason mtval = record { leaves = λ s v. v }

  pub gets-Keeps : {A : Type 0} (f : Iss M → A) → Keeps (gets f)
  gets-Keeps f = record { leaves = λ s v. v }

  pub set_reg-Keeps : (k x : ℕ) → Keeps {M = M} (set_reg k x)
  set_reg-Keeps k x = record {
    leaves = λ s v. record { regs_word = λ n. ground (arith, v.regs_word n); even = v.even };
  }

  -- What changes neither the registers nor the processor keeps the condition.
  pub modify-Keeps :
      (f : Iss M → Iss M)
      → ((s : Iss M) → IsSound s → (k : ℕ) → (f s).regs k < 2 ^ 32)
      → ((s : Iss M) → IsSound s → HasEven (f s).hart)
      → Keeps {A = Unit {0}} (modify f)
  modify-Keeps f r h = record { leaves = λ s v. record { regs_word = r s v; even = h s v } }
