-- ===== src/Core/Trap/Pending.antt =====
-- Which interrupt is taken, and in which mode.
use dse_vp.Base.{
  ℕ, ◌-◌, ◌^◌, ◌<◌, ◌≤◌, ◌≡◌, ◌≢◌, ◌↔◌, ◌⊎◌, inl, inr, refl, Bool, true, false, ◌&&◌, ◌||◌, min,
  bit_and, ltb, ◌==◌, if◌then◌else◌, not32, digit, arith, and-digit, not-digit, and-le, Bool-cases,
}
use native.Mathlib.Decide.{ℕ_discrete}
use dse_vp.Core.Trap.Delegation.{IsLevel}
use dse_vp.Core.Trap.{
  Hart, Csrs, PendingInterrupts, user_mode, supervisor_mode, machine_mode, none_mode,
  compute_pending_interrupts,
}

-- The mode that the delegation registers give interrupt `n`.
abbrev pub route : Csrs → ℕ → ℕ
route c n =
    if digit c.mideleg n == 0
    then machine_mode
    else if digit c.sideleg n == 0
    then supervisor_mode
    else user_mode

-- Interrupts of a mode are taken in the modes below it, and in it where its enable bit is set.
abbrev pub accepts : Hart → ℕ → Bool
accepts h level =
    ltb h.prv level
    || (h.prv == level
        && (if level == machine_mode
            then h.csrs.mstatus.mie
            else if level == supervisor_mode
            then h.csrs.mstatus.sie
            else h.csrs.mstatus.uie))

abbrev pub IsRaised : Csrs → ℕ → Type 0
IsRaised c n = (digit c.mie n ≡ 1) × (digit c.mip n ≡ 1)

abbrev pub IsMasks : Csrs → Type 0
IsMasks c = (c.mideleg < 2 ^ 32) × (c.sideleg < 2 ^ 32)

module _ (c : Csrs) (n : ℕ) (w : IsMasks c) (h : n < 32) where
  machine_digit :
      digit (bit_and (bit_and c.mie c.mip) (not32 c.mideleg)) n
      ≡ min (min (digit c.mie n) (digit c.mip n)) (1 - digit c.mideleg n)
  machine_digit = rw (and-digit n _ _, and-digit n c.mie c.mip, not-digit 32 n c.mideleg h w.0)

  supervisor_digit :
      digit (bit_and (bit_and (bit_and c.mie c.mip) c.mideleg) (not32 c.sideleg)) n
      ≡ min (min (min (digit c.mie n) (digit c.mip n)) (digit c.mideleg n)) (1 - digit c.sideleg n)
  supervisor_digit = rw (
    and-digit n _ _,
    and-digit n (bit_and c.mie c.mip) c.mideleg,
    and-digit n c.mie c.mip,
    not-digit 32 n c.sideleg h w.1,
  )

  user_digit :
      digit (bit_and (bit_and (bit_and c.mie c.mip) c.mideleg) c.sideleg) n
      ≡ min (min (min (digit c.mie n) (digit c.mip n)) (digit c.mideleg n)) (digit c.sideleg n)
  user_digit = rw (
    and-digit n _ c.sideleg,
    and-digit n (bit_and c.mie c.mip) c.mideleg,
    and-digit n c.mie c.mip,
  )

abbrev m_pending : Csrs → ℕ
m_pending c = bit_and (bit_and c.mie c.mip) (not32 c.mideleg)

abbrev s_pending : Csrs → ℕ
s_pending c = bit_and (bit_and (bit_and c.mie c.mip) c.mideleg) (not32 c.sideleg)

abbrev u_pending : Csrs → ℕ
u_pending c = bit_and (bit_and (bit_and c.mie c.mip) c.mideleg) c.sideleg

abbrev report : ℕ → ℕ → PendingInterrupts
report target pending = record { target_mode = target; pending = pending }

-- A mode is passed over if nothing is pending for it or it does not accept.
abbrev IsPassed : Hart → ℕ → ℕ → Type 0
IsPassed h level pending = (pending ≡ 0) ⊎ (accepts h level ≡ false)

data Outcome (h : Hart) (r : PendingInterrupts) : Type 0 where
  machine :
      accepts h machine_mode ≡ true
      → m_pending h.csrs ≢ 0
      → r ≡ report machine_mode (m_pending h.csrs)
      → Outcome h r
  supervisor :
      accepts h supervisor_mode ≡ true
      → s_pending h.csrs ≢ 0
      → IsPassed h machine_mode (m_pending h.csrs)
      → r ≡ report supervisor_mode (s_pending h.csrs)
      → Outcome h r
  user :
      accepts h user_mode ≡ true
      → u_pending h.csrs ≢ 0
      → IsPassed h machine_mode (m_pending h.csrs)
      → IsPassed h supervisor_mode (s_pending h.csrs)
      → r ≡ report user_mode (u_pending h.csrs)
      → Outcome h r
  nothing :
      IsPassed h machine_mode (m_pending h.csrs)
      → IsPassed h supervisor_mode (s_pending h.csrs)
      → IsPassed h user_mode (u_pending h.csrs)
      → r ≡ report none_mode 0
      → Outcome h r

decide_level :
    (h : Hart) (level pending : ℕ)
    → ((pending ≢ 0) × (accepts h level ≡ true)) ⊎ IsPassed h level pending
decide_level h level pending = elim (Bool-cases (accepts h level)) [
  | inl e ↦ elim (ℕ_discrete pending 0) [ yes z ↦ inr (inl z) | no nz ↦ inl (nz, e) ]
  | inr e ↦ inr (inr e)
]

outcome : (h : Hart) → Outcome h (compute_pending_interrupts h)
unfolding compute_pending_interrupts
outcome h = elim (ℕ_discrete (bit_and h.csrs.mie h.csrs.mip) 0) [
  | yes z ↦
      let d : bit_and (bit_and h.csrs.mie h.csrs.mip) h.csrs.mideleg ≡ 0 =
        omega (arith, and-le (bit_and h.csrs.mie h.csrs.mip) h.csrs.mideleg) in
      nothing (inl (omega (arith, and-le (bit_and h.csrs.mie h.csrs.mip) (not32 h.csrs.mideleg))))
        (inl (
          omega (
            arith,
            and-le (bit_and (bit_and h.csrs.mie h.csrs.mip) h.csrs.mideleg) (not32 h.csrs.sideleg),
          )))
        (inl (
          omega (
            arith,
            and-le (bit_and (bit_and h.csrs.mie h.csrs.mip) h.csrs.mideleg) h.csrs.sideleg,
          )))
        (ground arith)
  | no nz ↦ elim (decide_level h machine_mode (m_pending h.csrs)) [
    | inl (some_m, a) ↦ machine a some_m (ground arith)
    | inr pm ↦ elim (decide_level h supervisor_mode (s_pending h.csrs)) [
      | inl (some_s, a) ↦ supervisor a some_s pm (ground arith)
      | inr ps ↦ elim (decide_level h user_mode (u_pending h.csrs)) [
        | inl (some_u, a) ↦ user a some_u pm ps (ground arith)
        | inr pu ↦ nothing pm ps pu (ground arith)
      ]
    ]
  ]
]

-- For delegation masks that are 32-bit words, where something is reported: the mode that it is
-- reported for accepts interrupts, and an interrupt below 32 is in the reported set just if it is
-- raised and the delegation registers give it to that mode.
pub compute_pending-exact :
    (h : Hart) (n : ℕ)
    → IsMasks h.csrs
    → n < 32
    → (compute_pending_interrupts h).target_mode ≢ none_mode
    → let r = compute_pending_interrupts h in
      (accepts h r.target_mode ≡ true)
      × ((digit r.pending n ≡ 1) ↔ (IsRaised h.csrs n × (route h.csrs n ≡ r.target_mode)))
compute_pending-exact h n w lt some_mode = elim (outcome h) [
  | machine a nz e ↦ rw e (a, ground (arith, machine_digit h.csrs n w lt))
  | supervisor a nz pm e ↦ rw e (a, ground (arith, supervisor_digit h.csrs n w lt))
  | user a nz pm ps e ↦ rw e (a, ground (arith, user_digit h.csrs n w lt))
  | nothing pm ps pu e ↦ absurd (some_mode (rw e))
]

-- For delegation masks that are 32-bit words: where an interrupt below 32 is raised and the mode
-- that the delegation registers give it to accepts interrupts, an interrupt is reported for that
-- mode or a more privileged one.
compute_pending-reports :
    (h : Hart) (n : ℕ)
    → IsMasks h.csrs
    → n < 32
    → IsRaised h.csrs n
    → accepts h (route h.csrs n) ≡ true
    → let r = compute_pending_interrupts h in
      (r.target_mode ≢ none_mode) × (route h.csrs n ≤ r.target_mode)
compute_pending-reports h n w lt raised a = elim (outcome h) [
  | machine b nz e ↦ rw e (ground arith)
  | supervisor b nz pm e ↦ rw e (ground (arith, machine_digit h.csrs n w lt))
  | user b nz pm ps e ↦
      rw e (ground (arith, machine_digit h.csrs n w lt, supervisor_digit h.csrs n w lt))
  | nothing pm ps pu e ↦ absurd (
      ground (
        arith,
        machine_digit h.csrs n w lt,
        supervisor_digit h.csrs n w lt,
        user_digit h.csrs n w lt,
      ))
]

-- The bits of `MIE_MASK`, to which writes of `mie` are cut.
abbrev pub IsInterruptMask : ℕ → Type 0
IsInterruptMask x = (x < 2 ^ 12) × (digit x 2 ≡ 0) × (digit x 6 ≡ 0) × (digit x 10 ≡ 0)

IsInterruptMask-bit_and : (a b : ℕ) → IsInterruptMask a → IsInterruptMask (bit_and a b)
IsInterruptMask-bit_and a b h =
    omega (arith, and-le a b, and-digit 2 a b, and-digit 6 a b, and-digit 10 a b)

-- A report is a nonempty set of interrupts for one of the three modes, none below the current one.
pub compute_pending-some :
    (h : Hart)
    → IsInterruptMask h.csrs.mie
    → let r = compute_pending_interrupts h in
      r.target_mode ≢ none_mode
      → (r.pending ≢ 0)
        × IsInterruptMask r.pending
        × IsLevel r.target_mode
        × (h.prv ≤ r.target_mode)
compute_pending-some h mask some_mode =
    let both = IsInterruptMask-bit_and h.csrs.mie h.csrs.mip mask in
    let delegated = IsInterruptMask-bit_and _ h.csrs.mideleg both in
    elim (outcome h) [
      | machine a nz e ↦ rw e (nz, IsInterruptMask-bit_and _ _ both, inr (inr refl), ground arith)
      | supervisor a nz pm e ↦
          rw e (nz, IsInterruptMask-bit_and _ _ delegated, inr (inl refl), ground arith)
      | user a nz pm ps e ↦ rw e (nz, IsInterruptMask-bit_and _ _ delegated, inl refl, ground arith)
      | nothing pm ps pu e ↦ absurd (some_mode (rw e))
    ]
