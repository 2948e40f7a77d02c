-- ===== src/Core/Exec/Laws.antt =====
-- How a sequence of operations goes on from the result of its first part.
use dse_vp.Base.{◌≡◌, ap}
use dse_vp.Core.Trap.{SimulationTrap}
use dse_vp.Core.Exec.{Iss, Exec, done, trapped, stopped, ◌>>=◌}

module _ {M A B : Type 0} (m : Exec M A) (f : A → Exec M B) (s : Iss M) where
  pub bind-done : (a : A) (t : Iss M) → m s ≡ done a t → (m >>= f) s ≡ f a t
  bind-done a t e =
      ap (λ o. elim o [ done a t ↦ f a t | trapped e t ↦ trapped e t | stopped ↦ stopped ]) e

  pub bind-trapped :
      (x : SimulationTrap) (t : Iss M) → m s ≡ trapped x t → (m >>= f) s ≡ trapped x t
  bind-trapped x t e =
      ap (λ o. elim o [ done a t ↦ f a t | trapped e t ↦ trapped e t | stopped ↦ stopped ]) e

  pub bind-stopped : m s ≡ stopped → (m >>= f) s ≡ stopped
  bind-stopped e =
      ap (λ o. elim o [ done a t ↦ f a t | trapped e t ↦ trapped e t | stopped ↦ stopped ]) e
