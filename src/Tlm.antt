-- ===== src/Tlm.antt =====
-- Accesses of one component to another: what the code under vp/src uses of a `tlm_generic_payload`,
-- the command, the address, the bytes and the response. A target answers a read with as many bytes as are
-- asked for, keeps its state in a part of the platform's, and may respond with
-- `TLM_ADDRESS_ERROR_RESPONSE`, or fail (a `runtime_error` or an assertion that does not hold). Delays are left out.
pub mod Bytes
pub mod Memory
use dse_vp.Base.{ℕ, List}

pub data Response (A : Type 0) : Type 0 where
  ok : A → Response A
  address_error : Response A
  failure : Response A

pub record Target (M : Type 0) : Type 0 where
  pub read : ℕ → ℕ → M → Response (List ℕ × M)
  pub write : ℕ → List ℕ → M → Response M

-- A component's state in that of the platform.
pub record Part (M D : Type 0) : Type 0 where
  pub view : M → D
  pub update : D → M → M

module _ {M D : Type 0} (p : Part M D) where
  abbrev pub with_part : M → Response (List ℕ × D) → Response (List ℕ × M)
  with_part m (ok (bs, d)) = ok (bs, p.update d m)
  with_part m address_error = address_error
  with_part m failure = failure

  abbrev pub update_part : M → Response D → Response M
  update_part m (ok d) = ok (p.update d m)
  update_part m address_error = address_error
  update_part m failure = failure

  -- A component behind its part of the platform's state.
  abbrev pub on_part : Target D → Target M
  on_part t = record {
    read = λ addr n m. with_part m (t.read addr n (p.view m));
    write = λ addr bs m. update_part m (t.write addr bs (p.view m));
  }
