-- ===== src/Core/Exec/Csr/Masks.antt =====
-- Writes under a mask, and what the registers of the lower privilege levels cannot reach.
use dse_vp.Base.{
  ℕ, ◌/◌, ◌%◌, ◌^◌, ◌<◌, ◌≡◌, ◌⊎◌, inl, inr, refl, sym, subst, Bool, true, false, arith, bit_and,
  not32, digit, and-digit, or-digit, not-digit, if◌then◌else◌, ◌==◌,
}
use dse_vp.Core.Trap.{Mstatus}
use dse_vp.Core.Exec.Operands.{to_int}
use dse_vp.Core.Exec.{Iss, Bus, done}
use dse_vp.Core.Exec.Csr.{mstatus_word, mstatus_of, read_slot, write_slot}
use dse_vp.Core.Exec.Csr.Access.{
  set_csr_value, merge, write_mask, is_hpmcounter, sstatus_mask, ustatus_mask,
}

-- A bit of the merged register comes from the value where the mask has a 1.
pub merge-digit :
    (reg mask value k : ℕ)
    → k < 32
    → mask < 2 ^ 32
    → digit (merge reg mask value) k ≡ (if digit mask k == 1 then digit value k else digit reg k)
merge-digit reg mask value k hk hm = ground (
  arith,
  or-digit k (bit_and reg (not32 mask)) (bit_and value mask),
  and-digit k reg (not32 mask),
  and-digit k value mask,
  not-digit 32 k mask hk hm,
)

-- The bit fields of more than one bit hold what fits.
pub record IsFields (m : Mstatus) : Type 0 where
  pub spp_small : m.spp < 2
  pub mpp_small : m.mpp < 4
  pub fs_small : m.fs < 4
  pub xs_small : m.xs < 4

int_lt : (b : Bool) → to_int b < 2
int_lt true = omega arith
int_lt false = omega arith

record IsBits (m : Mstatus) : Type 0 where
  pub uie_bit : to_int m.uie < 2
  pub sie_bit : to_int m.sie < 2
  pub mie_bit : to_int m.mie < 2
  pub upie_bit : to_int m.upie < 2
  pub spie_bit : to_int m.spie < 2
  pub mpie_bit : to_int m.mpie < 2
  pub mprv_bit : to_int m.mprv < 2
  pub sum_bit : to_int m.sum < 2
  pub mxr_bit : to_int m.mxr < 2
  pub tvm_bit : to_int m.tvm < 2
  pub tw_bit : to_int m.tw < 2
  pub tsr_bit : to_int m.tsr < 2
  pub sd_bit : to_int m.sd < 2

bits : (m : Mstatus) → IsBits m
bits m = record {
  uie_bit = int_lt m.uie;
  sie_bit = int_lt m.sie;
  mie_bit = int_lt m.mie;
  upie_bit = int_lt m.upie;
  spie_bit = int_lt m.spie;
  mpie_bit = int_lt m.mpie;
  mprv_bit = int_lt m.mprv;
  sum_bit = int_lt m.sum;
  mxr_bit = int_lt m.mxr;
  tvm_bit = int_lt m.tvm;
  tw_bit = int_lt m.tw;
  tsr_bit = int_lt m.tsr;
  sd_bit = int_lt m.sd;
}

module _ (m : Mstatus) (p : IsFields m) where
  word-mie : digit (mstatus_word m) 3 ≡ to_int m.mie
  unfolding mstatus_word
  word-mie = let b = bits m in omega arith

  word-mpie : digit (mstatus_word m) 7 ≡ to_int m.mpie
  unfolding mstatus_word
  word-mpie = let b = bits m in omega arith

  word-mpp : digit (mstatus_word m) 11 ≡ m.mpp % 2
  unfolding mstatus_word
  word-mpp = let b = bits m in omega arith

  word-mpp_high : digit (mstatus_word m) 12 ≡ m.mpp / 2
  unfolding mstatus_word
  word-mpp_high = let b = bits m in omega arith

  word-mprv : digit (mstatus_word m) 17 ≡ to_int m.mprv
  unfolding mstatus_word
  word-mprv = let b = bits m in omega arith

  word-tvm : digit (mstatus_word m) 20 ≡ to_int m.tvm
  unfolding mstatus_word
  word-tvm = let b = bits m in omega arith

  word-tw : digit (mstatus_word m) 21 ≡ to_int m.tw
  unfolding mstatus_word
  word-tw = let b = bits m in omega arith

  word-tsr : digit (mstatus_word m) 22 ≡ to_int m.tsr
  unfolding mstatus_word
  word-tsr = let b = bits m in omega arith

-- The fields that only machine mode writes.
pub record SameMachineFields (m n : Mstatus) : Type 0 where
  pub same_mie : n.mie ≡ m.mie
  pub same_mpie : n.mpie ≡ m.mpie
  pub same_mpp : n.mpp ≡ m.mpp
  pub same_mprv : n.mprv ≡ m.mprv
  pub same_tvm : n.tvm ≡ m.tvm
  pub same_tw : n.tw ≡ m.tw
  pub same_tsr : n.tsr ≡ m.tsr

merged :
    (m : Mstatus) (mask v : ℕ)
    → IsFields m
    → mask < 2 ^ 32
    → digit mask 3 ≡ 0
    → digit mask 7 ≡ 0
    → digit mask 11 ≡ 0
    → digit mask 12 ≡ 0
    → digit mask 17 ≡ 0
    → digit mask 20 ≡ 0
    → digit mask 21 ≡ 0
    → digit mask 22 ≡ 0
    → SameMachineFields m (mstatus_of (merge (mstatus_word m) mask v))
unfolding mstatus_of
merged m mask v p h d3 d7 d11 d12 d17 d20 d21 d22 =
    let w = mstatus_word m in
    record {
      same_mie = ground (arith, merge-digit w mask v 3 (omega arith) h, word-mie m p);
      same_mpie = ground (arith, merge-digit w mask v 7 (omega arith) h, word-mpie m p);
      same_mpp = ground (
        arith,
        merge-digit w mask v 11 (omega arith) h,
        merge-digit w mask v 12 (omega arith) h,
        word-mpp m p,
        word-mpp_high m p,
        p.mpp_small,
      );
      same_mprv = ground (arith, merge-digit w mask v 17 (omega arith) h, word-mprv m p);
      same_tvm = ground (arith, merge-digit w mask v 20 (omega arith) h, word-tvm m p);
      same_tw = ground (arith, merge-digit w mask v 21 (omega arith) h, word-tw m p);
      same_tsr = ground (arith, merge-digit w mask v 22 (omega arith) h, word-tsr m p);
    }

-- A write of `sstatus` or of `ustatus` succeeds with every value, and changes no bit of `mstatus` that
-- belongs to machine mode: its interrupt enables, its previous privilege level, `mprv`, and the
-- three bits that trap supervisor instructions.
pub set_csr_value-machine_fields :
    {M : Type 0} (bus : Bus M) (instr addr v : ℕ) (s : Iss M)
    → IsFields s.hart.csrs.mstatus
    → (addr ≡ 0x100) ⊎ (addr ≡ 0x000)
    → (t : Iss M) × (set_csr_value bus instr addr v s ≡ done tt t)
      × SameMachineFields s.hart.csrs.mstatus t.hart.csrs.mstatus
unfolding set_csr_value write_mask is_hpmcounter write_slot read_slot
set_csr_value-machine_fields bus instr addr v s p (inl e) =
    subst
      (λ a.
        (t : Iss _) × (set_csr_value bus instr a v s ≡ done tt t)
        × SameMachineFields s.hart.csrs.mstatus t.hart.csrs.mstatus)
      (sym e)
      (
        _,
        refl,
        merged s.hart.csrs.mstatus sstatus_mask v p (omega arith) refl refl refl refl refl refl refl
            refl,
      )
set_csr_value-machine_fields bus instr addr v s p (inr e) =
    subst
      (λ a.
        (t : Iss _) × (set_csr_value bus instr a v s ≡ done tt t)
        × SameMachineFields s.hart.csrs.mstatus t.hart.csrs.mstatus)
      (sym e)
      (
        _,
        refl,
        merged s.hart.csrs.mstatus ustatus_mask v p (omega arith) refl refl refl refl refl refl refl
            refl,
      )
