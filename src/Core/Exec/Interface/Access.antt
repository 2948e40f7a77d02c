-- ===== src/Core/Exec/Interface/Access.antt =====
-- A store and a load of the processor, to memory on its bus.
use dse_vp.Base.{
  ℕ, zero, suc, pow-add, ◌&&◌, ◌+◌, ◌*◌, ◌%◌, ◌^◌, ◌≤◌, ◌<◌, ◌≡◌, refl, ap, ◌∙◌, subst, true, false,
  Option, none, some, [], u32, add32, arith,
}
use native.Mathlib.Nat.{pow-suc, mod-mod}
use dse_vp.Tlm.{Target, ok, address_error, failure}
use dse_vp.Tlm.Bytes.{
  load, store, to_word, to_bytes, length-to_bytes, to_word-to_bytes, load-store, load_ext,
}
use dse_vp.Tlm.Memory.{IsMemory}
use dse_vp.Core.Opcode.{Mapping}
use dse_vp.Core.Instr.{rd, rs1, rs2, i_imm, s_imm}
use dse_vp.Core.Exec.{
  Iss, Exec, Bus, done, ◌>>=◌, ◌>>◌, set_reg, load_data, store_data, v2p, raw_load_data,
  raw_store_data, raise_trap, stop, stopped, put,
}
use dse_vp.Core.Exec.Laws.{bind-done}
use dse_vp.Core.Exec.Step.{
  reg, trap_check_addr_alignment, store_size, load_kind, exec_store, exec_load, exec_value,
  exec_custom, exec_jump,
}
use dse_vp.Core.Exec.Operands.{imm_value, reg_value, shift_value}
use dse_vp.Core.Exec.Step.Run.{exec_op}
use dse_vp.Core.Exec.Interface.{raw_load, raw_store, store_ranges, direct_bus, word_of}

pow-eight : (n : ℕ) → 256 ^ n ≡ 2 ^ (8 * n)
pow-eight zero = refl
pow-eight (suc n) =
    let next : 8 + 8 * n ≡ 8 * suc n = omega arith in
    pow-suc 256 n ∙ omega (arith, pow-eight n, pow-add 2 8 (8 * n), ap (λ (k : ℕ). 2 ^ k) next)

truncated : (n v : ℕ) → v % 2 ^ (8 * n) % 256 ^ n % 2 ^ (8 * n) ≡ v % 2 ^ (8 * n)
truncated n v =
    rw (pow-eight n, mod-mod (v % 2 ^ (8 * n)) (2 ^ (8 * n)), mod-mod v (2 ^ (8 * n))) refl

module _ {M : Type 0} (bus : Bus M) (i : ℕ) where
  abbrev store_body : ℕ → Exec M (Unit {0})
  store_body n = do
    a ← reg (rs1 i)
    trap_check_addr_alignment n 6 (add32 a (s_imm i))
    v ← reg (rs2 i)
    store_data bus n (add32 a (s_imm i)) v

  abbrev load_body : ℕ × (ℕ → ℕ) → Exec M (Unit {0})
  load_body (n, extend) = do
    a ← reg (rs1 i)
    trap_check_addr_alignment n 4 (add32 a (i_imm i))
    v ← load_data bus n (add32 a (i_imm i))
    set_reg (rd i) (extend v)

  abbrev body_of : {A : Type 0} → (A → Exec M (Unit {0})) → Option A → Exec M (Unit {0})
  body_of f none = stop
  body_of f (some a) = f a

  exec_op-store : (op : Mapping) (n : ℕ) → store_size op ≡ some n → exec_op bus op i ≡ store_body n
  unfolding exec_op exec_value exec_custom exec_jump exec_store store_size imm_value reg_value
      shift_value
  exec_op-store Mapping.sb n p = ap (body_of store_body) p
  exec_op-store Mapping.sh n p = ap (body_of store_body) p
  exec_op-store Mapping.sw n p = ap (body_of store_body) p
  exec_op-store op n p = cc p

  exec_op-load :
      (op : Mapping) (k : ℕ × (ℕ → ℕ)) → load_kind op ≡ some k → exec_op bus op i ≡ load_body k
  unfolding exec_op exec_value exec_custom exec_jump exec_store exec_load store_size load_kind
      imm_value reg_value shift_value
  exec_op-load Mapping.lb k p = ap (body_of load_body) p
  exec_op-load Mapping.lh k p = ap (body_of load_body) p
  exec_op-load Mapping.lw k p = ap (body_of load_body) p
  exec_op-load Mapping.lbu k p = ap (body_of load_body) p
  exec_op-load Mapping.lhu k p = ap (body_of load_body) p
  exec_op-load op k p = cc p

  store_body-aligned :
      (n : ℕ) (s : Iss M)
      → add32 (s.regs (rs1 i)) (s_imm i) % n ≡ 0
      → store_body n s ≡ store_data bus n (add32 (s.regs (rs1 i)) (s_imm i)) (s.regs (rs2 i)) s
  store_body-aligned n s h = rw h refl

  load_body-aligned :
      (n v : ℕ) (extend : ℕ → ℕ) (s t : Iss M)
      → add32 (s.regs (rs1 i)) (i_imm i) % n ≡ 0
      → load_data bus n (add32 (s.regs (rs1 i)) (i_imm i)) s ≡ done v t
      → load_body (n, extend) s ≡ done tt (record t { regs = put t.regs (rd i) (extend v) })
  load_body-aligned n v extend s t h e = rw h (
      bind-done (load_data bus n (add32 (s.regs (rs1 i)) (i_imm i)))
        (λ w. set_reg (rd i) (extend w)) s v t e)

module _ {M : Type 0} (isock : Target M) (bytes : M → ℕ → ℕ) (low high : ℕ)
    (memory : IsMemory isock bytes low high) where
  raw_store-memory :
      (n a v : ℕ) (m : M)
      → low ≤ a
      → a < high
      → a + n ≤ high
      → (m' : M) × (raw_store isock [] n a v m ≡ ok m')
        × (raw_load isock [] n a m' ≡ ok (v % 256 ^ n, m'))
  unfolding raw_store raw_load store_ranges
  raw_store-memory n a v m l h fits =
      let size = length-to_bytes n v in
      let (m', e, f) = memory.writes a (to_bytes n v) m l h (omega (arith, size)) in
      let back : load n a (bytes m') ≡ to_bytes n v =
        load_ext n a a (bytes m') (store a (to_bytes n v) (bytes m))
          (λ k s. f (a + k) (omega arith) (omega arith))
        ∙ subst (λ j. load j a (store a (to_bytes n v) (bytes m)) ≡ to_bytes n v) size
            (load-store a (to_bytes n v) (bytes m)) in
      (
        m',
        e,
        ap word_of (memory.reads a n m' l h fits)
            ∙ ap (λ bs. ok (to_word bs, m')) back
            ∙ ap (λ w. ok (w, m')) (to_word-to_bytes n v),
      )

  abbrev interface : (M → ℕ × M) → Bus M
  interface mtime = direct_bus isock [] mtime

  store_data-load_data :
      (mtime : M → ℕ × M) (n a v : ℕ) (s : Iss M)
      → low ≤ a
      → a < high
      → a + n ≤ high
      → (t : Iss M) × (store_data (interface mtime) n a v s ≡ done tt t)
        × (t.regs ≡ s.regs)
        × (load_data (interface mtime) n a t ≡ done (v % 2 ^ (8 * n)) t)
  unfolding store_data load_data v2p raw_load_data raw_store_data
  store_data-load_data mtime n a v s l h fits =
      let (m', e, f) = raw_store-memory n a (v % 2 ^ (8 * n)) s.memory l h fits in
      let begun = record s { hart = record s.hart { bus_locked = s.hart.bus_locked && true } } in
      let ended = record s { memory = m'; hart = record s.hart { bus_locked = false } } in
      (
        ended,
        ap
            (λ r. elim r [
              | address_error ↦ raise_trap 15 a begun
              | failure ↦ stopped
              | ok m ↦
                  done tt
                    (record begun { memory = m; hart = record begun.hart { bus_locked = false } })
            ])
            e,
        refl,
        ap
              (λ r. elim r [
                | address_error ↦ raise_trap 13 a ended
                | failure ↦ stopped
                | ok (w, m) ↦ done (w % 2 ^ (8 * n)) (record ended { memory = m })
              ])
              f
            ∙ ap (λ w. done w ended) (truncated n v),
      )

  -- A store and then a load of as many bytes at the same address, which is aligned and in memory: both
  -- instructions succeed, and the register of the load is the value that was stored, truncated to
  -- the size and extended as the load does. The instructions go from the decoded operation on; the processor has
  -- no memory management unit and no direct access.
  pub store-load :
      (mtime : M → ℕ × M) (op op' : Mapping) (i j n : ℕ) (extend : ℕ → ℕ) (s : Iss M)
      → store_size op ≡ some n
      → load_kind op' ≡ some (n, extend)
      → let a = add32 (s.regs (rs1 i)) (s_imm i) in
        add32 (s.regs (rs1 j)) (i_imm j) ≡ a
        → a % n ≡ 0
        → low ≤ a
        → a < high
        → a + n ≤ high
        → (t : Iss M) × (u : Iss M) × (exec_op (interface mtime) op i s ≡ done tt t)
          × (exec_op (interface mtime) op' j t ≡ done tt u)
          × (u.regs (rd j) ≡ u32 (extend (s.regs (rs2 i) % 2 ^ (8 * n))))
  store-load mtime op op' i j n extend s p q same aligned l h fits =
      let a = add32 (s.regs (rs1 i)) (s_imm i) in
      let (t, stored, regs, loaded) = store_data-load_data mtime n a (s.regs (rs2 i)) s l h fits in
      (
        t,
        record t { regs = put t.regs (rd j) (extend (s.regs (rs2 i) % 2 ^ (8 * n))) },
        ap (λ m. m s) (exec_op-store (interface mtime) i op n p)
            ∙ store_body-aligned (interface mtime) i n s aligned
            ∙ stored,
        ap (λ m. m t) (exec_op-load (interface mtime) j op' (n, extend) q)
            ∙ load_body-aligned (interface mtime) j n (s.regs (rs2 i) % 2 ^ (8 * n)) extend t t
                (ap (λ r. add32 (r (rs1 j)) (i_imm j) % n) regs ∙ ap (λ b. b % n) same ∙ aligned)
                (ap (λ r. load_data (interface mtime) n (add32 (r (rs1 j)) (i_imm j)) t) regs
                  ∙ ap (λ b. load_data (interface mtime) n b t) same
                  ∙ loaded),
        ground arith,
      )
