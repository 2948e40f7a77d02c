-- ===== src/Platform/Sharing/Reservation.antt =====
-- What a reservation excludes.
use dse_vp.Base.{
  ℕ, ◌+◌, ◌≤◌, ◌<◌, ◌≡◌, ◌≢◌, refl, sym, ap, ◌∙◌, true, false, none, some, List, [], ◌==◌,
  if◌then◌else◌, arith,
}
use mathlib.Core.Option.{none-ne-some}
use dse_vp.Tlm.{ok, Target}
use dse_vp.Tlm.Bytes.{load, store, to_word, to_bytes, length-to_bytes}
use dse_vp.Tlm.Memory.{IsMemory}
use dse_vp.Core.Exec.Interface.{MemoryDmi, raw_load, raw_store, store_ranges, word_of}
use dse_vp.Platform.Bus.{BusLock, is_locked_by, lock, unlock, connect}
use dse_vp.Platform.Sharing.{
  after_read, after_write, Shared, Outcome, returned, raised, stopped, has_access, completed,
  after_load, after_store, conditional, atomic_unlock, atomic_load_word, atomic_store_word,
  reserved, atomic_load_reserved_word, atomic_store_conditional_word, Access, loads, stores,
  atomic_loads, atomic_stores, load_reserved, store_conditional, releases, perform, peripheral_read,
  peripheral_write, Others, none_yet, by_hart, by_read, by_write,
}
use dse_vp.Platform.Sharing

-- The lock of one hart is out of reach of another.
held-locked : (h : ℕ) (l : BusLock) → is_locked_by h l ≡ true → l.locked ≡ true
held-locked h l held = ground arith

foreign-has_access :
    (h i : ℕ) (l : BusLock) → i ≢ h → is_locked_by h l ≡ true → has_access i l ≡ false
foreign-has_access h i l ne held = ground arith

foreign-is_locked_by :
    (h i : ℕ) (l : BusLock) → i ≢ h → is_locked_by h l ≡ true → is_locked_by i l ≡ false
foreign-is_locked_by h i l ne held = ground arith

foreign-lock : (h i : ℕ) (l : BusLock) → i ≢ h → is_locked_by h l ≡ true → lock i l ≡ none
unfolding lock
foreign-lock h i l ne held = ground arith

foreign-unlock : (h i : ℕ) (l : BusLock) → i ≢ h → is_locked_by h l ≡ true → unlock i l ≡ l
unfolding unlock
foreign-unlock h i l ne held = ground arith

completed-stopped :
    {M A : Type 0} {o : Outcome M A} (s t : Shared M) → o ≡ stopped → completed o ≡ some t → t ≡ s
completed-stopped s t e f = absurd (none-ne-some t (sym (ap completed e) ∙ f))

module _ {M : Type 0} (isock : Target M) (ranges : List (MemoryDmi M)) (h i : ℕ) (ne : i ≢ h)
    (s : Shared M) (held : is_locked_by h s.bus_lock ≡ true) where
  load-foreign : (n addr : ℕ) → Sharing.load isock ranges n i addr s ≡ stopped
  unfolding Sharing.load
  load-foreign n addr = rw (foreign-has_access h i s.bus_lock ne held) refl

  store-foreign : (n addr value : ℕ) → Sharing.store isock ranges n i addr value s ≡ stopped
  unfolding Sharing.store
  store-foreign n addr value = rw (foreign-has_access h i s.bus_lock ne held) refl

  atomic_unlock-foreign : atomic_unlock i s ≡ s
  unfolding atomic_unlock
  atomic_unlock-foreign =
      ap (λ l. record s { bus_lock = l }) (foreign-unlock h i s.bus_lock ne held)

  conditional-foreign :
      (addr value : ℕ)
      → atomic_store_conditional_word isock ranges i addr value s ≡ returned false s
  unfolding atomic_store_conditional_word
  conditional-foreign addr value =
      ap
        (λ b.
          if b
          then (if addr == s.lr_addr i
              then conditional (Sharing.store isock ranges 4 i addr value s)
              else returned false (atomic_unlock i s))
          else returned false s)
        (foreign-is_locked_by h i s.bus_lock ne held)

  perform-foreign : (x : Access) (t : Shared M) → perform isock ranges i x s ≡ some t → t ≡ s
  unfolding atomic_load_word atomic_store_word atomic_load_reserved_word
  perform-foreign (loads n addr) t e = completed-stopped s t (load-foreign n addr) e
  perform-foreign (stores n addr value) t e = completed-stopped s t (store-foreign n addr value) e
  perform-foreign (atomic_loads addr) t e =
      completed-stopped s t
        (ap
          (λ o. elim o as (λ x. Outcome M ℕ) [
            | none ↦ stopped
            | some l ↦ Sharing.load isock ranges 4 i addr (record s { bus_lock = l })
          ])
          (foreign-lock h i s.bus_lock ne held))
        e
  perform-foreign (atomic_stores addr value) t e =
      completed-stopped s t
        (ap (λ b. if b then Sharing.store isock ranges 4 i addr value s else stopped)
          (foreign-is_locked_by h i s.bus_lock ne held))
        e
  perform-foreign (load_reserved addr) t e =
      completed-stopped s t
        (ap
          (λ o. elim o as (λ x. Outcome M ℕ) [
            | none ↦ stopped
            | some l ↦ Sharing.load isock ranges 4 i addr (reserved i addr l s)
          ])
          (foreign-lock h i s.bus_lock ne held))
        e
  perform-foreign (store_conditional addr value) t e =
      let k : some s ≡ some t = sym (ap completed (conditional-foreign addr value)) ∙ e in cc k
  perform-foreign releases t e =
      let k : some s ≡ some t = sym (ap some atomic_unlock-foreign) ∙ e in cc k

module _ {M : Type 0} (isock : Target M) (ranges : List (MemoryDmi M)) (h : ℕ) where
  read-foreign :
      (addr n : ℕ) (s t : Shared M)
      → is_locked_by h s.bus_lock ≡ true
      → peripheral_read isock addr n s ≡ some t
      → t ≡ s
  unfolding peripheral_read
  read-foreign addr n s t held e = absurd (
      none-ne-some t (
        sym (
          ap (λ b. if b then none else after_read s ((connect isock).read addr n s.memory))
            (held-locked h s.bus_lock held))
        ∙ e))

  write-foreign :
      (addr : ℕ) (bs : List ℕ) (s t : Shared M)
      → is_locked_by h s.bus_lock ≡ true
      → peripheral_write isock addr bs s ≡ some t
      → t ≡ s
  unfolding peripheral_write
  write-foreign addr bs s t held e = absurd (
      none-ne-some t (
        sym (
          ap (λ b. if b then none else after_write s ((connect isock).write addr bs s.memory))
            (held-locked h s.bus_lock held))
        ∙ e))

  -- While a hart has the lock, the accesses of the others that complete leave everything.
  Others-same :
      {s t : Shared M} → is_locked_by h s.bus_lock ≡ true → Others isock ranges h s t → t ≡ s
  Others-same held none_yet = refl
  Others-same {s} held (by_hart {t} {u} i x r ne e) =
      let same = Others-same held r in
      perform-foreign isock ranges h i ne t (ap (λ v. is_locked_by h v.bus_lock) same ∙ held) x u e
      ∙ same
  Others-same held (by_read {t} {u} addr n r e) =
      let same = Others-same held r in
      read-foreign addr n t u (ap (λ v. is_locked_by h v.bus_lock) same ∙ held) e ∙ same
  Others-same held (by_write {t} {u} addr bs r e) =
      let same = Others-same held r in
      write-foreign addr bs t u (ap (λ v. is_locked_by h v.bus_lock) same ∙ held) e ∙ same

unlock-free : (h : ℕ) (l : BusLock) → is_locked_by h l ≡ true → (unlock h l).locked ≡ false
unfolding unlock
unlock-free h l held = ground arith

lock-is_locked_by : (h : ℕ) (l k : BusLock) → lock h l ≡ some k → is_locked_by h k ≡ true
unfolding lock
lock-is_locked_by h l k e = ground arith

module _ {M : Type 0} (isock : Target M) (ranges : List (MemoryDmi M)) (h a : ℕ) where
  own-has_access : (l : BusLock) → is_locked_by h l ≡ true → has_access h l ≡ true
  own-has_access l held = ground arith

  load_reserved-own :
      (v : ℕ) (l : BusLock) (s : Shared M)
      → lock h s.bus_lock ≡ some l
      → raw_load isock ranges 4 a s.memory ≡ ok (v, s.memory)
      → atomic_load_reserved_word isock ranges h a s ≡ returned v (reserved h a l s)
  unfolding atomic_load_reserved_word Sharing.load
  load_reserved-own v l s e f =
      ap
        (λ o. elim o as (λ x. Outcome M ℕ) [
          | none ↦ stopped
          | some k ↦ Sharing.load isock ranges 4 h a (reserved h a k s)
        ])
        e
      ∙ ap
          (λ b.
            if b
            then after_load (reserved h a l s) (raw_load isock ranges 4 a s.memory)
            else stopped)
          (own-has_access l (lock-is_locked_by h s.bus_lock l e))
      ∙ ap (after_load (reserved h a l s)) f

  conditional-own :
      (w : ℕ) (m : M) (s : Shared M)
      → is_locked_by h s.bus_lock ≡ true
      → s.lr_addr h ≡ a
      → raw_store isock ranges 4 a w s.memory ≡ ok m
      → atomic_store_conditional_word isock ranges h a w s
        ≡ returned true (atomic_unlock h (record s { memory = m }))
  unfolding atomic_store_conditional_word Sharing.store
  conditional-own w m s held here f =
      let same : (a == s.lr_addr h) ≡ true = ground arith in
      let stores_it =
        if has_access h s.bus_lock
        then after_store h s (raw_store isock ranges 4 a w s.memory)
        else stopped in
      ap
        (λ b.
          if b
          then if a == s.lr_addr h
            then conditional stores_it
            else returned false (atomic_unlock h s)
          else returned false s)
        held
      ∙ ap (λ b. if b then conditional stores_it else returned false (atomic_unlock h s)) same
      ∙ ap
          (λ b.
            conditional
              (if b then after_store h s (raw_store isock ranges 4 a w s.memory) else stopped))
          (own-has_access s.bus_lock held)
      ∙ ap (λ o. conditional (after_store h s o)) f

module _ {M : Type 0} (isock : Target M) (bytes : M → ℕ → ℕ) (low high : ℕ)
    (memory : IsMemory isock bytes low high) where
  -- A load-reserved and a store-conditional of a word in memory, without ranges of direct access,
  -- and with any accesses of other harts and of peripherals that complete between them. A hart
  -- that gets the lock reads the word, and its store succeeds and changes the memory that the load
  -- saw, in the bytes of the word alone; the lock is free then.
  pub reserved-conditional :
      (h a w : ℕ) (l : BusLock) (s u : Shared M)
      → lock h s.bus_lock ≡ some l
      → Others isock [] h (reserved h a l s) u
      → low ≤ a
      → a + 4 ≤ high
      → (atomic_load_reserved_word isock [] h a s
          ≡ returned (to_word (load 4 a (bytes s.memory))) (reserved h a l s))
        × (r : Shared M) × (atomic_store_conditional_word isock [] h a w u ≡ returned true r)
        × (r.bus_lock.locked ≡ false)
        × ((k : ℕ)
            → low ≤ k
            → k < high
            → bytes r.memory k ≡ store a (to_bytes 4 w) (bytes s.memory) k)
  unfolding raw_load raw_store store_ranges atomic_unlock
  reserved-conditional h a w l s u e others lo hi =
      let t = reserved h a l s in
      let held : is_locked_by h l ≡ true = lock-is_locked_by h s.bus_lock l e in
      let same : u ≡ t = Others-same isock [] h held others in
      let here : (if h == h then a else s.lr_addr h) ≡ a = ground arith in
      let (m, f, g) =
        memory.writes a (to_bytes 4 w) s.memory lo (omega arith)
          (omega (arith, length-to_bytes 4 w)) in
      (
        load_reserved-own isock [] h a (to_word (load 4 a (bytes s.memory))) l s e
            (ap word_of (memory.reads a 4 s.memory lo (omega arith) hi)),
        atomic_unlock h (record t { memory = m }),
        ap (atomic_store_conditional_word isock [] h a w) same
            ∙ conditional-own isock [] h a w m t held here f,
        unlock-free h l held,
        g,
      )
