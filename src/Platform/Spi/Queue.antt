-- ===== src/Platform/Spi/Queue.antt =====
-- The bytes that devices answer, and the queue.
use dse_vp.Base.{
  ℕ, zero, suc, ◌%◌, ◌^◌, ◌≤◌, ◌<◌, ◌≡◌, refl, sym, ap, ◌∙◌, true, false, Option, none, some, List,
  [], ◌∷◌, ◌++◌, length, get_or, arith,
}
use dse_vp.Tlm.Bytes.{load, store, to_word, to_bytes, length-to_bytes, to_word-to_bytes, load-store}
use dse_vp.Tlm.Memory.{IsPart}
use dse_vp.Platform.Banks.{
  Transfer, RegMapping, transport as transport_bank, try_handle, handle_register, find, byte_of,
  access,
}
use dse_vp.Platform.Banks.Access.{AreBytes, access-write, access-read}
use dse_vp.Platform.Spi.Kept.{
  last_of, last_of-short, last_of-append, length-last_of, push-last_of, append_assoc, AreWords,
  append-AreWords, last_of-AreWords,
}
use dse_vp.Platform.Spi.{
  Spi, WriteFunction, Targets, pop_rx, exchange, before_read, after_write, register_access_callback,
  mapping, transport, txdata_addr, rxdata_addr,
}

to_bytes-AreBytes : (b : ℕ) → AreBytes (λ k. get_or (to_bytes 4 b) k 0)
unfolding to_bytes
to_bytes-AreBytes b zero = omega arith
to_bytes-AreBytes b (suc zero) = omega arith
to_bytes-AreBytes b (suc (suc zero)) = omega arith
to_bytes-AreBytes b (suc (suc (suc zero))) = omega arith
to_bytes-AreBytes b (suc (suc (suc (suc k)))) = omega arith

-- A whole register that is written.
merged-whole :
    (b old : ℕ) → b < 2 ^ 32 → to_word (load 4 0 (store 0 (to_bytes 4 b) (byte_of old))) ≡ b
merged-whole b old h =
    ap (λ n. to_word (load n 0 (store 0 (to_bytes 4 b) (byte_of old)))) (sym (length-to_bytes 4 b))
    ∙ ap to_word (load-store 0 (to_bytes 4 b) (byte_of old))
    ∙ to_word-to_bytes 4 b
    ∙ omega arith

word_of_bytes : (b : ℕ) → b < 2 ^ 32 → to_word (load 4 0 (byte_of b)) ≡ b
unfolding to_word load
word_of_bytes b h = omega arith

module _ {D : Type 0} where
  -- What a device answers to some bytes, and its state then.
  unfoldable pub answers : WriteFunction D → List ℕ → D → List ℕ × D
  answers f [] d = ([], d)
  answers f (b ∷ bs) d = let (a, e) = f (b % 256) d in let (as_, g) = answers f bs e in (a ∷ as_, g)

  answers-AreWords :
      (f : WriteFunction D) (bs : List ℕ) (d : D)
      → ((b : ℕ) (e : D) → (f b e).0 < 256)
      → AreWords (answers f bs d).0
  unfolding answers
  answers-AreWords f [] d byte = tt
  answers-AreWords f (b ∷ bs) d byte =
      (omega (arith, byte (b % 256) d), answers-AreWords f bs (f (b % 256) d).1 byte)

  module _ (targets : Targets D) where
    -- A word that is written to `txdata`, and one that is read from `rxdata`.
    unfoldable pub send : ℕ → Spi D → Option (Spi D)
    send b s =
        elim (transport targets true txdata_addr (record { payload = to_bytes 4 b; state = s })) [
          | none ↦ none
          | some t ↦ some t.state
        ]

    unfoldable pub receive : Spi D → Option (ℕ × Spi D)
    receive s =
        elim (transport targets false rxdata_addr (record { payload = to_bytes 4 0; state = s })) [
          | none ↦ none
          | some t ↦ some (to_word t.payload, t.state)
        ]

    abbrev tx : RegMapping (Spi D)
    tx = mapping txdata_addr (λ s. s.txdata) (λ v s. record s { txdata = v })

    abbrev rx : RegMapping (Spi D)
    rx = mapping rxdata_addr (λ s. s.rxdata) (λ v s. record s { rxdata = v })

    tx-IsPart : IsPart tx.reg
    tx-IsPart = record { view-update = λ v s. refl; update-view = λ s. refl }

    rx-IsPart : IsPart rx.reg
    rx-IsPart = record { view-update = λ v s. refl; update-view = λ s. refl }

    after_write-tx :
        (f : WriteFunction D) (s : Spi D)
        → targets s.csid ≡ some f
        → after_write targets txdata_addr s ≡ record (exchange f s) { txdata = 0 }
    unfolding after_write
    after_write-tx f s e =
        ap
          (λ o. record (elim o as (λ x. Spi D) [ none ↦ s | some g ↦ exchange g s ]) { txdata = 0 })
          e

    before_read-rx :
        (f : WriteFunction D) (b : ℕ) (rest : List ℕ) (s : Spi D)
        → targets s.csid ≡ some f
        → s.rxqueue ≡ b ∷ rest
        → before_read targets rxdata_addr s ≡ record s { rxdata = b; rxqueue = rest }
    unfolding before_read pop_rx
    before_read-rx f b rest s e q =
        ap (λ o. elim o as (λ x. Spi D) [ none ↦ s | some g ↦ pop_rx s ]) e
        ∙ ap
            (λ o. elim o as (λ x. Spi D) [
              | [] ↦ record s { rxdata = 2 ^ 31 }
              | a ∷ r ↦ record s { rxdata = a; rxqueue = r }
            ])
            q

    send-exchange :
        (f : WriteFunction D) (b : ℕ) (s : Spi D)
        → targets s.csid ≡ some f
        → b < 2 ^ 32
        → send b s ≡ some (record (exchange f (record s { txdata = b })) { txdata = 0 })
    unfolding send transport transport_bank try_handle handle_register find register_access_callback
        to_bytes
    send-exchange f b s e h =
        ap
          (λ o.
            elim (elim o as (λ x. Option (Transfer (Spi D))) [
              | none ↦ none
              | some u ↦ some (record u { state = after_write targets txdata_addr u.state })
            ])
              as (λ x. Option (Spi D)) [ none ↦ none | some t ↦ some t.state ])
          (access-write tx tx-IsPart refl refl 0 (to_bytes 4 b) s (to_bytes-AreBytes b))
        ∙ ap (λ v. some (after_write targets txdata_addr (record s { txdata = v })))
            (merged-whole b s.txdata h)
        ∙ ap some (after_write-tx f (record s { txdata = b }) e)

    receive-pop :
        (f : WriteFunction D) (b : ℕ) (rest : List ℕ) (s : Spi D)
        → targets s.csid ≡ some f
        → s.rxqueue ≡ b ∷ rest
        → b < 2 ^ 32
        → receive s ≡ some (b, record s { rxdata = b; rxqueue = rest })
    unfolding receive transport transport_bank try_handle handle_register find
        register_access_callback to_bytes
    receive-pop f b rest s e q h =
        ap
          (λ v.
            elim (access rx false 0 (record { payload = to_bytes 4 0; state = v }))
              as (λ x. Option (ℕ × Spi D)) [
                | none ↦ none
                | some t ↦ some (to_word t.payload, t.state)
              ])
          (before_read-rx f b rest s e q)
        ∙ ap
            (λ o. elim o as (λ x. Option (ℕ × Spi D)) [
              | none ↦ none
              | some t ↦ some (to_word t.payload, t.state)
            ])
            (access-read rx rx-IsPart refl refl 0 (to_bytes 4 0)
              (record s { rxdata = b; rxqueue = rest }))
        ∙ ap (λ v. some (v, record s { rxdata = b; rxqueue = rest })) (word_of_bytes b h)

    unfoldable pub send_all : List ℕ → Spi D → Option (Spi D)
    send_all [] s = some s
    send_all (b ∷ bs) s = elim (send b s) [ none ↦ none | some t ↦ send_all bs t ]

    unfoldable pub receive_all : ℕ → Spi D → Option (List ℕ × Spi D)
    receive_all zero s = some ([], s)
    receive_all (suc n) s = elim (receive s) [
      | none ↦ none
      | some (v, t) ↦ elim (receive_all n t) [ none ↦ none | some (vs, u) ↦ some (v ∷ vs, u) ]
    ]

    -- What is in the queue, and the device, after some bytes.
    record IsSent (f : WriteFunction D) (bs : List ℕ) (s t : Spi D) : Type 0 where
      queued : t.rxqueue ≡ last_of (s.rxqueue ++ (answers f bs s.devices).0)
      finished : t.devices ≡ (answers f bs s.devices).1
      selected : t.csid ≡ s.csid

    send_all-IsSent :
        (f : WriteFunction D) (bs : List ℕ) (s : Spi D)
        → targets s.csid ≡ some f
        → AreWords bs
        → length s.rxqueue ≤ 16
        → (t : Spi D) × (send_all bs s ≡ some t) × IsSent f bs s t
    unfolding send_all answers exchange
    send_all-IsSent f [] s e h room = (
      s,
      refl,
      record { queued = last_of-short s.rxqueue room; finished = refl; selected = refl },
    )
    send_all-IsSent f (b ∷ bs) s e (h, hs) room =
        let s' = record (exchange f (record s { txdata = b })) { txdata = 0 } in
        let a = (f (b % 256) s.devices).0 in
        let short : s'.rxqueue ≡ last_of (s.rxqueue ++ (a ∷ [])) = push-last_of a s.rxqueue room in
        let (t, g, sent) =
          send_all-IsSent f bs s' e hs (rw short (length-last_of (s.rxqueue ++ (a ∷ [])))) in
        (
          t,
          ap (λ o. elim o as (λ x. Option (Spi D)) [ none ↦ none | some v ↦ send_all bs v ])
                (send-exchange f b s e h)
              ∙ g,
          record {
            queued =
                sent.queued
                ∙ ap (λ q. last_of (q ++ (answers f bs s'.devices).0)) short
                ∙ last_of-append (s.rxqueue ++ (a ∷ [])) (answers f bs s'.devices).0
                ∙ ap last_of (append_assoc s.rxqueue (a ∷ []) (answers f bs s'.devices).0);
            finished = sent.finished;
            selected = sent.selected;
          },
        )

    receive_all-queue :
        (f : WriteFunction D) (xs : List ℕ) (s : Spi D)
        → targets s.csid ≡ some f
        → s.rxqueue ≡ xs
        → AreWords xs
        → (u : Spi D) × (receive_all (length xs) s ≡ some (xs, u))
          × (u.rxqueue ≡ [])
          × (u.devices ≡ s.devices)
    unfolding receive_all
    receive_all-queue f [] s e q h = (s, refl, q, refl)
    receive_all-queue f (x ∷ xs) s e q (h, hs) =
        let s' = record s { rxdata = x; rxqueue = xs } in
        let (u, g, empty, same) = receive_all-queue f xs s' e refl hs in
        (
          u,
          ap
                (λ o. elim o as (λ x. Option (List ℕ × Spi D)) [
                  | none ↦ none
                  | some (v, t) ↦
                      elim (receive_all (length xs) t) as (λ x. Option (List ℕ × Spi D)) [
                        | none ↦ none
                        | some (vs, w) ↦ some (v ∷ vs, w)
                      ]
                ])
                (receive-pop f x xs s e q h)
              ∙ ap
                  (λ o. elim o as (λ x. Option (List ℕ × Spi D)) [
                    | none ↦ none
                    | some (vs, w) ↦ some (x ∷ vs, w)
                  ])
                  g,
          empty,
          same,
        )

    -- Words that are written to `txdata` while a device is selected reach the device, each as its lowest byte
    -- and in order, and reads of `rxdata` return its answers in order, each once: with those that were in
    -- the queue before, if they are at most 16, and otherwise the last 16 of both. The device
    -- answers with bytes.
    pub send_all-receive_all :
        (f : WriteFunction D) (bs : List ℕ) (s : Spi D)
        → targets s.csid ≡ some f
        → ((b : ℕ) (e : D) → (f b e).0 < 256)
        → AreWords bs
        → AreWords s.rxqueue
        → length s.rxqueue ≤ 16
        → let kept = last_of (s.rxqueue ++ (answers f bs s.devices).0) in
          (t : Spi D) × (u : Spi D) × (send_all bs s ≡ some t)
          × (receive_all (length kept) t ≡ some (kept, u))
          × (u.rxqueue ≡ [])
          × (u.devices ≡ (answers f bs s.devices).1)
    send_all-receive_all f bs s e byte h hq room =
        let kept = last_of (s.rxqueue ++ (answers f bs s.devices).0) in
        let (t, sends, sent) = send_all-IsSent f bs s e h room in
        let words : AreWords kept = last_of-AreWords (s.rxqueue ++ (answers f bs s.devices).0) (
          append-AreWords s.rxqueue (answers f bs s.devices).0 hq
            (answers-AreWords f bs s.devices byte)) in
        let (u, receives, empty, same) =
          receive_all-queue f kept t (ap targets sent.selected ∙ e) sent.queued words in
        (t, u, sends, receives, empty, same ∙ sent.finished)
