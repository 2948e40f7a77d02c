-- ===== src/Platform/Dma.antt =====
-- The direct memory access controller of vp/src/platform/basic/dma.h. The processor writes its registers
-- through `transport`, and `run` performs the operation over the socket `isock`. A failed assertion,
-- and an access that fails, is `none`. The response to an access is not looked at: a read that is not answered
-- leaves the buffer. Delays are left out.
pub mod Copy
use dse_vp.Base.{
  ℕ, zero, suc, ◌+◌, ◌-◌, ◌/◌, Bool, true, false, Option, none, some, List, length, ltb, ◌==◌,
  if◌then◌else◌, add32,
}
use dse_vp.Tlm.{Response, ok, address_error, failure, Target}
use dse_vp.Tlm.Bytes.{load, store, to_word, to_bytes}

pub record Dma : Type 0 where
  pub src : ℕ
  pub dst : ℕ
  pub len : ℕ
  pub op : ℕ
  pub buffer : ℕ → ℕ
  pub notified : Bool

abbrev pub buffer_size : ℕ
buffer_size = 64

-- The offsets of the registers.
unfoldable pub read_register : ℕ → Dma → Option ℕ
read_register addr d =
    if addr == 0
    then some d.src
    else if addr == 4
    then some d.dst
    else if addr == 8
    then some d.len
    else if addr == 12
    then some d.op
    else none

unfoldable pub write_register : ℕ → ℕ → Dma → Option Dma
write_register addr v d =
    if addr == 0
    then some (record d { src = v })
    else if addr == 4
    then some (record d { dst = v })
    else if addr == 8
    then some (record d { len = v })
    else if addr == 12
    then some (record d { op = v; notified = true })
    else none

abbrev pub answered : Dma → Option ℕ → Response (List ℕ × Dma)
answered d none = failure
answered d (some v) = ok (to_bytes 4 v, d)

abbrev pub written : Option Dma → Response Dma
written none = failure
written (some d) = ok d

-- Whole registers only.
unfoldable pub transport : Target Dma
transport = record {
  read = λ addr n d. if n == 4 then answered d (read_register addr d) else failure;
  write =
      λ addr bs d. if length bs == 4 then written (write_register addr (to_word bs) d) else failure;
}

module _ {M : Type 0} (isock : Target M) where
  -- The two accesses of `do_transaction`, with the buffer and the platform.
  abbrev pub fetched : Dma → M → Response (List ℕ × M) → Option (Dma × M)
  fetched d m (ok (bs, m')) = some (record d { buffer = store 0 bs d.buffer }, m')
  fetched d m address_error = some (d, m)
  fetched d m failure = none

  abbrev pub stored : Dma → M → Response M → Option (Dma × M)
  stored d m (ok m') = some (d, m')
  stored d m address_error = some (d, m)
  stored d m failure = none

  abbrev pub write_block : ℕ → ℕ → Option (Dma × M) → Option (Dma × M)
  write_block off n none = none
  write_block off n (some (d, m)) = stored d m (isock.write (add32 d.dst off) (load n 0 d.buffer) m)

  unfoldable pub copy_block : ℕ → ℕ → Dma → M → Option (Dma × M)
  copy_block off n d m = write_block off n (fetched d m (isock.read (add32 d.src off) n m))

  -- The loop, for as many passes as the fuel allows, and the last block.
  unfoldable pub copy_blocks : ℕ → ℕ → ℕ → Dma → M → Option (Dma × M)
  copy_blocks zero off n d m = none
  copy_blocks (suc fuel) off n d m = elim (ltb buffer_size n) [
    | false ↦ copy_block off n d m
    | true ↦ elim (copy_block off buffer_size d m) [
      | none ↦ none
      | some (d', m') ↦ copy_blocks fuel (add32 off buffer_size) (n - buffer_size) d' m'
    ]
  ]

  unfoldable pub perform_memcpy : Dma → M → Option (Dma × M)
  perform_memcpy d m = copy_blocks (d.len / buffer_size + 1) 0 d.len d m

  -- `trigger` is the interrupt controller's `gateway_trigger_interrupt` for the controller's source.
  unfoldable pub run : (M → Option M) → Dma → M → Option (Dma × M)
  run trigger d m =
      let woken = record d { notified = false } in
      let performed =
        if d.op == 0 then some (woken, m) else if d.op == 1 then perform_memcpy woken m else none in
      elim performed [
        | none ↦ none
        | some (d', m') ↦ elim (trigger m') [ none ↦ none | some m'' ↦ some (d', m'') ]
      ]
