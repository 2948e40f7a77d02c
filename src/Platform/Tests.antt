-- ===== src/Platform/Tests.antt =====
-- The interrupt controller at concrete states.
use dse_vp.Base.{
  ℕ, ◌<◌, min, [], ◌∷◌, ◌≡◌, refl, true, false, ◌||◌, Option, some, none, arith, if◌then◌else◌,
  ◌==◌,
}
use dse_vp.Core.Trap.{Hart, Csrs, Cause, Tvec, machine_mode}
use dse_vp.Core.Trap.Pins.{external_pin}
use dse_vp.Platform.IrqBits.{test_irq}
use dse_vp.Platform.Fe310Plic.{
  Config, Fe310Plic, hart_get_next_pending_interrupt, hart_has_pending_enabled_interrupts,
  pre_read_hart_config, post_write_hart_config, gateway_trigger_interrupt, run,
}
use dse_vp.Platform.Fe310Plic.Claims.{IsNext, claim-exact}
use dse_vp.Platform.Fe310Plic.Delivery.{
  IsSettled, IsPinned, run-IsSettled, run-gateway, complete-IsSettled, complete-early,
}
use dse_vp.Platform.Clint.{
  Clint, update_timer, update_timers, update_and_get_mtime, run as run_clint,
}
use dse_vp.Platform.Clint.Timer.{IsEarliest, IsTimely, run-IsTimely}
use dse_vp.Platform.Slip.{Slip, length, handle_input, write_all}
use dse_vp.Platform.Slip.Framing.{is_clear, write_all-handle_input, write_all-confused}

abbrev no_cause : Cause
no_cause = record { interrupt = false; exception_code = 0 }

abbrev handler : Tvec
handler = record { mode = 0; base = 64 }

abbrev csrs : Csrs
csrs = record {
  mstatus = record {
    uie = false;
    sie = false;
    mie = true;
    upie = false;
    spie = false;
    mpie = false;
    spp = 0;
    mpp = 0;
    fs = 0;
    xs = 0;
    mprv = false;
    sum = false;
    mxr = false;
    tvm = false;
    tw = false;
    tsr = false;
    sd = false;
  };
  mie = 2048;
  mip = 0;
  mideleg = 0;
  sideleg = 0;
  medeleg = 0;
  sedeleg = 0;
  mcause = no_cause;
  scause = no_cause;
  ucause = no_cause;
  mtval = 0;
  stval = 0;
  utval = 0;
  mepc = 0;
  sepc = 0;
  uepc = 0;
  mtvec = handler;
  stvec = handler;
  utvec = handler;
  misa = 0;
}

abbrev hart : Hart
hart = record { pc = 0; last_pc = 0; prv = 3; lr_sc_counter = 0; bus_locked = false; csrs = csrs }

-- The instance of vp/src/platform/hifive/hifive_main.cpp.
abbrev hifive : Config
hifive = record { number_cores = 1; number_interrupts = 53; max_priority = 7 }

-- Sources 3 and 40 are enabled, and the sources of `pending` are pending.
abbrev plic : ℕ → Fe310Plic
plic pending = record {
  interrupt_priorities = λ i. if i == 40 then 5 else 1;
  pending_interrupts = λ i. if i == 0 then pending else 0;
  hart_enabled_interrupts = λ i. if i == 0 then 8 else 256;
  priority_threshold = λ i. 0;
  claim_response = λ i. 0;
  hart_eip = λ i. false;
  target_harts = λ i. hart;
  irq_level = machine_mode;
  notified = false;
}

pinned : (pending : ℕ) → IsPinned (plic pending)
pinned pending = (refl, λ i. refl)

claim-exact_example :
    let id = hart_get_next_pending_interrupt hifive (plic 8) 0 false in
    IsNext hifive (plic 8) 0 false id
    × ((q : Fe310Plic) × (pre_read_hart_config hifive 4 4 (plic 8) ≡ some q)
        × (q.claim_response 0 ≡ id)
        × (q.hart_eip ≡ (plic 8).hart_eip)
        × ((j : ℕ)
            → test_irq q.pending_interrupts j
              ≡ (if j == id then false else test_irq (plic 8).pending_interrupts j)))
claim-exact_example = claim-exact hifive (plic 8) (omega arith) (omega arith)

abbrev get : Option Fe310Plic → Fe310Plic
get none = plic 0
get (some q) = q

run-IsSettled_example :
    let q = run hifive (plic 8) in
    IsSettled hifive q
    × IsPinned q
    × ((i : ℕ)
        → i < 1
        → q.hart_eip i ≡ (false || hart_has_pending_enabled_interrupts hifive (plic 8) i))
run-IsSettled_example = run-IsSettled hifive (plic 8) (pinned 8)

run-gateway_example :
    external_pin ((run hifive (get (gateway_trigger_interrupt hifive 3 (plic 0)))).target_harts 0)
    ≡ 1
unfolding gateway_trigger_interrupt test_irq
run-gateway_example =
    run-gateway hifive (plic 0) (get (gateway_trigger_interrupt hifive 3 (plic 0))) 3 0 refl
      (pinned 0) (omega arith) refl (omega arith)

complete-IsSettled_example :
    let p = run hifive (plic 8) in
    (q : Fe310Plic) × (post_write_hart_config hifive 4 4 p ≡ some q)
    × IsPinned q
    × IsSettled hifive q
    × (external_pin (q.target_harts 0)
        ≡ (if hart_has_pending_enabled_interrupts hifive p 0 then 1 else 0))
complete-IsSettled_example =
    complete-IsSettled hifive (run hifive (plic 8)) (omega arith)
      (run-IsSettled hifive (plic 8) (pinned 8)).1 (run-IsSettled hifive (plic 8) (pinned 8)).0

complete-early_example :
    let q = get (gateway_trigger_interrupt hifive 3 (plic 0)) in
    (post_write_hart_config hifive 4 4 q ≡ none)
    × ((r : Fe310Plic) × (post_write_hart_config hifive 4 4 (run hifive q) ≡ some r))
unfolding gateway_trigger_interrupt test_irq
complete-early_example =
    complete-early hifive (plic 0) (get (gateway_trigger_interrupt hifive 3 (plic 0))) 3 refl
      (omega arith) refl refl (omega arith)

earlier : Option ℕ → ℕ → Option ℕ
earlier none t = some t
earlier (some u) t = some (min u t)

earlier-IsEarliest : IsEarliest earlier
unfolding earlier
earlier-IsEarliest = record { first = λ t. refl; further = λ u t. refl }

-- Hart 0 waits for 5 and hart 1 for 9 microseconds.
abbrev clint : Clint
clint = record {
  mtime = 0;
  mtimecmp = λ i. if i == 0 then 5 else 9;
  msip = λ i. 0;
  target_harts = λ i. hart;
  irq_event = some 7000000;
}

run-IsTimely_example :
    let t = run_clint earlier 2 7000000 clint in IsTimely 7000000 9 (t.target_harts 1) t.irq_event
run-IsTimely_example =
    run-IsTimely earlier earlier-IsEarliest 2 7000000 1 clint (omega arith) (omega arith)
      (omega arith) (omega arith)

clint_wakes : (run_clint earlier 2 7000000 clint).irq_event ≡ some 9000000
unfolding run_clint update_and_get_mtime update_timers update_timer earlier
clint_wakes = refl

abbrev no_packet : Slip
no_packet = record { sndbuf = []; sent = [] }

-- The end byte, the escape byte and a plain one.
write_all-handle_input_example :
    write_all (λ q. some (length q)) (handle_input (0xC0 ∷ 0xDB ∷ 7 ∷ [])) no_packet
    ≡ some (record { sndbuf = []; sent = (0xC0 ∷ 0xDB ∷ 7 ∷ []) ∷ [] })
unfolding is_clear
write_all-handle_input_example =
    write_all-handle_input (λ q. some (length q)) 0xC0 (0xDB ∷ 7 ∷ []) [] (λ q. refl) refl

write_all-confused_example :
    (write_all (λ q. some (length q)) (handle_input (0xDB ∷ 0xDC ∷ 7 ∷ [])) no_packet
      ≡ some (record { sndbuf = []; sent = (0xC0 ∷ 7 ∷ []) ∷ [] }))
    × (write_all (λ q. some (length q)) (handle_input (0xC0 ∷ 7 ∷ [])) no_packet
        ≡ write_all (λ q. some (length q)) (handle_input (0xDB ∷ 0xDC ∷ 7 ∷ [])) no_packet)
unfolding is_clear
write_all-confused_example = write_all-confused (λ q. some (length q)) (7 ∷ []) [] (λ q. refl) refl
