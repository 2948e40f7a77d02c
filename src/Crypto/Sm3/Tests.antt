-- ===== src/Crypto/Sm3/Tests.antt =====
-- The accelerator at the padded message of the standard's first example.
use dse_vp.Base.{◌+◌, ◌*◌, ◌^◌, ◌≡◌, refl, true}
use dse_vp.Crypto.Sm3.{Sm3, Pins, iv, t_init, sm3_hash, clock_ac, activate_ap}
use dse_vp.Crypto.Sm3.Builds.{activations, activations-builds}

abbrev pins : Pins
pins = record {
  rst_in = true;
  sm3_rst_in = 0;
  sm3_opt_in = 0;
  message_in = 0x61626380 * 2 ^ 480 + 24;
}

abbrev started : Sm3
started = record {
  v = iv;
  v_buf = iv;
  t = t_init;
  w68 = λ j. 0;
  w64 = λ j. 0;
  cf_count = 0;
  w68_count = 16;
  w64_count = 0;
  v_ready_out_count = 0;
  opt = 1;
  v_out = 0;
}

activations-builds_example :
    activations clock_ac pins 65 started
    ≡ record (sm3_hash activate_ap pins started) { cf_count = 0; w64_count = 0; w68_count = 16 }
activations-builds_example = activations-builds pins started refl refl refl refl refl refl refl
