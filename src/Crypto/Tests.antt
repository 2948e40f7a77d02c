-- ===== src/Crypto/Tests.antt =====
-- The accelerator and the coprocessor at concrete inputs.
use dse_vp.Base.{ℕ, ◌<◌, ◌≡◌, refl, true, false, some, bit_xor, arith}
use dse_vp.Crypto.Sm4.{Pins, Sm4, key_exp, enc_dec, round_f}
use dse_vp.Crypto.Sm4.Window.{clocks}
use dse_vp.Crypto.Sm4.Schedule.{schedule, key_exp-schedule}
use dse_vp.Crypto.Sm4.RoundTrip.{decrypt-encrypt}
use dse_vp.Crypto.Nice.{
  custom3_sm4ks, custom3_sm4ed, custom3_sm4ks_t, custom3_sm4ed_t, custom3_sm4ks_linear,
  custom3_sm4ks_sub, custom3_sm4ed_linear, custom3_sm4ed_sub, custom3_sm4-eq-round_f,
}

-- The key and the block of the standard's example.
abbrev block : ℕ
block = 0x0123456789abcdeffedcba9876543210

abbrev pins : Pins
pins = record {
  rst_in = true;
  key_exp_en_in = true;
  enc_dec_en_in = true;
  mode_in = true;
  key_in = block;
  data_in = block;
}

abbrev after_reset : Sm4
after_reset = record {
  rk = λ n. 0;
  x = λ n. 0;
  i = 0;
  j = 0;
  rk_ready = false;
  encdata_ready = false;
  decdata_ready = false;
  data_out = 0;
}

key_exp-schedule_example :
    (t : Sm4) × (clocks (key_exp pins) 32 after_reset ≡ some t)
    × (t.rk_ready ≡ true)
    × ((n : ℕ) → n < 36 → t.rk n ≡ schedule block n)
key_exp-schedule_example = key_exp-schedule pins after_reset refl refl refl

decrypt-encrypt_example :
    (t : Sm4) × (u : Sm4) × (clocks (enc_dec pins) 32 after_reset ≡ some t)
    × (t.encdata_ready ≡ true)
    × (clocks (enc_dec (record pins { mode_in = false; data_in = t.data_out })) 32 t ≡ some u)
    × (u.decdata_ready ≡ true)
    × (u.data_out ≡ block)
decrypt-encrypt_example = decrypt-encrypt pins after_reset refl refl refl refl (omega arith)

custom3_sm4-eq-round_f_example :
    (custom3_sm4ks 3 5 ≡ bit_xor 3 (round_f 5 true))
    × (custom3_sm4ed 3 5 ≡ bit_xor 3 (round_f 5 false))
    × (custom3_sm4ks_t 5 ≡ round_f 5 true)
    × (custom3_sm4ed_t 5 ≡ round_f 5 false)
    × (custom3_sm4ks_linear (custom3_sm4ks_sub 5) ≡ round_f 5 true)
    × (custom3_sm4ed_linear (custom3_sm4ed_sub 5) ≡ round_f 5 false)
custom3_sm4-eq-round_f_example = custom3_sm4-eq-round_f 3 5
