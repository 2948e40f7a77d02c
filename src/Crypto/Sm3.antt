-- ===== src/Crypto/Sm3.antt =====
-- vp/src/platform/tiny32/SM3.cpp: the method `SM3_hash` with one round in each clock
-- (`USING_SM3_AC`), and as it is in the other two builds, with all rounds in one activation. The file's
-- global arrays and counters are the state. `sc_uint<32>` is a number below 2 ^ 32, the message one below
-- 2 ^ 512; sums are truncated where the source assigns them to 32 bits.
pub mod Clocks
pub mod Builds
pub mod Tests
use dse_vp.Base.{
  ℕ, zero, suc, ◌+◌, ◌-◌, ◌*◌, ◌/◌, ◌%◌, ◌^◌, Bool, true, false, not, ◌&&◌, ◌||◌, bit_and, bit_or,
  bit_xor, not32, ltb, leb, ◌==◌, if◌then◌else◌, u32, ◌<<◌, ◌>>◌,
}

pub record Registers : Type 0 where
  pub a : ℕ
  pub b : ℕ
  pub c : ℕ
  pub d : ℕ
  pub e : ℕ
  pub f : ℕ
  pub g : ℕ
  pub h : ℕ

pub record Sm3 : Type 0 where
  pub v : Registers
  pub v_buf : Registers
  pub t : ℕ → ℕ
  pub w68 : ℕ → ℕ
  pub w64 : ℕ → ℕ
  pub cf_count : ℕ
  pub w68_count : ℕ
  pub w64_count : ℕ
  pub v_ready_out_count : ℕ
  pub opt : ℕ
  pub v_out : ℕ

pub record Pins : Type 0 where
  pub rst_in : Bool
  pub sm3_rst_in : ℕ
  pub sm3_opt_in : ℕ
  pub message_in : ℕ

abbrev pub iv : Registers
iv = record {
  a = 0x7380166F;
  b = 0x4914B2B9;
  c = 0x172442D7;
  d = 0xDA8A0600;
  e = 0xA96F30BC;
  f = 0x163138AA;
  g = 0xE38DEE4D;
  h = 0xB0FB0E4E;
}

abbrev pub t_init : ℕ → ℕ
t_init j = if ltb j 16 then 0x79CC4519 else 0x7A879D8A

unfoldable pub shift_sm3 : ℕ → ℕ → ℕ
shift_sm3 v length = u32 (bit_xor (v << length) (v >> (32 - length)))

unfoldable pub ff : ℕ → ℕ → ℕ → ℕ → ℕ
ff x y z j =
    if leb j 15
    then bit_xor (bit_xor x y) z
    else if leb j 63
    then bit_or (bit_or (bit_and x y) (bit_and x z)) (bit_and y z)
    else 0

unfoldable pub gg : ℕ → ℕ → ℕ → ℕ → ℕ
gg x y z j =
    if leb j 15
    then bit_xor (bit_xor x y) z
    else if leb j 63
    then bit_or (bit_and x y) (bit_and (not32 x) z)
    else 0

unfoldable pub p0 : ℕ → ℕ
p0 x = bit_xor (bit_xor x (shift_sm3 x 9)) (shift_sm3 x 17)

unfoldable pub p1 : ℕ → ℕ
p1 x = bit_xor (bit_xor x (shift_sm3 x 15)) (shift_sm3 x 23)

abbrev pub update : (ℕ → ℕ) → ℕ → ℕ → ℕ → ℕ
update w i v n = if n == i then v else w n

-- `message.range(511 - j * 32, 480 - j * 32)` in the first 16 words.
abbrev pub load_message : ℕ → (ℕ → ℕ) → ℕ → ℕ
load_message message w j = if ltb j 16 then message / 2 ^ (480 - j * 32) % 2 ^ 32 else w j

abbrev pub expand : (ℕ → ℕ) → ℕ → ℕ
expand w n =
    bit_xor
      (bit_xor (p1 (bit_xor (bit_xor (w (n - 16)) (w (n - 9))) (shift_sm3 (w (n - 3)) 15)))
        (shift_sm3 (w (n - 13)) 7))
      (w (n - 6))

-- One round. The registers are assigned from the last of each half to the first, so that each of
-- them gets what the one before it held.
unfoldable pub round : ℕ → ℕ → ℕ → ℕ → Registers → Registers
round t w68 w64 j r =
    let ss1 = shift_sm3 (u32 (shift_sm3 r.a 12 + r.e + shift_sm3 t (j % 32))) 7 in
    let ss2 = bit_xor ss1 (shift_sm3 r.a 12) in
    let tt1 = u32 (ff r.a r.b r.c j + r.d + ss2 + w64) in
    let tt2 = u32 (gg r.e r.f r.g j + r.h + ss1 + w68) in
    record {
      a = tt1;
      b = r.a;
      c = shift_sm3 r.b 9;
      d = r.c;
      e = p0 tt2;
      f = r.e;
      g = shift_sm3 r.f 19;
      h = r.g;
    }

abbrev pub combine : Registers → Registers → Registers
combine x y = record {
  a = bit_xor x.a y.a;
  b = bit_xor x.b y.b;
  c = bit_xor x.c y.c;
  d = bit_xor x.d y.d;
  e = bit_xor x.e y.e;
  f = bit_xor x.f y.f;
  g = bit_xor x.g y.g;
  h = bit_xor x.h y.h;
}

abbrev pub concat8 : Registers → ℕ
concat8 r =
    ((((((r.a * 2 ^ 32 + r.b) * 2 ^ 32 + r.c) * 2 ^ 32 + r.d) * 2 ^ 32 + r.e) * 2 ^ 32 + r.f)
          * 2 ^ 32
        + r.g)
      * 2 ^ 32
    + r.h

-- The new value, which is put out and counted.
unfoldable pub put_out : Sm3 → Sm3
put_out s =
    let v = combine s.v_buf s.v in
    record s {
      v = v;
      v_buf = v;
      v_out = concat8 v;
      v_ready_out_count = s.v_ready_out_count + 1;
      opt = 0;
    }

unfoldable pub reset : Sm3 → Sm3
reset s = record s {
  cf_count = 0;
  w64_count = 0;
  w68_count = 16;
  opt = 0;
  v_ready_out_count = 0;
  w68 = λ j. 0;
  w64 = λ j. 0;
  t = t_init;
  v = iv;
  v_buf = iv;
}

-- The three parts of an enabled clock, after the message is loaded.
unfoldable pub expand_step : Sm3 → Sm3
expand_step s =
    if leb 16 s.w68_count && leb s.w68_count 67
    then record s {
      w68 = update s.w68 s.w68_count (expand s.w68 s.w68_count);
      w68_count = s.w68_count + 1;
    }
    else s

unfoldable pub mix_step : Sm3 → Sm3
mix_step s =
    if leb s.w64_count 63
    then record s {
      w64 = update s.w64 s.w64_count (bit_xor (s.w68 s.w64_count) (s.w68 (s.w64_count + 4)));
      w64_count = s.w64_count + 1;
    }
    else s

unfoldable pub compress_step : Sm3 → Sm3
compress_step s =
    let j = s.cf_count in
    if leb j 63
    then record s { v_buf = round (s.t j) (s.w68 j) (s.w64 j) j s.v_buf; cf_count = j + 1 }
    else record (put_out s) { cf_count = 0; w64_count = 0; w68_count = 16 }

unfoldable pub clock_ac : ℕ → Sm3 → Sm3
clock_ac message s =
    compress_step (mix_step (expand_step (record s { w68 = load_message message s.w68 })))

-- The loops of the other builds, each for a number of passes from its first count on.
unfoldable pub expand_loop : ℕ → (ℕ → ℕ) → ℕ → ℕ
expand_loop zero w = w
expand_loop (suc n) w = let u = expand_loop n w in update u (16 + n) (expand u (16 + n))

unfoldable pub mix_loop : ℕ → (ℕ → ℕ) → (ℕ → ℕ) → ℕ → ℕ
mix_loop zero w68 w = w
mix_loop (suc n) w68 w = update (mix_loop n w68 w) n (bit_xor (w68 n) (w68 (n + 4)))

unfoldable pub compress_loop : ℕ → (ℕ → ℕ) → (ℕ → ℕ) → (ℕ → ℕ) → Registers → Registers
compress_loop zero t w68 w64 r = r
compress_loop (suc n) t w68 w64 r = round (t n) (w68 n) (w64 n) n (compress_loop n t w68 w64 r)

unfoldable pub activate_ap : ℕ → Sm3 → Sm3
activate_ap message s =
    let w68 = expand_loop 52 (load_message message s.w68) in
    let w64 = mix_loop 64 w68 s.w64 in
    put_out (record s {
      w68 = w68;
      w64 = w64;
      v_buf = compress_loop 64 s.t w68 w64 s.v_buf;
      w68_count = 68;
      w64_count = 64;
      cf_count = 64;
    })

-- `SM3_hash`, with the enabled part of one of the builds.
unfoldable pub sm3_hash : (ℕ → Sm3 → Sm3) → Pins → Sm3 → Sm3
sm3_hash activate p s =
    let started = if p.sm3_opt_in == 1 then record s { opt = 1 } else s in
    if not p.rst_in || p.sm3_rst_in == 1
    then reset started
    else if started.opt == 1 && p.sm3_opt_in == 0
    then activate p.message_in started
    else started
