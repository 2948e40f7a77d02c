-- ===== src/Crypto/Nice.antt =====
-- The custom instructions of vp/src/core/rv32/nice.h. An `unsigned int` is a number below 2 ^ 32.
-- The calls of `add_activity`, which only feed the power model, are left out.
use dse_vp.Base.{
  ℕ, ◌+◌, ◌-◌, ◌*◌, ◌/◌, ◌%◌, ◌^◌, ◌<◌, ◌≤◌, ◌≡◌, sym, ap, ap₂, ◌∙◌, Bool, true, false, arith,
  bit_and, bit_or, bit_xor, get_or, u32, ◌<<◌, ◌>>◌, ◌==◌, if◌then◌else◌, and_low, or_field, or_low,
  rotate_or, rotate_xor,
}
use dse_vp.Crypto.Tables.{sm4_sbox, sbox, sbox-lt, sm4_sbox-eq-sbox}
use dse_vp.Crypto.Sm4.{shift, tau, round_f}
use dse_vp.Crypto.Sm4.RoundTrip.{tau-lt}

-- The macros `SM3_Rotl32` and `SM4_Rotl32`, which have one text.
unfoldable pub rotl32 : ℕ → ℕ → ℕ
rotl32 buf n = bit_or (u32 (buf << n)) (buf >> (32 - n))

unfoldable pub custom3_sm3p0 : ℕ → ℕ
custom3_sm3p0 x = bit_xor (bit_xor x (rotl32 x 9)) (rotl32 x 17)

unfoldable pub custom3_sm3p1 : ℕ → ℕ
custom3_sm3p1 x = bit_xor (bit_xor x (rotl32 x 15)) (rotl32 x 23)

unfoldable pub sm4_nonlinear : ℕ → ℕ
sm4_nonlinear a =
    bit_or
      (bit_or
        (bit_or (get_or sm4_sbox (bit_and (a >> 24) 0xFF) 0 << 24)
          (get_or sm4_sbox (bit_and (a >> 16) 0xFF) 0 << 16))
        (get_or sm4_sbox (bit_and (a >> 8) 0xFF) 0 << 8))
      (get_or sm4_sbox (bit_and a 0xFF) 0)

unfoldable pub sm4_linear : ℕ → ℕ → ℕ
sm4_linear b mode =
    if mode == 0
    then bit_xor (bit_xor b (rotl32 b 13)) (rotl32 b 23)
    else if mode == 1
    then bit_xor (bit_xor (bit_xor (bit_xor b (rotl32 b 2)) (rotl32 b 10)) (rotl32 b 18))
        (rotl32 b 24)
    else 1

unfoldable pub custom3_sm4ks : ℕ → ℕ → ℕ
custom3_sm4ks k tk = bit_xor k (sm4_linear (sm4_nonlinear tk) 0)

unfoldable pub custom3_sm4ed : ℕ → ℕ → ℕ
custom3_sm4ed x tx = bit_xor x (sm4_linear (sm4_nonlinear tx) 1)

unfoldable pub custom3_sm4ks_t : ℕ → ℕ
custom3_sm4ks_t tk = sm4_linear (sm4_nonlinear tk) 0

unfoldable pub custom3_sm4ed_t : ℕ → ℕ
custom3_sm4ed_t tx = sm4_linear (sm4_nonlinear tx) 1

-- `custom3_sm4ks_L` and `custom3_sm4ed_L`: the linear part alone.
unfoldable pub custom3_sm4ks_linear : ℕ → ℕ
custom3_sm4ks_linear tk = sm4_linear tk 0

unfoldable pub custom3_sm4ed_linear : ℕ → ℕ
custom3_sm4ed_linear tx = sm4_linear tx 1

-- `custom3_sm4ks_l` and `custom3_sm4ed_l`: the substitution alone.
unfoldable pub custom3_sm4ks_sub : ℕ → ℕ
custom3_sm4ks_sub tk = sm4_nonlinear tk

unfoldable pub custom3_sm4ed_sub : ℕ → ℕ
custom3_sm4ed_sub tx = sm4_nonlinear tx

-- `|` of the two shifted parts is the accelerator's `^` of them.
pub rotl32-eq-shift : (x n : ℕ) → x < 2 ^ 32 → n ≤ 32 → rotl32 x n ≡ shift x n
unfolding rotl32 shift
rotl32-eq-shift x n h k = rotate_or x n h k ∙ sym (rotate_xor x n h k)

byte_at : (a n : ℕ) → get_or sm4_sbox (bit_and (a >> n) 0xFF) 0 ≡ get_or sbox (a / 2 ^ n % 2 ^ 8) 0
byte_at a n = ap₂ (λ t i. get_or t i 0) sm4_sbox-eq-sbox (and_low 8 (a / 2 ^ n))

last_byte : (a : ℕ) → get_or sm4_sbox (bit_and a 0xFF) 0 ≡ get_or sbox (a % 2 ^ 8) 0
last_byte a = ap₂ (λ t i. get_or t i 0) sm4_sbox-eq-sbox (and_low 8 a)

bytes_or :
    (a b c d : ℕ)
    → a < 256
    → b < 256
    → c < 256
    → d < 256
    → bit_or (bit_or (bit_or (a << 24) (b << 16)) (c << 8)) d
      ≡ ((a * 2 ^ 8 + b) * 2 ^ 8 + c) * 2 ^ 8 + d
bytes_or a b c d ha hb hc hd =
    let three : ℕ = (a * 2 ^ 8 + b) * 2 ^ 8 + c in
    ap (λ t. bit_or (bit_or t (c << 8)) d) (or_field 8 16 (a << 24) b (omega arith) hb)
    ∙ ap (λ t. bit_or t d) (or_field 8 8 (a * 2 ^ 24 + b * 2 ^ 16) c (omega arith) hc)
    ∙ ap (λ t. bit_or t d) {x = a * 2 ^ 24 + b * 2 ^ 16 + c * 2 ^ 8} {y = three * 2 ^ 8}
        (omega arith)
    ∙ or_low 8 three d hd

pub sm4_nonlinear-eq-tau : (a : ℕ) → sm4_nonlinear a ≡ tau a
unfolding sm4_nonlinear tau
sm4_nonlinear-eq-tau a =
    rw (byte_at a 24, byte_at a 16, byte_at a 8, last_byte a)
      (bytes_or _ _ _ _ (sbox-lt _) (sbox-lt _) (sbox-lt _) (sbox-lt _))

sm4_linear-eq : (mode : Bool) (v : ℕ) → sm4_linear (tau v) (if mode then 0 else 1) ≡ round_f v mode
unfolding sm4_linear round_f
sm4_linear-eq true v = rw (
  rotl32-eq-shift (tau v) 13 (tau-lt v) (omega arith),
  rotl32-eq-shift (tau v) 23 (tau-lt v) (omega arith),
)
sm4_linear-eq false v = rw (
  rotl32-eq-shift (tau v) 2 (tau-lt v) (omega arith),
  rotl32-eq-shift (tau v) 10 (tau-lt v) (omega arith),
  rotl32-eq-shift (tau v) 18 (tau-lt v) (omega arith),
  rotl32-eq-shift (tau v) 24 (tau-lt v) (omega arith),
)

-- The coprocessor's SM4 instructions compute what one round of the accelerator computes: the F form
-- adds `RoundF` of the second operand to the first, the T form is `RoundF`, and so is the L form
-- applied to the result of the l form, in key expansion and in encryption alike.
pub custom3_sm4-eq-round_f :
    (k v : ℕ)
    → (custom3_sm4ks k v ≡ bit_xor k (round_f v true))
      × (custom3_sm4ed k v ≡ bit_xor k (round_f v false))
      × (custom3_sm4ks_t v ≡ round_f v true)
      × (custom3_sm4ed_t v ≡ round_f v false)
      × (custom3_sm4ks_linear (custom3_sm4ks_sub v) ≡ round_f v true)
      × (custom3_sm4ed_linear (custom3_sm4ed_sub v) ≡ round_f v false)
unfolding custom3_sm4ks custom3_sm4ed custom3_sm4ks_t custom3_sm4ed_t custom3_sm4ks_linear
    custom3_sm4ed_linear custom3_sm4ks_sub custom3_sm4ed_sub
custom3_sm4-eq-round_f k v =
    let expands : sm4_linear (sm4_nonlinear v) 0 ≡ round_f v true =
      ap (λ t. sm4_linear t 0) (sm4_nonlinear-eq-tau v) ∙ sm4_linear-eq true v in
    let ciphers : sm4_linear (sm4_nonlinear v) 1 ≡ round_f v false =
      ap (λ t. sm4_linear t 1) (sm4_nonlinear-eq-tau v) ∙ sm4_linear-eq false v in
    (ap (bit_xor k) expands, ap (bit_xor k) ciphers, expands, ciphers, expands, ciphers)
