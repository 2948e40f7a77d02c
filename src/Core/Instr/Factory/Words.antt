-- ===== src/Core/Instr/Factory/Words.antt =====
-- The words of the factory as sums of fields.
use dse_vp.Base.{
  ℕ, ◌+◌, ◌*◌, ◌/◌, ◌%◌, ◌^◌, ◌<◌, ◌≡◌, refl, ◌∙◌, ap, arith, bit_and, bit_or, and_low, and_field,
  or_field, ◌<<◌, ◌>>◌,
}
use dse_vp.Core.Instr.Factory.{◌|%◌}

-- `|` with an expression that is the field of `w` bits at `l`.
pub or_add :
    (w l a v b : ℕ) → b ≡ v * 2 ^ l → a / 2 ^ l % 2 ^ w ≡ 0 → v < 2 ^ w → a |% b ≡ a + v * 2 ^ l
or_add w l a v b e clear fits = ap (bit_or a) e ∙ or_field w l a v clear fits

-- Format R.
pub r_word :
    (d a b op f3 f7 : ℕ)
    → op < 128
    → f3 < 8
    → f7 < 128
    → (bit_and d 31 << 7)
        |% (bit_and a 31 << 15)
        |% (bit_and b 31 << 20)
        |% op
        |% (f3 << 12)
        |% (f7 << 25)
      ≡ op + d % 32 * 2 ^ 7 + f3 * 2 ^ 12 + a % 32 * 2 ^ 15 + b % 32 * 2 ^ 20 + f7 * 2 ^ 25
r_word d a b op f3 f7 hop h3 h7 =
    let x0 = (bit_and d 31 << 7) in
    let e0 : x0 ≡ d % 32 * 2 ^ 7 = (omega (arith, and_low 5 d)) in
    let x1 = x0 |% (bit_and a 31 << 15) in
    let e1 : x1 ≡ x0 + a % 32 * 2 ^ 15 =
      or_add 5 15 x0 (a % 32) _ (omega (arith, and_low 5 a)) (omega arith) (omega arith) in
    let x2 = x1 |% (bit_and b 31 << 20) in
    let e2 : x2 ≡ x1 + b % 32 * 2 ^ 20 =
      or_add 5 20 x1 (b % 32) _ (omega (arith, and_low 5 b)) (omega arith) (omega arith) in
    let x3 = x2 |% op in
    let e3 : x3 ≡ x2 + op * 2 ^ 0 = or_add 7 0 x2 (op) _ (omega arith) (omega arith) hop in
    let x4 = x3 |% (f3 << 12) in
    let e4 : x4 ≡ x3 + f3 * 2 ^ 12 = or_add 3 12 x3 (f3) _ refl (omega arith) h3 in
    let x5 = x4 |% (f7 << 25) in
    let e5 : x5 ≡ x4 + f7 * 2 ^ 25 = or_add 7 25 x4 (f7) _ refl (omega arith) h7 in omega arith

-- Shifts by an immediate, whose amount has six bits.
pub shift_word :
    (d a n op f3 f6 : ℕ)
    → op < 128
    → f3 < 8
    → f6 < 64
    → (bit_and d 31 << 7)
        |% (bit_and a 31 << 15)
        |% (bit_and n 63 << 20)
        |% op
        |% (f3 << 12)
        |% (2 * f6 << 25)
      ≡ op + d % 32 * 2 ^ 7 + f3 * 2 ^ 12 + a % 32 * 2 ^ 15 + n % 64 * 2 ^ 20 + f6 * 2 ^ 26
shift_word d a n op f3 f6 hop h3 h6 =
    let x0 = (bit_and d 31 << 7) in
    let e0 : x0 ≡ d % 32 * 2 ^ 7 = (omega (arith, and_low 5 d)) in
    let x1 = x0 |% (bit_and a 31 << 15) in
    let e1 : x1 ≡ x0 + a % 32 * 2 ^ 15 =
      or_add 5 15 x0 (a % 32) _ (omega (arith, and_low 5 a)) (omega arith) (omega arith) in
    let x2 = x1 |% (bit_and n 63 << 20) in
    let e2 : x2 ≡ x1 + n % 64 * 2 ^ 20 =
      or_add 6 20 x1 (n % 64) _ (omega (arith, and_low 6 n)) (omega arith) (omega arith) in
    let x3 = x2 |% op in
    let e3 : x3 ≡ x2 + op * 2 ^ 0 = or_add 7 0 x2 (op) _ (omega arith) (omega arith) hop in
    let x4 = x3 |% (f3 << 12) in
    let e4 : x4 ≡ x3 + f3 * 2 ^ 12 = or_add 3 12 x3 (f3) _ refl (omega arith) h3 in
    let x5 = x4 |% (2 * f6 << 25) in
    let e5 : x5 ≡ x4 + f6 * 2 ^ 26 = or_add 6 26 x4 (f6) _ (omega arith) (omega arith) h6 in
    omega arith

-- Format I.
pub i_word :
    (d a imm op f3 : ℕ)
    → op < 128
    → f3 < 8
    → (bit_and imm 4095 << 20) |% (bit_and d 31 << 7) |% (bit_and a 31 << 15) |% op |% (f3 << 12)
      ≡ op + d % 32 * 2 ^ 7 + f3 * 2 ^ 12 + a % 32 * 2 ^ 15 + imm % 4096 * 2 ^ 20
i_word d a imm op f3 hop h3 =
    let x0 = (bit_and imm 4095 << 20) in
    let e0 : x0 ≡ imm % 4096 * 2 ^ 20 = (omega (arith, and_low 12 imm)) in
    let x1 = x0 |% (bit_and d 31 << 7) in
    let e1 : x1 ≡ x0 + d % 32 * 2 ^ 7 =
      or_add 5 7 x0 (d % 32) _ (omega (arith, and_low 5 d)) (omega arith) (omega arith) in
    let x2 = x1 |% (bit_and a 31 << 15) in
    let e2 : x2 ≡ x1 + a % 32 * 2 ^ 15 =
      or_add 5 15 x1 (a % 32) _ (omega (arith, and_low 5 a)) (omega arith) (omega arith) in
    let x3 = x2 |% op in
    let e3 : x3 ≡ x2 + op * 2 ^ 0 = or_add 7 0 x2 (op) _ (omega arith) (omega arith) hop in
    let x4 = x3 |% (f3 << 12) in
    let e4 : x4 ≡ x3 + f3 * 2 ^ 12 = or_add 3 12 x3 (f3) _ refl (omega arith) h3 in omega arith

-- Format U.
pub u_word :
    (d imm op : ℕ)
    → op < 128
    → (bit_and imm (1048575 << 12)) |% (bit_and d 31 << 7) |% op
      ≡ op + d % 32 * 2 ^ 7 + imm / 2 ^ 12 % 2 ^ 20 * 2 ^ 12
u_word d imm op hop =
    let x0 = (bit_and imm (1048575 << 12)) in
    let e0 : x0 ≡ imm / 2 ^ 12 % 2 ^ 20 * 2 ^ 12 = and_field 20 12 imm in
    let x1 = x0 |% (bit_and d 31 << 7) in
    let e1 : x1 ≡ x0 + d % 32 * 2 ^ 7 =
      or_add 5 7 x0 (d % 32) _ (omega (arith, and_low 5 d)) (omega arith) (omega arith) in
    let x2 = x1 |% op in
    let e2 : x2 ≡ x1 + op * 2 ^ 0 = or_add 7 0 x1 (op) _ (omega arith) (omega arith) hop in
    omega arith

-- The immediate of format S.
s_imm_word :
    (imm : ℕ)
    → (bit_and imm 31 << 7) |% (bit_and imm (127 << 5) << 20)
      ≡ imm % 32 * 2 ^ 7 + imm / 32 % 128 * 2 ^ 25
s_imm_word imm =
    let x0 = bit_and imm 31 << 7 in
    let e0 : x0 ≡ imm % 32 * 2 ^ 7 = omega (arith, and_low 5 imm) in
    let e1 : x0 |% (bit_and imm (127 << 5) << 20) ≡ x0 + imm / 32 % 128 * 2 ^ 25 =
      or_add 7 25 x0 (imm / 32 % 128) _ (omega (arith, and_field 7 5 imm)) (omega arith)
        (omega arith) in
    omega arith

-- Format S.
pub s_word :
    (a b imm op f3 : ℕ)
    → op < 128
    → f3 < 8
    → ((bit_and imm 31 << 7) |% (bit_and imm (127 << 5) << 20))
        |% (bit_and a 31 << 15)
        |% (bit_and b 31 << 20)
        |% op
        |% (f3 << 12)
      ≡ op
        + imm % 32 * 2 ^ 7
        + f3 * 2 ^ 12
        + a % 32 * 2 ^ 15
        + b % 32 * 2 ^ 20
        + imm / 32 % 128 * 2 ^ 25
s_word a b imm op f3 hop h3 =
    let x0 = ((bit_and imm 31 << 7) |% (bit_and imm (127 << 5) << 20)) in
    let e0 : x0 ≡ imm % 32 * 2 ^ 7 + imm / 32 % 128 * 2 ^ 25 = s_imm_word imm in
    let x1 = x0 |% (bit_and a 31 << 15) in
    let e1 : x1 ≡ x0 + a % 32 * 2 ^ 15 =
      or_add 5 15 x0 (a % 32) _ (omega (arith, and_low 5 a)) (omega arith) (omega arith) in
    let x2 = x1 |% (bit_and b 31 << 20) in
    let e2 : x2 ≡ x1 + b % 32 * 2 ^ 20 =
      or_add 5 20 x1 (b % 32) _ (omega (arith, and_low 5 b)) (omega arith) (omega arith) in
    let x3 = x2 |% op in
    let e3 : x3 ≡ x2 + op * 2 ^ 0 = or_add 7 0 x2 (op) _ (omega arith) (omega arith) hop in
    let x4 = x3 |% (f3 << 12) in
    let e4 : x4 ≡ x3 + f3 * 2 ^ 12 = or_add 3 12 x3 (f3) _ refl (omega arith) h3 in omega arith

-- The immediate of format B.
b_imm_word :
    (imm : ℕ)
    → (((bit_and imm 30 << 7) |% (bit_and imm (1 << 11) >> 4))
        |% ((bit_and imm (63 << 5) << 20) |% (bit_and imm (1 << 12) << 19)))
      ≡ imm / 2 % 16 * 2 ^ 8
        + imm / 2 ^ 11 % 2 * 2 ^ 7
        + imm / 32 % 64 * 2 ^ 25
        + imm / 2 ^ 12 % 2 * 2 ^ 31
b_imm_word imm =
    let x0 = bit_and imm 30 << 7 in
    let e0 : x0 ≡ imm / 2 % 16 * 2 ^ 8 = omega (arith, and_field 4 1 imm) in
    let low = x0 |% (bit_and imm (1 << 11) >> 4) in
    let e1 : low ≡ x0 + imm / 2 ^ 11 % 2 * 2 ^ 7 =
      or_add 1 7 x0 (imm / 2 ^ 11 % 2) _ (omega (arith, and_field 1 11 imm)) (omega arith)
        (omega arith) in
    let y0 = bit_and imm (63 << 5) << 20 in
    let f0 : y0 ≡ imm / 32 % 64 * 2 ^ 25 = omega (arith, and_field 6 5 imm) in
    let high = y0 |% (bit_and imm (1 << 12) << 19) in
    let f1 : high ≡ y0 + imm / 2 ^ 12 % 2 * 2 ^ 31 =
      or_add 1 31 y0 (imm / 2 ^ 12 % 2) _ (omega (arith, and_field 1 12 imm)) (omega arith)
        (omega arith) in
    let e2 : low |% high ≡ low + (imm / 32 % 64 + imm / 2 ^ 12 % 2 * 64) * 2 ^ 25 =
      or_add 7 25 low (imm / 32 % 64 + imm / 2 ^ 12 % 2 * 64) high (omega arith) (omega arith)
        (omega arith) in
    omega arith

-- Format B.
pub b_word :
    (a b imm op f3 : ℕ)
    → op < 128
    → f3 < 8
    → (((bit_and imm 30 << 7) |% (bit_and imm (1 << 11) >> 4))
          |% ((bit_and imm (63 << 5) << 20) |% (bit_and imm (1 << 12) << 19)))
        |% (bit_and a 31 << 15)
        |% (bit_and b 31 << 20)
        |% op
        |% (f3 << 12)
      ≡ op
        + f3 * 2 ^ 12
        + a % 32 * 2 ^ 15
        + b % 32 * 2 ^ 20
        + (imm / 2 % 16 * 2 ^ 8
            + imm / 2 ^ 11 % 2 * 2 ^ 7
            + imm / 32 % 64 * 2 ^ 25
            + imm / 2 ^ 12 % 2 * 2 ^ 31)
b_word a b imm op f3 hop h3 =
    let x0 =
      (((bit_and imm 30 << 7) |% (bit_and imm (1 << 11) >> 4))
        |% ((bit_and imm (63 << 5) << 20) |% (bit_and imm (1 << 12) << 19))) in
    let e0 : x0
        ≡ imm / 2 % 16 * 2 ^ 8
          + imm / 2 ^ 11 % 2 * 2 ^ 7
          + imm / 32 % 64 * 2 ^ 25
          + imm / 2 ^ 12 % 2 * 2 ^ 31 =
      b_imm_word imm in
    let x1 = x0 |% (bit_and a 31 << 15) in
    let e1 : x1 ≡ x0 + a % 32 * 2 ^ 15 =
      or_add 5 15 x0 (a % 32) _ (omega (arith, and_low 5 a)) (omega arith) (omega arith) in
    let x2 = x1 |% (bit_and b 31 << 20) in
    let e2 : x2 ≡ x1 + b % 32 * 2 ^ 20 =
      or_add 5 20 x1 (b % 32) _ (omega (arith, and_low 5 b)) (omega arith) (omega arith) in
    let x3 = x2 |% op in
    let e3 : x3 ≡ x2 + op * 2 ^ 0 = or_add 7 0 x2 (op) _ (omega arith) (omega arith) hop in
    let x4 = x3 |% (f3 << 12) in
    let e4 : x4 ≡ x3 + f3 * 2 ^ 12 = or_add 3 12 x3 (f3) _ refl (omega arith) h3 in omega arith

-- The immediate of format J.
j_imm_word :
    (imm : ℕ)
    → bit_and imm (255 << 12)
        |% (bit_and imm (1 << 11) << 9)
        |% (bit_and imm 2046 << 20)
        |% (bit_and imm (1 << 20) << 11)
      ≡ imm / 2 ^ 12 % 256 * 2 ^ 12
        + imm / 2 ^ 11 % 2 * 2 ^ 20
        + imm / 2 % 1024 * 2 ^ 21
        + imm / 2 ^ 20 % 2 * 2 ^ 31
j_imm_word imm =
    let x0 = bit_and imm (255 << 12) in
    let e0 : x0 ≡ imm / 2 ^ 12 % 256 * 2 ^ 12 = and_field 8 12 imm in
    let x1 = x0 |% (bit_and imm (1 << 11) << 9) in
    let e1 : x1 ≡ x0 + imm / 2 ^ 11 % 2 * 2 ^ 20 =
      or_add 1 20 x0 (imm / 2 ^ 11 % 2) _ (omega (arith, and_field 1 11 imm)) (omega arith)
        (omega arith) in
    let x2 = x1 |% (bit_and imm 2046 << 20) in
    let e2 : x2 ≡ x1 + imm / 2 % 1024 * 2 ^ 21 =
      or_add 10 21 x1 (imm / 2 % 1024) _ (omega (arith, and_field 10 1 imm)) (omega arith)
        (omega arith) in
    let e3 : x2 |% (bit_and imm (1 << 20) << 11) ≡ x2 + imm / 2 ^ 20 % 2 * 2 ^ 31 =
      or_add 1 31 x2 (imm / 2 ^ 20 % 2) _ (omega (arith, and_field 1 20 imm)) (omega arith)
        (omega arith) in
    omega arith

-- Format J.
pub j_word :
    (d imm : ℕ)
    → 111
        |% (bit_and d 31 << 7)
        |% (bit_and imm (255 << 12)
            |% (bit_and imm (1 << 11) << 9)
            |% (bit_and imm 2046 << 20)
            |% (bit_and imm (1 << 20) << 11))
      ≡ 111
        + d % 32 * 2 ^ 7
        + (imm / 2 ^ 12 % 256 * 2 ^ 12
            + imm / 2 ^ 11 % 2 * 2 ^ 20
            + imm / 2 % 1024 * 2 ^ 21
            + imm / 2 ^ 20 % 2 * 2 ^ 31)
j_word d imm =
    let x1 = 111 |% (bit_and d 31 << 7) in
    let e1 : x1 ≡ 111 + d % 32 * 2 ^ 7 =
      or_add 5 7 111 (d % 32) _ (omega (arith, and_low 5 d)) refl (omega arith) in
    let v =
      imm / 2 ^ 12 % 256
      + imm / 2 ^ 11 % 2 * 2 ^ 8
      + imm / 2 % 1024 * 2 ^ 9
      + imm / 2 ^ 20 % 2 * 2 ^ 19 in
    let e2 : x1
          |% (bit_and imm (255 << 12)
              |% (bit_and imm (1 << 11) << 9)
              |% (bit_and imm 2046 << 20)
              |% (bit_and imm (1 << 20) << 11))
        ≡ x1 + v * 2 ^ 12 =
      or_add 20 12 x1 v _ (omega (arith, j_imm_word imm)) (omega arith) (omega arith) in
    omega arith
