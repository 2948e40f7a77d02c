-- ===== src/Crypto/Sm4.antt =====
-- vp/src/platform/tiny32/SM4.cpp as it is built: `USING_SM4_AC`, one round in each clock.
-- `KeyExp` and `EncDec` are the two clocked methods, and the file's global arrays and counters are
-- the state. `sc_biguint<128>` is a number below 2 ^ 128, `sc_uint<32>` one below 2 ^ 32. An index
-- past the 36 words of `rk` and `X`, which C++ leaves undefined, is `none`.
pub mod Window
pub mod Schedule
pub mod RoundTrip
use dse_vp.Base.{
  ℕ, ◌+◌, ◌-◌, ◌*◌, ◌/◌, ◌%◌, ◌^◌, Bool, true, false, Option, none, some, bit_xor, get_or, ltb,
  ◌==◌, if◌then◌else◌, u32, ◌<<◌, ◌>>◌,
}
use dse_vp.Crypto.Tables.{fk, ck, sbox}

-- The input pins that the two methods read.
pub record Pins : Type 0 where
  pub rst_in : Bool
  pub key_exp_en_in : Bool
  pub enc_dec_en_in : Bool
  pub mode_in : Bool
  pub key_in : ℕ
  pub data_in : ℕ

pub record Sm4 : Type 0 where
  pub rk : ℕ → ℕ
  pub x : ℕ → ℕ
  pub i : ℕ
  pub j : ℕ
  pub rk_ready : Bool
  pub encdata_ready : Bool
  pub decdata_ready : Bool
  pub data_out : ℕ

abbrev pub update : (ℕ → ℕ) → ℕ → ℕ → ℕ → ℕ
update w i v n = if n == i then v else w n

-- `v.range(32 * n + 31, 32 * n)`.
abbrev pub word_of : ℕ → ℕ → ℕ
word_of v n = v / 2 ^ (32 * n) % 2 ^ 32

-- The concatenation `(a, b, c, d)` of four words.
abbrev pub concat4 : ℕ → ℕ → ℕ → ℕ → ℕ
concat4 a b c d = ((a * 2 ^ 32 + b) * 2 ^ 32 + c) * 2 ^ 32 + d

unfoldable pub shift : ℕ → ℕ → ℕ
shift v length = u32 (bit_xor (v << length) (v >> (32 - length)))

-- The S-box on each byte.
unfoldable pub tau : ℕ → ℕ
tau v =
    ((get_or sbox (v / 2 ^ 24 % 2 ^ 8) 0 * 2 ^ 8 + get_or sbox (v / 2 ^ 16 % 2 ^ 8) 0) * 2 ^ 8
        + get_or sbox (v / 2 ^ 8 % 2 ^ 8) 0)
      * 2 ^ 8
    + get_or sbox (v % 2 ^ 8) 0

unfoldable pub round_f : ℕ → Bool → ℕ
round_f input true = let b = tau input in bit_xor (bit_xor b (shift b 13)) (shift b 23)
round_f input false =
    let b = tau input in
    bit_xor (bit_xor (bit_xor (bit_xor b (shift b 2)) (shift b 10)) (shift b 18)) (shift b 24)

-- `w[n] ^ RoundF(w[n + 1] ^ w[n + 2] ^ w[n + 3] ^ k, mode)`.
abbrev pub next_word : (ℕ → ℕ) → ℕ → ℕ → Bool → ℕ
next_word w n k mode =
    bit_xor (w n) (round_f (bit_xor (bit_xor (bit_xor (w (n + 1)) (w (n + 2))) (w (n + 3))) k) mode)

-- The first four words are loaded in every clock.
abbrev pub load : (ℕ → ℕ) → ℕ → ℕ → ℕ → ℕ → ℕ → ℕ
load w a b c d = update (update (update (update w 0 a) 1 b) 2 c) 3 d

unfoldable pub load_key : (ℕ → ℕ) → ℕ → ℕ → ℕ
load_key rk key =
    load rk (bit_xor (word_of key 3) (get_or fk 0 0)) (bit_xor (word_of key 2) (get_or fk 1 0))
      (bit_xor (word_of key 1) (get_or fk 2 0)) (bit_xor (word_of key 0) (get_or fk 3 0))

unfoldable pub load_data : (ℕ → ℕ) → ℕ → ℕ → ℕ
load_data x v = load x (word_of v 3) (word_of v 2) (word_of v 1) (word_of v 0)

key_round : Pins → Sm4 → Sm4
key_round p s =
    let rk = load_key s.rk p.key_in in
    record s {
      rk = update rk (s.i + 4) (next_word rk s.i (get_or ck s.i 0) true);
      i = s.i + 1;
      rk_ready = if s.i + 1 == 32 then true else s.rk_ready;
    }

pub key_exp : Pins → Sm4 → Option Sm4
unfolding key_round
key_exp p s =
    if p.rst_in
    then if p.key_exp_en_in then if ltb s.i 32 then some (key_round p s) else none else some s
    else some (record s { i = 0; rk_ready = false })

result : (ℕ → ℕ) → ℕ
result x = concat4 (x 35) (x 34) (x 33) (x 32)

enc_round : Pins → Sm4 → Sm4
unfolding result
enc_round p s =
    let x = load_data s.x p.data_in in
    let x' = update x (s.j + 4) (next_word x s.j (s.rk (s.j + 4)) false) in
    if s.j + 1 == 32
    then record s { x = x'; j = 0; encdata_ready = true; data_out = result x' }
    else record s { x = x'; j = s.j + 1 }

dec_round : Pins → Sm4 → Sm4
unfolding result
dec_round p s =
    let x = load_data s.x p.data_in in
    let x' = update x (s.j + 4) (next_word x s.j (s.rk (35 - s.j)) false) in
    if s.j + 1 == 32
    then record s { x = x'; j = 32; decdata_ready = true; data_out = result x' }
    else record s { x = x'; j = s.j + 1 }

pub enc_dec : Pins → Sm4 → Option Sm4
unfolding enc_round dec_round
enc_dec p s =
    if p.rst_in
    then if p.enc_dec_en_in
      then if ltb s.j 32 then some (if p.mode_in then enc_round p s else dec_round p s) else none
      else some s
    else some (record s { j = 0; encdata_ready = false; decdata_ready = false })
