-- ===== src/Tlm/Bytes.antt =====
-- Arrays of bytes, copies between them (`memcpy`) and little-endian words.
use dse_vp.Base.{
  ℕ, zero, suc, ◌+◌, ◌-◌, ◌*◌, ◌/◌, ◌%◌, ◌^◌, ◌≤◌, ◌<◌, ◌≡◌, ◌⊎◌, refl, sym, ap, ap₂, ◌∙◌, List, [],
  ◌∷◌, ◌&&◌, leb, ltb, if◌then◌else◌, length, get_or, arith, true,
}
use native.Mathlib.Nat.{mod-add-div', mul_assoc, div-div-eq-div-mul, pow-suc}

-- The `n` bytes from an address on.
unfoldable pub load : ℕ → ℕ → (ℕ → ℕ) → List ℕ
load zero a m = []
load (suc n) a m = m a ∷ load n (a + 1) m

-- The array with the bytes written from an address on.
unfoldable pub store : ℕ → List ℕ → (ℕ → ℕ) → ℕ → ℕ
store a bs m k = if leb a k && ltb k (a + length bs) then get_or bs (k - a) 0 else m k

unfoldable pub to_word : List ℕ → ℕ
to_word [] = 0
to_word (b ∷ bs) = b + to_word bs * 256

unfoldable pub to_bytes : ℕ → ℕ → List ℕ
to_bytes zero v = []
to_bytes (suc n) v = v % 256 ∷ to_bytes n (v / 256)

pub length-load : (n a : ℕ) (m : ℕ → ℕ) → length (load n a m) ≡ n
unfolding load
length-load zero a m = refl
length-load (suc n) a m = ap suc (length-load n (a + 1) m)

pub get_or-load : (n a k : ℕ) (m : ℕ → ℕ) → k < n → get_or (load n a m) k 0 ≡ m (a + k)
unfolding load
get_or-load zero a k m h = absurd (omega arith)
get_or-load (suc n) a zero m h = ap m (omega arith)
get_or-load (suc n) a (suc k) m h = get_or-load n (a + 1) k m (omega arith) ∙ ap m (omega arith)

-- A list whose bytes stand from an address on.
pub load_of_get_or :
    (bs : List ℕ) (a : ℕ) (m : ℕ → ℕ)
    → ((k : ℕ) → k < length bs → m (a + k) ≡ get_or bs k 0)
    → load (length bs) a m ≡ bs
unfolding load
load_of_get_or [] a m h = refl
load_of_get_or (b ∷ bs) a m h =
    ap₂ ◌∷◌ (ap m (omega arith) ∙ h 0 (omega arith))
      (load_of_get_or bs (a + 1) m (λ k l. ap m (omega arith) ∙ h (suc k) (omega arith)))

pub store-inside :
    (a k : ℕ) (bs : List ℕ) (m : ℕ → ℕ) → k < length bs → store a bs m (a + k) ≡ get_or bs k 0
unfolding store
store-inside a k bs m h =
    let inside : (leb a (a + k) && ltb (a + k) (a + length bs)) ≡ true = ground arith in
    rw inside (ap (λ j. get_or bs j 0) (omega arith))

pub store-outside :
    (a k : ℕ) (bs : List ℕ) (m : ℕ → ℕ) → (k < a) ⊎ (a + length bs ≤ k) → store a bs m k ≡ m k
unfolding store
store-outside a k bs m h = ground arith

pub load-store : (a : ℕ) (bs : List ℕ) (m : ℕ → ℕ) → load (length bs) a (store a bs m) ≡ bs
load-store a bs m = load_of_get_or bs a (store a bs m) (λ k h. store-inside a k bs m h)

pub load_ext :
    (n a c : ℕ) (m m' : ℕ → ℕ)
    → ((k : ℕ) → k < n → m (a + k) ≡ m' (c + k))
    → load n a m ≡ load n c m'
unfolding load
load_ext zero a c m m' h = refl
load_ext (suc n) a c m m' h =
    ap₂ ◌∷◌ (ap m (omega arith) ∙ h 0 (omega arith) ∙ ap m' (omega arith)) (
      load_ext n (a + 1) (c + 1) m m'
        (λ k l. ap m (omega arith) ∙ h (suc k) (omega arith) ∙ ap m' (omega arith)))

pub length-to_bytes : (n v : ℕ) → length (to_bytes n v) ≡ n
unfolding to_bytes
length-to_bytes zero v = refl
length-to_bytes (suc n) v = ap suc (length-to_bytes n (v / 256))

mod-mul : (a c : ℕ) → a % (c * 256) ≡ a % 256 + a / 256 % c * 256
mod-mul a c =
    let quotient : a / (c * 256) ≡ a / 256 / c =
      ap (λ d. a / d) (omega arith) ∙ sym (div-div-eq-div-mul a 256 c) in
    omega (
      arith,
      mod-add-div' a (c * 256),
      ap (λ q. q * (c * 256)) quotient,
      mul_assoc (a / 256 / c) c 256,
      mod-add-div' (a / 256) c,
    )

pub to_word-to_bytes : (n v : ℕ) → to_word (to_bytes n v) ≡ v % 256 ^ n
unfolding to_bytes to_word
to_word-to_bytes zero v = omega arith
to_word-to_bytes (suc n) v =
    rw (to_word-to_bytes n (v / 256), pow-suc 256 n) (sym (mod-mul v (256 ^ n)))
