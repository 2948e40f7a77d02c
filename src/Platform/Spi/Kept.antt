-- ===== src/Platform/Spi/Kept.antt =====
-- The elements that the queue keeps of a list.
use dse_vp.Base.{
  ℕ, zero, suc, ◌+◌, ◌-◌, ◌≤◌, ◌<◌, ◌≡◌, ◌^◌, refl, sym, ap, ◌∙◌, inl, inr, List, [], ◌∷◌, ◌++◌,
  length, ltb, if◌then◌else◌, Bool-cases, arith,
}
use dse_vp.Platform.Spi.{queue_size, pop, push}

-- The list without its first elements.
unfoldable pub drop : ℕ → List ℕ → List ℕ
drop zero xs = xs
drop (suc n) [] = []
drop (suc n) (x ∷ xs) = drop n xs

-- The last elements that the queue can hold.
unfoldable pub last_of : List ℕ → List ℕ
last_of xs = drop (length xs - queue_size) xs

length-append : (xs ys : List ℕ) → length (xs ++ ys) ≡ length xs + length ys
length-append [] ys = omega arith
length-append (x ∷ xs) ys = omega (arith, length-append xs ys)

length-drop : (n : ℕ) (xs : List ℕ) → length (drop n xs) ≡ length xs - n
unfolding drop
length-drop zero xs = omega arith
length-drop (suc n) [] = omega arith
length-drop (suc n) (x ∷ xs) = omega (arith, length-drop n xs)

drop-drop : (m n : ℕ) (xs : List ℕ) → drop n (drop m xs) ≡ drop (m + n) xs
unfolding drop
drop-drop zero n xs = let same : n ≡ 0 + n = omega arith in ap (λ k. drop k xs) same
drop-drop (suc m) zero [] = let same : suc m ≡ suc m + 0 = omega arith in ap (λ k. drop k []) same
drop-drop (suc m) (suc n) [] =
    let same : suc (m + suc n) ≡ suc m + suc n = omega arith in ap (λ k. drop k []) same
drop-drop (suc m) n (x ∷ xs) =
    let same : suc (m + n) ≡ suc m + n = omega arith in
    drop-drop m n xs ∙ ap (λ k. drop k (x ∷ xs)) same

drop-append : (m : ℕ) (xs ys : List ℕ) → m ≤ length xs → drop m xs ++ ys ≡ drop m (xs ++ ys)
unfolding drop
drop-append zero xs ys h = refl
drop-append (suc m) [] ys h = absurd (omega arith)
drop-append (suc m) (x ∷ xs) ys h = drop-append m xs ys (omega arith)

pub append_assoc : (xs ys zs : List ℕ) → (xs ++ ys) ++ zs ≡ xs ++ (ys ++ zs)
append_assoc [] ys zs = refl
append_assoc (x ∷ xs) ys zs = ap (◌∷◌ x) (append_assoc xs ys zs)

-- What is kept of a list that follows what was kept of another.
pub last_of-append : (xs ys : List ℕ) → last_of (last_of xs ++ ys) ≡ last_of (xs ++ ys)
unfolding last_of
last_of-append xs ys =
    let m = length xs - 16 in
    ap (λ zs. drop (length zs - 16) zs) (drop-append m xs ys (omega arith))
    ∙ drop-drop m (length (drop m (xs ++ ys)) - 16) (xs ++ ys)
    ∙ ap (λ k. drop k (xs ++ ys)) (omega (arith, length-drop m (xs ++ ys), length-append xs ys))

pub length-last_of : (xs : List ℕ) → length (last_of xs) ≤ 16
unfolding last_of
length-last_of xs = omega (arith, length-drop (length xs - 16) xs)

append_nil : (xs : List ℕ) → xs ++ [] ≡ xs
append_nil [] = refl
append_nil (x ∷ xs) = ap (◌∷◌ x) (append_nil xs)

pub last_of-short : (xs : List ℕ) → length xs ≤ 16 → xs ≡ last_of (xs ++ [])
unfolding last_of drop
last_of-short xs h =
    let fits : 0 ≡ length xs - 16 = omega arith in
    ap (λ k. drop k xs) fits ∙ ap (λ ys. drop (length ys - 16) ys) (sym (append_nil xs))

drop-one : (xs : List ℕ) → drop 1 xs ≡ pop xs
unfolding drop
drop-one [] = refl
drop-one (x ∷ xs) = refl

pub push-last_of :
    (b : ℕ) (queue : List ℕ) → length queue ≤ 16 → push b queue ≡ last_of (queue ++ (b ∷ []))
unfolding push last_of drop
push-last_of b queue h =
    let q = queue ++ (b ∷ []) in
    let size : length q ≡ length queue + 1 = length-append queue (b ∷ []) in
    elim (Bool-cases (ltb 16 (length q))) [
      | inl e ↦
          let over : 1 ≡ length q - 16 = ground arith in
          ap (λ c. if c then pop q else q) e ∙ sym (drop-one q) ∙ ap (λ k. drop k q) over
      | inr e ↦
          let fits : 0 ≡ length q - 16 = ground arith in
          ap (λ c. if c then pop q else q) e ∙ ap (λ k. drop k q) fits
    ]

-- Words of 32 bits.
abbrev pub AreWords : List ℕ → Type 0
AreWords [] = Unit {0}
AreWords (x ∷ xs) = (x < 2 ^ 32) × AreWords xs

pub append-AreWords : (xs ys : List ℕ) → AreWords xs → AreWords ys → AreWords (xs ++ ys)
append-AreWords [] ys h k = k
append-AreWords (x ∷ xs) ys (h, hs) k = (h, append-AreWords xs ys hs k)

drop-AreWords : (n : ℕ) (xs : List ℕ) → AreWords xs → AreWords (drop n xs)
unfolding drop
drop-AreWords zero xs h = h
drop-AreWords (suc n) [] h = h
drop-AreWords (suc n) (x ∷ xs) (h, hs) = drop-AreWords n xs hs

pub last_of-AreWords : (xs : List ℕ) → AreWords xs → AreWords (last_of xs)
unfolding last_of
last_of-AreWords xs h = drop-AreWords (length xs - queue_size) xs h
