-- ===== src/Platform/IrqBits.antt =====
-- Interrupt sources as bits of an array of 32-bit words.
use dse_vp.Base.{
  ℕ, ◌+◌, ◌*◌, ◌/◌, ◌%◌, ◌^◌, ◌≡◌, Bool, true, false, not, ◌==◌, if◌then◌else◌, arith, bit_and,
  bit_or, not32, digit, and-digit, or-digit, pow-digit, not-digit, bit_and_iff, pow_small,
}

-- An assignment to an element of an array.
abbrev pub store : (ℕ → ℕ) → ℕ → ℕ → ℕ → ℕ
store w i v n = if n == i then v else w n

-- `words[irq / 32] & (1 << irq % 32)`, `|=` and `&= ~`.
unfoldable pub test_irq : (ℕ → ℕ) → ℕ → Bool
test_irq words irq = not (bit_and (words (irq / 32)) (2 ^ (irq % 32)) == 0)

unfoldable pub set_irq : (ℕ → ℕ) → ℕ → ℕ → ℕ
set_irq words irq = store words (irq / 32) (bit_or (words (irq / 32)) (2 ^ (irq % 32)))

unfoldable pub clear_irq : (ℕ → ℕ) → ℕ → ℕ → ℕ
clear_irq words irq = store words (irq / 32) (bit_and (words (irq / 32)) (not32 (2 ^ (irq % 32))))

same_digit : (j : ℕ) → j / 32 * 32 + j % 32 ≡ j
same_digit j = omega arith

test_irq-digit : (words : ℕ → ℕ) (j : ℕ) → test_irq words j ≡ (digit (words (j / 32)) (j % 32) == 1)
unfolding test_irq
test_irq-digit words j = ground (arith, bit_and_iff (words (j / 32)) (j % 32))

-- Setting the bit of one source changes the test of no other.
pub test-set :
    (words : ℕ → ℕ) (irq j : ℕ)
    → test_irq (set_irq words irq) j ≡ (if j == irq then true else test_irq words j)
unfolding set_irq
test-set words irq j =
    rw (test_irq-digit (set_irq words irq) j, test_irq-digit words j)
      (ground (
        arith,
        or-digit (j % 32) (words (irq / 32)) (2 ^ (irq % 32)),
        pow-digit (irq % 32) (j % 32),
      ))

pub test-clear :
    (words : ℕ → ℕ) (irq j : ℕ)
    → test_irq (clear_irq words irq) j ≡ (if j == irq then false else test_irq words j)
unfolding clear_irq
test-clear words irq j =
    rw (test_irq-digit (clear_irq words irq) j, test_irq-digit words j)
      (ground (
        arith,
        and-digit (j % 32) (words (irq / 32)) (not32 (2 ^ (irq % 32))),
        not-digit 32 (j % 32) (2 ^ (irq % 32)) (omega arith) (pow_small (irq % 32) (omega arith)),
        pow-digit (irq % 32) (j % 32),
      ))
