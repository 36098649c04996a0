-- ===== src/Base/Bits.antt =====
-- Masks of one-bits and the inversion of a byte, as arithmetic.
use Prim.Native.Nat.{
  ℕ, zero, suc, ◌+◌, ◌-◌, ◌*◌, ◌/◌, ◌%◌, ◌≤◌, ◌<◌, min, bit_and, bit_xor, digits, bit_and-bitwise,
}
use mathlib.Core.Path.{◌≡◌, refl, ◌∙◌}
use mathlib.Core.Bool.{Bool, true, ◌&&◌}
use native.Mathlib.Omega.{arith}
use onesti_lock.Base.Tests.{◌==◌, ==_iff}

-- The number whose k lowest digits are one, and the k lowest digits of a number.
abbrev ones : ℕ → ℕ
ones zero = 0
ones (suc k) = 2 * ones k + 1

abbrev lowest : ℕ → ℕ → ℕ
lowest zero a = 0
lowest (suc k) a = lowest k (a / 2) * 2 + a % 2

lowest-zero : (k : ℕ) → lowest k 0 ≡ 0
lowest-zero zero = refl
lowest-zero (suc k) = omega (arith, lowest-zero k)

-- Digit by digit, with the count of digits that the native operation is defined by.
digits-ones : (k n a : ℕ) → a ≤ n → digits (λ b. zero) min n a (ones k) ≡ lowest k a
digits-ones k zero zero h = omega (arith, lowest-zero k)
digits-ones k zero (suc a) h = absurd (omega arith)
digits-ones k (suc n) zero h = omega (arith, lowest-zero k)
digits-ones zero (suc n) (suc a) h = omega (arith, digits-ones zero n (suc a / 2) (omega arith))
digits-ones (suc k) (suc n) (suc a) h =
    let half : (2 * ones k + 1) / 2 ≡ ones k = omega arith in
    rw half (omega (arith, digits-ones k n (suc a / 2) (omega arith)))

bit_and-ones : (k a : ℕ) → bit_and a (ones k) ≡ lowest k a
bit_and-ones k a = bit_and-bitwise a (ones k) ∙ digits-ones k a a (omega arith)

pub bit_and_bit : (a : ℕ) → bit_and a 1 ≡ a % 2
bit_and_bit a = omega (arith, bit_and-ones 1 a)

pub bit_and_byte : (a : ℕ) → bit_and a 0xff ≡ a % 256
bit_and_byte a = omega (arith, bit_and-ones 8 a)

pub bit_and_word : (a : ℕ) → bit_and a 0xffff ≡ a % 65536
bit_and_word a = bit_and-ones 16 a ∙ omega arith

-- A statement about every number below a bound, by evaluation.
every_below : ℕ → (ℕ → Bool) → Bool
every_below zero p = true
every_below (suc n) p = p n && every_below n p

every_below→ : (n : ℕ) (p : ℕ → Bool) → every_below n p ≡ true → (x : ℕ) → x < n → p x ≡ true
unfolding every_below
every_below→ zero p h x lt = absurd (omega arith)
every_below→ (suc n) p h x lt = ground (arith, λ (q : every_below n p ≡ true). every_below→ n p q x)

-- `byte ^ 0xFF` on a byte.
pub bit_xor_byte : (b : ℕ) → b < 256 → bit_xor b 0xff ≡ 255 - b
unfolding every_below
bit_xor_byte b h = (==_iff _ _).0 (every_below→ 256 (λ x. bit_xor x 0xff == 255 - x) refl b h)
