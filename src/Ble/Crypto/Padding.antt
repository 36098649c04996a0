-- ===== src/Ble/Crypto/Padding.antt =====
-- Zero padding fills the last block and keeps the message in front; a flipped byte flips back.
use mathlib.Core.List.{append-nil}
use mathlib.Core.Path.{ap₂}
use onesti_lock.Base.{
  ℕ, suc, ◌+◌, ◌-◌, ◌%◌, ◌≤◌, ◌<◌, bit_xor, List, [], ◌∷◌, ◌≡◌, refl, ap, arith, length, take,
  replicate, All, length-append, length-replicate, take-append,
}
use onesti_lock.Base.Bits.{bit_xor_byte}
use onesti_lock.Ble.Streams.{IsByte}
use onesti_lock.Ble.Crypto.{zero_pad, bit_invert}

pub zero_pad_blocks :
    (bytes : List ℕ)
    → (length (zero_pad bytes) % 16 ≡ 0)
      × (length bytes ≤ length (zero_pad bytes))
      × (length (zero_pad bytes) < length bytes + 16)
unfolding zero_pad
zero_pad_blocks bytes =
    let pad : ℕ = (16 - length bytes % 16) % 16 in
    omega (arith, length-append bytes (replicate pad 0), length-replicate {A = ℕ} pad 0)

pub take-zero_pad : (bytes : List ℕ) → take (length bytes) (zero_pad bytes) ≡ bytes
unfolding zero_pad
take-zero_pad bytes = take-append bytes _

-- A message of whole blocks gets no padding.
pub zero_pad_whole : (bytes : List ℕ) → length bytes % 16 ≡ 0 → zero_pad bytes ≡ bytes
unfolding zero_pad
zero_pad_whole bytes h =
    let none_left : (16 - length bytes % 16) % 16 ≡ 0 = omega arith in
    rw none_left (append-nil bytes)

pub length-bit_invert : (bytes : List ℕ) → length (bit_invert bytes) ≡ length bytes
unfolding bit_invert
length-bit_invert [] = refl
length-bit_invert (b ∷ bs) = ap suc (length-bit_invert bs)

bit_xor_twice : (b : ℕ) → b < 256 → bit_xor (bit_xor b 0xff) 0xff ≡ b
bit_xor_twice b h = rw (bit_xor_byte b h, bit_xor_byte (255 - b) (omega arith)) (omega arith)

pub bit_invert-bit_invert :
    (bytes : List ℕ) → All IsByte bytes → bit_invert (bit_invert bytes) ≡ bytes
unfolding bit_invert
bit_invert-bit_invert [] h = refl
bit_invert-bit_invert (b ∷ bs) h =
    ap₂ (λ c cs. c ∷ cs) (bit_xor_twice b h.0) (bit_invert-bit_invert bs h.1)
