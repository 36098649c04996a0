-- ===== src/Ble/Streams/Numbers.antt =====
-- What is written as an unsigned field reads back.
use native.Mathlib.Numerals.{towards_suc}
use onesti_lock.Base.{
  ℕ, zero, suc, ◌+◌, ◌*◌, ◌/◌, ◌%◌, ◌^◌, ◌<◌, pos, ok, ◌++◌, List, [], ◌∷◌, ◌≡◌, refl, ap, arith,
  length, All,
}
use onesti_lock.Ble.Streams.{IsByte, from_bytes, to_bytes, ByteWriter, write_uint}

eight_more : (k : ℕ) → 2 ^ (8 * suc k) ≡ 256 * 2 ^ (8 * k)
eight_more k = let e : 8 * suc k ≡ 8 * k + 8 = omega arith in rw e (simp towards_suc (omega arith))

-- The little-endian form of a number reads back as the number, at every field size.
pub from_bytes-to_bytes : (size n : ℕ) → n < 2 ^ (8 * size) → from_bytes (to_bytes size n) ≡ n
from_bytes-to_bytes zero n h = omega arith
from_bytes-to_bytes (suc size) n h =
    omega
      (arith, eight_more size, from_bytes-to_bytes size (n / 256) (omega (arith, eight_more size)))

pub to_bytes-IsByte : (size n : ℕ) → All IsByte (to_bytes size n)
to_bytes-IsByte zero n = tt
to_bytes-IsByte (suc size) n = (omega arith, to_bytes-IsByte size (n / 256))

pub length-to_bytes : (size n : ℕ) → length (to_bytes size n) ≡ size
length-to_bytes zero n = refl
length-to_bytes (suc size) n = ap suc (length-to_bytes size (n / 256))

-- A byte string is the little-endian form of the number that it reads as.
pub to_bytes-from_bytes : (bs : List ℕ) → All IsByte bs → to_bytes (length bs) (from_bytes bs) ≡ bs
to_bytes-from_bytes [] h = refl
to_bytes-from_bytes (b ∷ bs) h =
    let low : (b + 256 * from_bytes bs) % 256 ≡ b = omega arith in
    let high : (b + 256 * from_bytes bs) / 256 ≡ from_bytes bs = omega arith in
    rw (low, high) (ap (λ t. b ∷ t) (to_bytes-from_bytes bs h.1))

-- A field that fits appends its little-endian form.
pub write_uint_fits :
    (size n : ℕ) (w : ByteWriter)
    → n < 2 ^ (8 * size)
    → write_uint size (pos n) w ≡ ok (record { buffer = w.buffer ++ to_bytes size n })
unfolding write_uint
write_uint_fits size n w h = ground arith
