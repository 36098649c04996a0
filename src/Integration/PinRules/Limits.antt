-- ===== src/Integration/PinRules/Limits.antt =====
-- The limits hold whatever is stored and whatever the lock reported.
use onesti_lock.Base.{
  ℕ, ◌≤◌, pos, negsuc, true, List, [], ◌∷◌, Option, none, some, ◌≡◌, arith, length,
}
use onesti_lock.Ble.Commands.{all_digits}
use onesti_lock.Ble.Streams.{is_ascii}
use onesti_lock.Integration.PinRules.{
  Value, integer, whole_float, Capabilities, first_user_slot, max_user_slot, reported_length,
  pin_length_range, is_valid_pin,
}

-- Whatever the options hold, slot 0 is reserved and at most three slots are.
pub first_user_slot_bounds : (v : Option Value) → (1 ≤ first_user_slot v) × (first_user_slot v ≤ 3)
unfolding first_user_slot
first_user_slot_bounds none = omega arith
first_user_slot_bounds (some (integer (pos n))) = omega arith
first_user_slot_bounds (some (integer (negsuc n))) = omega arith
first_user_slot_bounds (some (whole_float (pos n))) = omega arith
first_user_slot_bounds (some (whole_float (negsuc n))) = omega arith
first_user_slot_bounds (some _) = omega arith

-- A stored count from 1 to 3 is taken as it is, as an int and as a float.
pub first_user_slot_kept :
    (n : ℕ)
    → 1 ≤ n
    → n ≤ 3
    → (first_user_slot (some (integer (pos n))) ≡ n)
      × (first_user_slot (some (whole_float (pos n))) ≡ n)
unfolding first_user_slot
first_user_slot_kept n lo hi = (omega arith, omega arith)

-- The highest slot is from 3 to 999, so that a first user slot of at most 3 leaves a slot to write.
pub max_user_slot_bounds :
    (caps : Capabilities) → (3 ≤ max_user_slot caps) × (max_user_slot caps ≤ 999)
unfolding max_user_slot
max_user_slot_bounds caps = ground arith

reported_length_bounds :
    (v : Option Value) (n : ℕ) → reported_length v ≡ some n → (4 ≤ n) × (n ≤ 20)
unfolding reported_length
reported_length_bounds (some (integer (pos k))) n e = ground arith
reported_length_bounds (some (integer (negsuc k))) n e = cc
reported_length_bounds (some (whole_float k)) n e = cc
reported_length_bounds (some _) n e = cc
reported_length_bounds none n e = cc

-- Whatever the lock reported, the range is not empty and lies in 4 to 20.
pub pin_length_range_bounds :
    (caps : Capabilities)
    → (4 ≤ (pin_length_range caps).0)
      × ((pin_length_range caps).0 ≤ (pin_length_range caps).1)
      × ((pin_length_range caps).1 ≤ 20)
unfolding pin_length_range
pin_length_range_bounds caps = ground arith

-- A code that any lock takes has 4 to 20 characters, all of them digits.
pub is_valid_pin_shape :
    (code : List ℕ) (caps : Capabilities)
    → is_valid_pin code caps ≡ true
    → (4 ≤ length code) × (length code ≤ 20) × (all_digits code ≡ true)
unfolding is_valid_pin
is_valid_pin_shape [] caps e = absurd (ground arith)
is_valid_pin_shape (c ∷ cs) caps e = ground (arith, pin_length_range_bounds caps)

digits-is_ascii : (code : List ℕ) → all_digits code ≡ true → is_ascii code ≡ true
unfolding all_digits is_ascii
digits-is_ascii [] h = h
digits-is_ascii (c ∷ cs) h = ground (arith, λ (d : all_digits cs ≡ true). digits-is_ascii cs d)

-- A code of ASCII digits within the range that the lock reported is taken.
pub is_valid_pin_accepts :
    (code : List ℕ) (caps : Capabilities)
    → all_digits code ≡ true
    → (pin_length_range caps).0 ≤ length code
    → length code ≤ (pin_length_range caps).1
    → is_valid_pin code caps ≡ true
unfolding is_valid_pin
is_valid_pin_accepts [] caps d lo hi = absurd (omega (arith, pin_length_range_bounds caps))
is_valid_pin_accepts (c ∷ cs) caps d lo hi = ground (arith, digits-is_ascii (c ∷ cs))
