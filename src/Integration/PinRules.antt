-- ===== src/Integration/PinRules.antt =====
-- pin_rules.py, with the constants of const.py that it uses: which slots and codes a lock takes.
pub mod Limits
use onesti_lock.Base.{
  ℕ, ◌+◌, ◌-◌, min, max, ℤ, pos, negsuc, Bool, true, false, List, [], ◌∷◌, Option, none, some, ltb,
  leb, ◌==◌, ◌&&◌, if◌then◌else◌, length,
}
use onesti_lock.Ble.Streams.{is_ascii}
use onesti_lock.Ble.Commands.{all_digits}

abbrev pub reserved_slots_min : ℕ
reserved_slots_min = 1

abbrev pub reserved_slots_max : ℕ
reserved_slots_max = 3

abbrev pub max_slots : ℕ
max_slots = 1000

abbrev pub slot_first_user : ℕ
slot_first_user = 3

abbrev pub pin_length_sane_min : ℕ
pin_length_sane_min = 4

abbrev pub pin_length_sane_max : ℕ
pin_length_sane_max = 20

-- A stored value of any type: an int, a bool, a float with and without a fraction, or else.
pub data Value : Type 0 where
  integer : ℤ → Value
  boolean : Bool → Value
  whole_float : ℤ → Value
  fraction : Value
  other : Value

-- `max(1, min(3, value))`
abbrev clamp_reserved : ℤ → ℕ
clamp_reserved (negsuc n) = reserved_slots_min
clamp_reserved (pos n) = max reserved_slots_min (min reserved_slots_max n)

-- What `options.get("reserved_slots")` answers, `none` for a missing key.
unfoldable pub first_user_slot : Option Value → ℕ
first_user_slot (some (integer v)) = clamp_reserved v
first_user_slot (some (whole_float v)) = clamp_reserved v
first_user_slot _ = slot_first_user

-- What the lock reported about itself.
pub record Capabilities : Type 0 where
  pub num_pin_users : Option Value
  pub min_pin_length : Option Value
  pub max_pin_length : Option Value

-- A bool is an int, and True is 1, below the range.
unfoldable pub max_user_slot : Capabilities → ℕ
max_user_slot caps = elim caps.num_pin_users [
  | none ↦ max_slots - 1
  | some v ↦ elim v [
    | integer i ↦ elim i [
      | pos n ↦ if ltb slot_first_user n && leb n max_slots then n - 1 else max_slots - 1
      | negsuc n ↦ max_slots - 1
    ]
    | _ ↦ max_slots - 1
  ]
]

unfoldable pub reported_length : Option Value → Option ℕ
reported_length (some (integer (pos n))) =
    if leb pin_length_sane_min n && leb n pin_length_sane_max then some n else none
reported_length _ = none

abbrev or_fallback : Option ℕ → ℕ → ℕ
or_fallback none n = n
or_fallback (some k) n = k

abbrev checked_range : ℕ → ℕ → ℕ × ℕ
checked_range low high = if ltb high low then (4, 8) else (low, high)

-- Each bound falls back on its own, and both where they contradict each other.
unfoldable pub pin_length_range : Capabilities → ℕ × ℕ
unfolding reported_length
pin_length_range caps =
    checked_range (or_fallback (reported_length caps.min_pin_length) 4)
      (or_fallback (reported_length caps.max_pin_length) 8)

-- `code.isdigit()` on an ASCII text.
abbrev is_digit_text : List ℕ → Bool
is_digit_text [] = false
is_digit_text (c ∷ cs) = all_digits (c ∷ cs)

unfoldable pub is_valid_pin : List ℕ → Capabilities → Bool
is_valid_pin code caps =
    let (low, high) = pin_length_range caps in
    is_ascii code && is_digit_text code && leb low (length code) && leb (length code) high
