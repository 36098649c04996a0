-- ===== src/Ble/Commands/Pins.antt =====
-- `pin_code_set`: which slots and codes it takes, and what it sends.
use onesti_lock.Base.{
  ℕ, ◌/◌, ◌%◌, ◌≤◌, ◌<◌, ℤ, pos, negsuc, Bool, true, false, ok, List, [], ◌∷◌, ◌≡◌, ◌⊎◌, arith,
  length,
}
use onesti_lock.Ble.Const.CommandId.{CommandId}
use onesti_lock.Ble.Command.{CommandPayload}
use onesti_lock.Ble.Streams.{is_ascii, write_raw_string}
use onesti_lock.Ble.Commands.{pin_code_set, all_digits}

-- The lengths and slots that the lock takes.
pub record IsPin (slot : ℕ) (pin : List ℕ) (ignore_slot_check : Bool) : Type 0 where
  pub long_enough : 4 ≤ length pin
  pub short_enough : length pin ≤ 8
  pub digits : all_digits pin ≡ true
  pub slot_range : (800 ≤ slot) × (slot < 900) ⊎ (ignore_slot_check ≡ true) × (slot < 65536)

all_digits-is_ascii : (pin : List ℕ) → all_digits pin ≡ true → is_ascii pin ≡ true
unfolding all_digits is_ascii
all_digits-is_ascii [] h = h
all_digits-is_ascii (c ∷ cs) h =
    ground (arith, λ (d : all_digits cs ≡ true). all_digits-is_ascii cs d)

-- [slot, low byte first][length][the digits in ASCII]
abbrev pub pin_layout : ℕ → List ℕ → List ℕ
pin_layout slot pin = slot % 256 ∷ slot / 256 ∷ length pin ∷ pin

abbrev pub pin_command : ℕ → List ℕ → CommandPayload
pin_command slot pin = record { command_id = CommandId.pin_code_set; bytes = pin_layout slot pin }

pub pin_code_set_accepts :
    (slot : ℕ) (pin : List ℕ) (ignore : Bool)
    → IsPin slot pin ignore
    → pin_code_set (pos slot) pin ignore ≡ ok (pin_command slot pin)
unfolding pin_code_set write_raw_string
pin_code_set_accepts slot pin ignore h = ground (arith, all_digits-is_ascii pin)

-- Every PinCodeSet that the builder makes has a code of 4 to 8 digits and, unless the check is waived,
-- a slot from 800 to 899, in any case one of 16 bits; it carries the slot low byte first, the length
-- of the code and its digits.
pub pin_code_set_accepted :
    (slot : ℤ) (pin : List ℕ) (ignore : Bool) (c : CommandPayload)
    → pin_code_set slot pin ignore ≡ ok c
    → (n : ℕ) × (slot ≡ pos n) × IsPin n pin ignore × (c ≡ pin_command n pin)
unfolding pin_code_set write_raw_string
pin_code_set_accepted (negsuc n) pin ignore c e = absurd (ground arith)
pin_code_set_accepted (pos n) pin true c e = (n, ground arith, ground arith, ground arith)
pin_code_set_accepted (pos n) pin false c e = (n, ground arith, ground arith, ground arith)
