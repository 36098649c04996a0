-- ===== src/Integration/Examples.antt =====
-- Concrete inputs on which the theorems about the integration apply.
mod Entries
use onesti_lock.Base.{
  [], ℕ, ◌≤◌, ◌<◌, pos, Bool, true, false, ok, List, ◌∷◌, ◌++◌, Option, none, some, ◌≡◌, ◌≢◌, ◌↔◌,
  ◌⊎◌, refl, arith, length, leb, ◌==◌, ◌&&◌, if◌then◌else◌,
}
use Prim.Native.String.{String}
use onesti_lock.Ble.Commands.{all_digits}
use onesti_lock.Ble.Streams.{is_ascii}
use onesti_lock.Integration.Coordinator.{
  World, set_pin_code, Transport, set_pin, clear_pin, clear_slot, set_slot_name, first_user_slot,
  max_user_slot,
}
use onesti_lock.Integration.Coordinator.Guards.{refused}
use onesti_lock.Integration.Coordinator.View.{view, Updates, view-set_pin, view-set_slot_name}
use onesti_lock.Integration.Events.{Decoded, lock, zigbee, is_credential, source_of}
use onesti_lock.Integration.PinRules as PinRules
use onesti_lock.Integration.PinRules.{Capabilities, integer, is_valid_pin, pin_length_range}
use onesti_lock.Integration.Redact.{redact_digits}
use onesti_lock.Integration.Redact.Masked.{MatchesDigits, redact_digits-hides_pin}
use onesti_lock.Integration.Services.{
  Lock, Target, get_coordinator, handle_set_pin, handle_clear_pin, handle_clear_slot,
}
use onesti_lock.Integration.Services.Handlers.{
  Untouched, master_slot-Untouched, handle_set_pin_done,
}
use onesti_lock.Integration.Services.Meant.{Means, get_coordinator-Means}
use onesti_lock.Integration.Zha as Zha
use onesti_lock.Integration.Zha.{
  send_delivered, send_unreached, is_delivered, timed_out, replied, no_reply, entity, send,
}
use onesti_lock.Integration.Zha.Retry.{bolts, sends, send_acts}

abbrev caps : Capabilities
caps = record {
  num_pin_users = some (integer (pos 50));
  min_pin_length = none;
  max_pin_length = none;
}

-- A lock with a named slot 3.
abbrev home : World
home = record {
  options = record {
    slots = (3, record { name = some (b'A' ∷ []); has_pin = none }) ∷ [];
    reserved_slots = none;
    capabilities = none;
  };
  self = record { slots = []; lock_capabilities = caps; capabilities_final = false };
  current = none;
}

abbrev takes : Transport
takes c w = (send_delivered, w)

abbrev sleeps : Transport
sleeps c w = (send_unreached, w)

abbrev code : List ℕ
code = b'4' ∷ b'7' ∷ b'1' ∷ b'1' ∷ []

user_floor : first_user_slot home ≤ 5
unfolding PinRules.first_user_slot
user_floor = omega arith

taken : is_delivered send_delivered ≡ true
unfolding is_delivered
taken = refl

not_taken : is_delivered send_unreached ≡ false
unfolding is_delivered
not_taken = refl

view-set_pin_example :
    Updates home 5
      (record { name = b'B' ∷ []; has_pin = true })
      (set_pin 5 (b'B' ∷ []) code takes home).world
view-set_pin_example = view-set_pin 5 (b'B' ∷ []) code takes home user_floor taken

view-set_slot_name_example : view (set_slot_name 3 [] home).0.options 3 ≡ (
    if 3 == 3
    then record { name = []; has_pin = (view home.options 3).has_pin }
    else view home.options 3)
view-set_slot_name_example = view-set_slot_name 3 [] home 3

-- A count below the range is stored.
abbrev unreserved : World
unreserved = record home {
  options = record home.options { reserved_slots = some (integer (pos 0)) };
}

master_slot-Untouched_example :
    (set_pin 0 [] code takes unreserved ≡ refused unreserved)
    × (clear_pin 0 takes unreserved ≡ refused unreserved)
    × (clear_slot 0 takes unreserved ≡ refused unreserved)
    × Untouched unreserved (handle_set_pin (pos 0) [] code takes unreserved)
    × Untouched unreserved (handle_clear_pin (pos 0) takes unreserved)
    × Untouched unreserved (handle_clear_slot (pos 0) takes unreserved)
master_slot-Untouched_example = master_slot-Untouched [] code takes unreserved

abbrev reads : World → Option Capabilities × World
reads w = (some caps, w)

abbrev at_once : World → World
at_once w = w

code_valid : is_valid_pin code caps ≡ true
unfolding is_valid_pin pin_length_range all_digits is_ascii
code_valid = refl

handled : (handle_set_pin (pos 5) (b'B' ∷ []) code takes home).result ≡ ok tt
unfolding handle_set_pin is_valid_pin pin_length_range all_digits is_ascii PinRules.max_user_slot
handled = refl

handle_set_pin_done_example :
    (n : ℕ) × (pos 5 ≡ pos n)
    × (first_user_slot home ≤ n)
    × (n ≤ max_user_slot home)
    × (4 ≤ length code)
    × (length code ≤ 20)
    × (all_digits code ≡ true)
    × (is_delivered (takes (set_pin_code n code) home).0 ≡ true)
    × Updates
        (takes (set_pin_code n code) home).1
        n
        (record { name = b'B' ∷ []; has_pin = true })
        (handle_set_pin (pos 5) (b'B' ∷ []) code takes home).world
handle_set_pin_done_example = handle_set_pin_done (pos 5) (b'B' ∷ []) code takes home handled

abbrev front_door : Lock
front_door = record { entry_id = 1; ieee = b'a' ∷ b'b' ∷ [] }

abbrev back_door : Lock
back_door = record { entry_id = 2; ieee = b'c' ∷ b'd' ∷ [] }

abbrev pasted : Target
pasted = record { device_id = some []; device_entry = none; ieee = some (b'C' ∷ b'D' ∷ []) }

found : get_coordinator pasted (front_door ∷ back_door ∷ []) ≡ ok back_door
unfolding get_coordinator
found = refl

get_coordinator-Means_example : Means pasted (front_door ∷ back_door ∷ []) back_door
get_coordinator-Means_example =
    get_coordinator-Means pasted (front_door ∷ back_door ∷ []) back_door found

-- The lock sleeps through the first attempt, and answers the second.
abbrev sleepy : Zha.World
sleepy = record {
  has_cluster = true;
  first = timed_out;
  wakes = entity 100 true;
  second = replied no_reply;
}

abbrev never_woken : Zha.Transport
never_woken = record { last_wake = none }

send_acts_example :
    (bolts (send 5 sleepy never_woken).acts ≤ 1)
    × (bolts (send 5 sleepy never_woken).acts ≡ 1
        → (sleepy.first ≡ timed_out)
          × ((now : ℕ) × (goes_through : Bool) × (sleepy.wakes ≡ entity now goes_through)))
    × (sends (send 5 sleepy never_woken).acts ≤ 2)
    × ((sends (send 5 sleepy never_woken).acts ≡ 2)
        ↔ ((sleepy.has_cluster ≡ true) × (sleepy.first ≡ timed_out)))
send_acts_example = send_acts 5 sleepy never_woken

abbrev ascii_digit : ℕ → Bool
ascii_digit c = leb b'0' c && leb c b'9'

ascii_digit-MatchesDigits : MatchesDigits ascii_digit
ascii_digit-MatchesDigits = record { ascii = λ c lo hi. ground arith; star = refl }

redact_digits-hides_pin_example : redact_digits ascii_digit (b'x' ∷ code) ≢ [] ++ (code ++ [])
redact_digits-hides_pin_example =
    redact_digits-hides_pin ascii_digit (b'x' ∷ code) code caps [] [] ascii_digit-MatchesDigits
      code_valid

abbrev plain_name : ℕ → String
plain_name n = "Slot"

by_keypad : is_credential (source_of 2) ≡ true
unfolding source_of
by_keypad = refl

abbrev echo : Decoded
echo = record { user_slot = none; user_name = none; action = lock; source = zigbee }
