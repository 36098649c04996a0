-- ===== src/Ble/Examples/Wire.antt =====
-- Examples of the frames, the commands and the responses.
use onesti_lock.Base.{
  [], ℕ, pos, true, false, ok, err, List, ◌∷◌, ◌++◌, none, some, ◌≡◌, ◌≢◌, inl, refl, arith, length,
  replicate,
}
use onesti_lock.Ble.Error.{protocol}
use onesti_lock.Ble.Const.{FirmwareVersion}
use onesti_lock.Ble.Const.CommandId.{CommandId}
use onesti_lock.Ble.Const.DoorlockMethodId
use onesti_lock.Ble.Const.LockStateId
use onesti_lock.Ble.Const.ResponseId
use onesti_lock.Ble.Const.ResponseStatusId
use onesti_lock.Base.{inl, inr}
use onesti_lock.Ble.Command.{for_firmware, Command, next}
use onesti_lock.Ble.Command.Refs.{after, next_distinct}
use onesti_lock.Ble.Commands.{aware, from_lock_time, all_digits}
use onesti_lock.Ble.Commands.Pins.{IsPin, pin_command, pin_code_set_accepted, pin_code_set_accepts}
use onesti_lock.Ble.Response.{Response, known}
use onesti_lock.Ble.Responses.{lock_status}
use onesti_lock.Ble.Responses.Events.{event_payload}
use onesti_lock.Ble.Stream.{whole, frame_with, receive}
use onesti_lock.Ble.Stream.Invariant.{IsClean, receive-IsClean, receive_resets}
use onesti_lock.Ble.Stream.Reassembly.{receive_until}
use onesti_lock.Ble.Stream.Transfer.{idle, receive_until-frame}
use onesti_lock.Base.{◌-◌, drop}
use onesti_lock.Ble.Advertisement.{Advertisement}

receive_until-frame_example :
    (frames : List (List ℕ)) × (frame_with 23 none (replicate 40 9) ≡ ok frames)
    × (receive_until frames (idle 23 none) ≡ (ok (whole (replicate 40 9) false), idle 23 none, []))
receive_until-frame_example =
    receive_until-frame 23 23 (replicate 40 9) (omega arith) (omega arith) (omega arith)

receive-IsClean_example : IsClean (receive (1 ∷ 2 ∷ 3 ∷ []) (idle 23 none)).1
receive-IsClean_example = receive-IsClean (1 ∷ 2 ∷ 3 ∷ []) (idle 23 none) (record { blob = refl })

abbrev unlock : Command
unlock = record { command_id = CommandId.ekey_operate; command_ref = 3; payload = 1 ∷ []; rfu = 0 }

abbrev firmware : FirmwareVersion
firmware = record { major = 4; minor = 8; bugfix = 2 }

next_distinct_example :
    (next (after 3 (for_firmware firmware))).0 ≢ (next (after 129 (for_firmware firmware))).0
next_distinct_example =
    next_distinct firmware 3 129 (inr (inl (refl, omega arith))) (omega arith) (omega arith)

abbrev code : List ℕ
code = b'4' ∷ b'7' ∷ b'1' ∷ b'1' ∷ []

all_digits-code : all_digits code ≡ true
unfolding all_digits
all_digits-code = refl

code-IsPin : IsPin 850 code false
code-IsPin = record {
  long_enough = omega arith;
  short_enough = omega arith;
  digits = all_digits-code;
  slot_range = inl (omega arith, omega arith);
}

pin_code_set_accepted_example :
    (n : ℕ) × (pos 850 ≡ pos n) × IsPin n code false × (pin_command 850 code ≡ pin_command n code)
pin_code_set_accepted_example =
    pin_code_set_accepted (pos 850) code false (pin_command 850 code)
      (pin_code_set_accepts 850 code false code-IsPin)

minute_1000 : from_lock_time 1000 ≡ some (aware (pos 60000000000))
unfolding from_lock_time
minute_1000 = refl

-- The bolt was locked by a fingerprint, in slot 800.
abbrev locked : Response
locked = record {
  response_id = known ResponseId.lock_status;
  command_ref = 128;
  status = known ResponseStatusId.success;
  payload = 32 ∷ 3 ∷ 1 ∷ 3 ∷ 9 ∷ [];
}

locked_payload :
    locked.payload
    ≡ event_payload (lock_status 800 LockStateId.locked DoorlockMethodId.fingerprint) ++ 9 ∷ []
unfolding LockStateId.value DoorlockMethodId.value
locked_payload = refl

receive_resets_example :
    ((receive (9 ∷ []) (idle 23 none)).1.mtu ≡ 23)
    × ((receive (9 ∷ []) (idle 23 none)).1.cipher ≡ none)
    × ((receive (9 ∷ []) (idle 23 none)).0 ≡ err protocol
        → (receive (9 ∷ []) (idle 23 none)).1.blob ≡ none)
receive_resets_example = receive_resets (9 ∷ []) (idle 23 none)

-- A hash that keeps the end of what it reads.
abbrev last_six : List ℕ → List ℕ
last_six bytes = drop (length bytes - 6) bytes

abbrev seen : Advertisement
seen = record { seed = 7 ∷ 9 ∷ []; identifier = 1 ∷ 2 ∷ 3 ∷ 4 ∷ 5 ∷ 6 ∷ [] }
