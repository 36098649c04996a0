-- ===== src/Ble/Commands.antt =====
-- ble/protocol/commands.py: the builders of commands, with the checks that they make first. A text
-- is the list of its code points.
pub mod Slots
pub mod Pins
pub mod Time
use onesti_lock.Base.{
  ℕ, ◌+◌, ◌*◌, ◌/◌, ◌<◌, ℤ, pos, negsuc, Bool, true, false, Result, ok, err, ◌>>=◌, ◌>>◌, guard,
  List, [], ◌∷◌, Option, none, some, ltb, leb, ◌==◌, ◌&&◌, if◌then◌else◌, length,
}
use onesti_lock.Ble.Error.{BleError, validation}
use onesti_lock.Ble.Const.{
  public_key_length, challenge_length, device_id_length, device_name_max_length, pin_length_min,
  pin_length_max, SlotRange, pin_slots, fingerprint_slots, rfid_slots,
}
use onesti_lock.Ble.Const.CommandId
use onesti_lock.Ble.Const.CommandId.{CommandId}
use onesti_lock.Ble.Const.EkeyOperationId
use onesti_lock.Ble.Const.LockVolumeId
use onesti_lock.Ble.Command.{CommandPayload}
use onesti_lock.Ble.Streams.{
  writer, write_uint, write_uint8, write_uint16, write_uint32, write_bytes, write_string,
  write_raw_string, written,
}

abbrev pub master_pin_slot : ℤ
master_pin_slot = pos 0

abbrev pub uint16_slots : SlotRange
uint16_slots = record { start = 0; stop = 0x10000 }

-- `slot in slots`
abbrev pub in_range : ℤ → SlotRange → Bool
in_range (pos n) slots = leb slots.start n && ltb n slots.stop
in_range (negsuc n) slots = false

abbrev check_slot : ℤ → SlotRange → Result BleError (Unit {0})
check_slot slot slots = guard (in_range slot slots) validation

abbrev check_length : List ℕ → ℕ → Result BleError (Unit {0})
check_length value len = guard (length value == len) validation

abbrev command : CommandId → Result BleError (List ℕ) → Result BleError CommandPayload
command id bytes = bytes >>= λ b. ok (record { command_id = id; bytes = b })

unfoldable pub slot_command : CommandId → ℤ → SlotRange → Result BleError CommandPayload
unfolding write_uint
slot_command id slot slots = do
  check_slot slot slots
  command id (written (ok writer >>= write_uint16 slot))

unfoldable pub flag_command : CommandId → Bool → Result BleError CommandPayload
unfolding write_uint
flag_command id enabled =
    command id (written (ok writer >>= write_uint8 (pos (if enabled then 1 else 0))))

abbrev pub empty_command : CommandId → CommandPayload
empty_command id = record { command_id = id; bytes = [] }

-- `_member`: an enum argument given by its number, refused where no member has it.
abbrev member {ℓ} : {E : Type ℓ} → (ℕ → Option E) → ℤ → Result BleError E
member of_value (negsuc n) = err validation
member of_value (pos n) = elim (of_value n) [ none ↦ err validation | some e ↦ ok e ]

unfoldable pub exchange_key_pub_m : List ℕ → Result BleError CommandPayload
exchange_key_pub_m public_key = do
  check_length public_key public_key_length
  command CommandId.exchange_key_pub_m (ok public_key)

unfoldable pub user_auth_begin : ℤ → List ℕ → Result BleError CommandPayload
unfolding write_uint
user_auth_begin user_id device_id = do
  check_length device_id device_id_length
  command CommandId.user_auth_begin
      (written (ok writer >>= write_uint8 user_id >>= write_bytes device_id))

unfoldable pub user_auth_finalize : List ℕ → Result BleError CommandPayload
user_auth_finalize challenge = do
  check_length challenge challenge_length
  command CommandId.user_auth_finalize (ok challenge)

unfoldable pub user_auth_update : ℤ → ℤ → List ℕ → Result BleError CommandPayload
unfolding write_uint
user_auth_update user_id credentials public_key = do
  check_length public_key public_key_length
  command CommandId.user_auth_update (
      written
        (ok writer >>= write_uint8 user_id >>= write_uint8 credentials >>= write_bytes public_key))

unfoldable pub device_id_set : List ℕ → Result BleError CommandPayload
device_id_set device_id = do
  check_length device_id device_id_length
  command CommandId.device_id_set (ok device_id)

abbrev pub device_id_get : CommandPayload
device_id_get = empty_command CommandId.device_id_get

unfoldable pub device_name_set : List ℕ → Result BleError CommandPayload
unfolding write_string
device_name_set name =
    command CommandId.device_name_set
      (written (ok writer >>= write_string name device_name_max_length))

abbrev pub device_name_get : CommandPayload
device_name_get = empty_command CommandId.device_name_get

unfoldable pub server_key_update : List ℕ → Result BleError CommandPayload
server_key_update server_public_key = do
  check_length server_public_key public_key_length
  command CommandId.server_key_update (ok server_public_key)

-- `"0" <= char <= "9"` for every character.
unfoldable pub all_digits : List ℕ → Bool
all_digits [] = true
all_digits (c ∷ cs) = leb b'0' c && leb c b'9' && all_digits cs

unfoldable pub pin_code_set : ℤ → List ℕ → Bool → Result BleError CommandPayload
unfolding write_uint
pin_code_set slot pin ignore_slot_check = do
  guard (leb pin_length_min (length pin) && leb (length pin) pin_length_max) validation
  guard (all_digits pin) validation
  check_slot slot (if ignore_slot_check then uint16_slots else pin_slots)
  command CommandId.pin_code_set (
      written (
        ok writer
        >>= write_uint16 slot
        >>= write_uint8 (pos (length pin))
        >>= write_raw_string pin))

abbrev pub master_pin_code_set : List ℕ → Result BleError CommandPayload
master_pin_code_set pin = pin_code_set master_pin_slot pin true

abbrev pub pin_code_clear : ℤ → Result BleError CommandPayload
pin_code_clear slot = slot_command CommandId.pin_code_clear slot pin_slots

abbrev pub rfid_code_clear : ℤ → Result BleError CommandPayload
rfid_code_clear slot = slot_command CommandId.rfid_code_clear slot rfid_slots

abbrev pub scan_rfid_code : ℤ → Result BleError CommandPayload
scan_rfid_code slot = slot_command CommandId.scan_rfid_code slot rfid_slots

abbrev pub fingerprint_scan : ℤ → Result BleError CommandPayload
fingerprint_scan slot = slot_command CommandId.fingerprint_scan slot fingerprint_slots

abbrev pub fingerprint_clear : ℤ → Result BleError CommandPayload
fingerprint_clear slot = slot_command CommandId.fingerprint_clear slot fingerprint_slots

unfoldable pub ekey_operate : ℤ → Result BleError CommandPayload
unfolding write_uint
ekey_operate operation = do
  op ← member EkeyOperationId.of_value operation
  command CommandId.ekey_operate
      (written (ok writer >>= write_uint8 (pos (EkeyOperationId.value op))))

unfoldable pub volume_set : ℤ → Result BleError CommandPayload
unfolding write_uint
volume_set volume = do
  v ← member LockVolumeId.of_value volume
  command CommandId.volume_set (written (ok writer >>= write_uint8 (pos (LockVolumeId.value v))))

abbrev pub auto_lock_set : Bool → Result BleError CommandPayload
auto_lock_set enabled = flag_command CommandId.auto_lock_set enabled

abbrev pub keypad_enable_set : Bool → Result BleError CommandPayload
keypad_enable_set enabled = flag_command CommandId.keypad_enable_set enabled

abbrev pub current_time_get : CommandPayload
current_time_get = empty_command CommandId.current_time_get

unfoldable pub current_time_set : ℤ → Result BleError CommandPayload
unfolding write_uint
current_time_set time =
    command CommandId.current_time_set (written (ok writer >>= write_uint32 time))

-- A `datetime`: naive, or aware, as the microseconds from LOCK_TIME_EPOCH.
pub data Moment : Type 0 where
  naive : Moment
  aware : ℤ → Moment

abbrev pub minute : ℕ
minute = 60000000

unfoldable pub to_lock_time : Moment → Result BleError ℕ
to_lock_time naive = err validation
to_lock_time (aware (negsuc n)) = err validation
to_lock_time (aware (pos n)) = ok (n / minute)

-- Minutes from the epoch to the year 10000, which no `datetime` reaches: `none` is OverflowError.
abbrev pub datetime_minutes : ℕ
datetime_minutes = 4195496160

unfoldable pub from_lock_time : ℕ → Option Moment
from_lock_time minutes =
    if ltb minutes datetime_minutes then some (aware (pos (minutes * minute))) else none

abbrev pub batt_info_get : CommandPayload
batt_info_get = empty_command CommandId.batt_info_get

abbrev pub device_log_get : CommandPayload
device_log_get = empty_command CommandId.device_log_get

abbrev pub device_model_get : CommandPayload
device_model_get = empty_command CommandId.device_model_get
