-- ===== src/Ble/Responses.antt =====
-- ble/protocol/responses.py: typed readings of response payloads.
pub mod Checked
pub mod Events
use onesti_lock.Base.{
  ℕ, pos, Bool, true, false, Result, ok, err, ◌>>=◌, ◌>>◌, guard, List, [], Option, none, some,
  ◌==◌, ◌||◌, if◌then◌else◌,
}
use onesti_lock.Ble.Error.{BleError, validation, protocol}
use onesti_lock.Ble.Const.{
  challenge_length, device_id_length, device_name_max_length, public_key_length,
}
use onesti_lock.Ble.Const.DoorlockMethodId
use onesti_lock.Ble.Const.DoorlockMethodId.{DoorlockMethodId}
use onesti_lock.Ble.Const.LockModelId
use onesti_lock.Ble.Const.LockModelId.{LockModelId}
use onesti_lock.Ble.Const.LockStateId
use onesti_lock.Ble.Const.LockStateId.{LockStateId}
use onesti_lock.Ble.Const.LockStatusId
use onesti_lock.Ble.Const.LockStatusId.{LockStatusId}
use onesti_lock.Ble.Const.ResponseId
use onesti_lock.Ble.Const.ResponseId.{ResponseId}
use onesti_lock.Ble.Const.UserAddedStatusId
use onesti_lock.Ble.Const.UserAddedStatusId.{UserAddedStatusId}
use onesti_lock.Ble.Packet.{required}
use onesti_lock.Ble.Response.{Response, Known, known_or_raw, id_number, is_event, raise_for_status}
use onesti_lock.Ble.Streams.{
  ByteReader, reader, read_uint8, read_uint16, read_uint32, read_bytes, read_string,
}

-- STATUS_ONLY_RESPONSES
unfoldable pub is_status_only : ResponseId → Bool
is_status_only ResponseId.ekey_operate = true
is_status_only ResponseId.device_id_set = true
is_status_only ResponseId.device_name_set = true
is_status_only ResponseId.current_time_set = true
is_status_only ResponseId.pin_code_set = true
is_status_only ResponseId.pin_code_clear = true
is_status_only ResponseId.rfid_code_clear = true
is_status_only ResponseId.fingerprint_clear = true
is_status_only ResponseId.volume_set = true
is_status_only ResponseId.auto_lock_set = true
is_status_only ResponseId.keypad_enable_set = true
is_status_only ResponseId.factory_reset_module = true
is_status_only _ = false

-- `_reader`: the id first, then the status where it is checked.
unfoldable pub reader_of : Response → ResponseId → Bool → Result BleError ByteReader
reader_of r expected check_status = do
  guard (id_number r == ResponseId.value expected) protocol
  if check_status then raise_for_status r else ok tt
  ok (reader r.payload)

unfoldable pub check_status_only : Response → ResponseId → Result BleError (Unit {0})
unfolding is_status_only reader_of
check_status_only r expected =
    if is_status_only expected
    then (do reader ← reader_of r expected true; ok tt)
    else err validation

-- One field of a fixed length, which is all that most answers carry.
unfoldable pub parse_fixed : ResponseId → ℕ → Response → Result BleError (List ℕ)
unfolding reader_of read_bytes
parse_fixed expected len r = do
  r0 ← reader_of r expected true
  (bytes, r1) ← read_bytes (pos len) r0
  ok bytes

abbrev pub parse_exchange_key_pub_l : Response → Result BleError (List ℕ)
parse_exchange_key_pub_l = parse_fixed ResponseId.exchange_key_pub_l public_key_length

abbrev pub parse_user_auth_begin : Response → Result BleError (List ℕ)
parse_user_auth_begin = parse_fixed ResponseId.user_auth_begin challenge_length

unfoldable pub parse_user_auth_finalize : Response → Result BleError ℕ
unfolding reader_of read_uint8
parse_user_auth_finalize r = do
  r0 ← reader_of r ResponseId.user_auth_finalize true
  (credentials, r1) ← read_uint8 r0
  ok credentials

abbrev pub parse_user_auth_update : Response → Result BleError (List ℕ)
parse_user_auth_update = parse_fixed ResponseId.user_auth_update public_key_length

abbrev pub parse_server_key_update : Response → Result BleError (List ℕ)
parse_server_key_update = parse_fixed ResponseId.server_key_update public_key_length

abbrev pub parse_device_id_get : Response → Result BleError (List ℕ)
parse_device_id_get = parse_fixed ResponseId.device_id_get device_id_length

unfoldable pub parse_device_name_get : Response → Result BleError (List ℕ)
unfolding reader_of read_string
parse_device_name_get r = do
  r0 ← reader_of r ResponseId.device_name_get true
  (name, r1) ← read_string (pos device_name_max_length) r0
  ok name

pub record BattInfo : Type 0 where
  pub level : ℕ
  pub low_battery : Bool
  pub percent : ℕ

unfoldable pub parse_batt_info : Response → Result BleError BattInfo
unfolding reader_of read_uint8 read_uint16
parse_batt_info r = do
  r0 ← reader_of r ResponseId.batt_info_get true
  (level, r1) ← read_uint16 r0
  (low, r2) ← read_uint8 r1
  (percent, r3) ← read_uint8 r2
  ok (record { level = level; low_battery = low == 1; percent = percent })

pub record DeviceModel : Type 0 where
  pub model : LockModelId
  pub raw_byte : ℕ

abbrev pub model_or_unknown : Option LockModelId → LockModelId
model_or_unknown none = LockModelId.unknown
model_or_unknown (some m) = m

unfoldable pub parse_device_model : Response → Result BleError DeviceModel
unfolding reader_of read_uint8
parse_device_model r = do
  r0 ← reader_of r ResponseId.device_model_get true
  (raw_byte, r1) ← read_uint8 r0
  ok (record { model = model_or_unknown (LockModelId.of_value raw_byte); raw_byte = raw_byte })

unfoldable pub parse_device_log : Response → Result BleError (List ℕ)
unfolding reader_of read_uint8 read_bytes
parse_device_log r = do
  r0 ← reader_of r ResponseId.device_log_get true
  (len, r1) ← read_uint8 r0
  (log, r2) ← read_bytes (pos len) r1
  ok log

unfoldable pub parse_current_time : Response → Result BleError ℕ
unfolding reader_of read_uint32
parse_current_time r = do
  r0 ← reader_of r ResponseId.current_time_get true
  (minutes, r1) ← read_uint32 r0
  ok minutes

pub record ScanResult : Type 0 where
  pub slot : ℕ
  pub status : Known LockStatusId

unfoldable pub parse_scan : ResponseId → Response → Result BleError ScanResult
unfolding reader_of read_uint8 read_uint16
parse_scan expected r = do
  r0 ← reader_of r expected true
  (slot, r1) ← read_uint16 r0
  (raw_status, r2) ← read_uint8 r1
  ok (record { slot = slot; status = known_or_raw (LockStatusId.of_value raw_status) raw_status })

abbrev pub parse_fingerprint_scan : Response → Result BleError ScanResult
parse_fingerprint_scan = parse_scan ResponseId.fingerprint_scan

abbrev pub parse_scan_rfid_code : Response → Result BleError ScanResult
parse_scan_rfid_code = parse_scan ResponseId.scan_rfid_code

-- What the lock sends on its own.
pub data LockEvent : Type 0 where
  lock_status : ℕ → LockStateId → DoorlockMethodId → LockEvent
  user_added : ℕ → UserAddedStatusId → LockEvent

unfoldable pub parse_lock_status : Response → Result BleError LockEvent
unfolding reader_of read_uint8 read_uint16
parse_lock_status r = do
  r0 ← reader_of r ResponseId.lock_status false
  (slot, r1) ← read_uint16 r0
  (raw_state, r2) ← read_uint8 r1
  state ← required (LockStateId.of_value raw_state)
  (raw_method, r3) ← read_uint8 r2
  method ← required (DoorlockMethodId.of_value raw_method)
  ok (lock_status slot state method)

unfoldable pub parse_user_added : Response → Result BleError LockEvent
unfolding reader_of read_uint8 read_uint16
parse_user_added r = do
  r0 ← reader_of r ResponseId.user_added false
  (slot, r1) ← read_uint16 r0
  (raw_status, r2) ← read_uint8 r1
  status ← required (UserAddedStatusId.of_value raw_status)
  ok (user_added slot status)

abbrev some_event : Result BleError LockEvent → Result BleError (Option LockEvent)
some_event r = r >>= λ e. ok (some e)

unfoldable pub parse_event : Response → Result BleError (Option LockEvent)
unfolding is_event ResponseId.value
parse_event r =
    if is_event r
    then (if id_number r == ResponseId.value ResponseId.lock_status
        then some_event (parse_lock_status r)
        else if id_number r == ResponseId.value ResponseId.user_added
        then some_event (parse_user_added r)
        else ok none)
    else ok none
