-- ===== src/Ble/Response.antt =====
-- ble/protocol/response.py, and `error_for_status` of ble/errors.py: Layer 3 responses.
pub mod RoundTrip
pub mod Status
use onesti_lock.Base.{
  ℕ, ◌+◌, pos, Bool, Result, ok, err, ◌>>=◌, List, Option, none, some, ltb, ◌==◌, if◌then◌else◌,
  length,
}
use onesti_lock.Ble.Error.{BleError, validation, protocol, operation, unknown, status_class}
use onesti_lock.Ble.Const.{response_header_size}
use onesti_lock.Ble.Const.CommandId
use onesti_lock.Ble.Const.CommandId.{CommandId}
use onesti_lock.Ble.Const.ResponseId
use onesti_lock.Ble.Const.ResponseId.{ResponseId}
use onesti_lock.Ble.Const.ResponseStatusId
use onesti_lock.Ble.Const.ResponseStatusId.{ResponseStatusId}
use onesti_lock.Ble.Streams.{
  reader, remaining, read_uint8, read_bytes, writer, write_uint, write_uint8, write_bytes, written,
}

abbrev pub event_command_ref : ℕ
event_command_ref = 0x80

-- `ResponseId(command_id.value)`, with `none` for its ValueError.
unfoldable pub expected_response_id : CommandId → Option ResponseId
unfolding CommandId.value ResponseId.of_value
expected_response_id c = ResponseId.of_value (CommandId.value c)

-- `E | int`: a member, or the number where no member has that value.
pub data Known (E : Type 0) : Type 0 where
  known : E → Known E
  raw : ℕ → Known E

abbrev pub number : {E : Type 0} → (E → ℕ) → Known E → ℕ
number value (known e) = value e
number value (raw n) = n

abbrev pub known_or_raw : {E : Type 0} → Option E → ℕ → Known E
known_or_raw none n = raw n
known_or_raw (some e) n = known e

pub record Response : Type 0 where
  pub response_id : Known ResponseId
  pub command_ref : ℕ
  pub status : Known ResponseStatusId
  pub payload : List ℕ

abbrev pub id_number : Response → ℕ
id_number r = number ResponseId.value r.response_id

abbrev pub status_number : Response → ℕ
status_number r = number ResponseStatusId.value r.status

unfoldable pub is_ok : Response → Bool
unfolding ResponseStatusId.value
is_ok r = status_number r == 0

unfoldable pub is_event : Response → Bool
is_event r = r.command_ref == event_command_ref

-- The class of a status; SUCCESS is in no entry of STATUS_ERRORS and is refused before the lookup.
abbrev pub class_error : ℕ → Option ResponseStatusId → BleError
class_error status none = operation (unknown status)
class_error status (some s) = elim (status_class s) [ none ↦ validation | some c ↦ operation c ]

-- The exception that a failed status becomes, or the one that this function raises.
unfoldable pub error_for_status : ℕ → Result BleError BleError
unfolding ResponseStatusId.of_value
error_for_status status =
    if status == 0
    then err validation
    else ok (class_error status (ResponseStatusId.of_value status))

unfoldable pub raise_for_status : Response → Result BleError (Unit {0})
unfolding is_ok
raise_for_status r = if is_ok r then ok tt else error_for_status (status_number r) >>= λ e. err e

unfoldable pub to_bytes : Response → Result BleError (List ℕ)
unfolding write_uint
to_bytes r = written (
    ok writer
    >>= write_uint8 (pos (id_number r))
    >>= write_uint8 (pos (length r.payload))
    >>= write_uint8 (pos r.command_ref)
    >>= write_uint8 (pos (status_number r))
    >>= write_bytes r.payload)

unfoldable pub from_bytes : List ℕ → Result BleError Response
unfolding read_uint8 read_bytes
from_bytes bytes = if ltb (remaining (reader bytes)) response_header_size then err protocol else do
  (raw_id, r1) ← read_uint8 (reader bytes)
  (len, r2) ← read_uint8 r1
  (command_ref, r3) ← read_uint8 r2
  (raw_status, r4) ← read_uint8 r3
  (payload, r5) ← read_bytes (pos len) r4
  ok (record {
    response_id = known_or_raw (ResponseId.of_value raw_id) raw_id;
    command_ref = command_ref;
    status = known_or_raw (ResponseStatusId.of_value raw_status) raw_status;
    payload = payload;
  })
