-- ===== src/Ble/Responses/Events.antt =====
-- The two events of the lock: what is read from their payload.
use onesti_lock.Base.{ℕ, ◌/◌, ◌%◌, ok, List, [], ◌∷◌, ◌++◌, some, ◌≡◌, arith}
use onesti_lock.Ble.Const.DoorlockMethodId
use onesti_lock.Ble.Const.DoorlockMethodId.{DoorlockMethodId}
use onesti_lock.Ble.Const.LockStateId
use onesti_lock.Ble.Const.LockStateId.{LockStateId}
use onesti_lock.Ble.Const.ResponseId
use onesti_lock.Ble.Const.UserAddedStatusId
use onesti_lock.Ble.Const.UserAddedStatusId.{UserAddedStatusId}
use onesti_lock.Ble.Response.{Response, known}
use onesti_lock.Ble.Responses.{
  LockEvent, lock_status, user_added, parse_lock_status, parse_user_added, parse_event,
}

-- The payload of an event: [slot, low byte first][state][method], or [slot][status].
abbrev pub event_id : LockEvent → ResponseId.ResponseId
event_id (lock_status slot state method) = ResponseId.ResponseId.lock_status
event_id (user_added slot status) = ResponseId.ResponseId.user_added

abbrev pub event_payload : LockEvent → List ℕ
event_payload (lock_status slot state method) =
    slot % 256 ∷ slot / 256 ∷ LockStateId.value state ∷ DoorlockMethodId.value method ∷ []
event_payload (user_added slot status) =
    slot % 256 ∷ slot / 256 ∷ UserAddedStatusId.value status ∷ []

abbrev pub event_slot : LockEvent → ℕ
event_slot (lock_status slot state method) = slot
event_slot (user_added slot status) = slot

-- An event that the lock sends is read back as it was, whatever its status byte says and whatever
-- bytes follow its fields.
pub parse_event-payload :
    (e : LockEvent) (r : Response) (extra : List ℕ)
    → r.response_id ≡ known (event_id e)
    → r.command_ref ≡ 128
    → r.payload ≡ event_payload e ++ extra
    → parse_event r ≡ ok (some e)
unfolding parse_event parse_lock_status parse_user_added
parse_event-payload (lock_status slot state method) r extra i c p =
    ground (arith, LockStateId.of_value-value state, DoorlockMethodId.of_value-value method)
parse_event-payload (user_added slot status) r extra i c p =
    ground (arith, UserAddedStatusId.of_value-value status)

-- Only a response under ref 128 is read as an event.
pub parse_event_ref :
    (r : Response) (e : LockEvent) → parse_event r ≡ ok (some e) → r.command_ref ≡ 128
unfolding parse_event
parse_event_ref r e h = ground arith
