-- ===== src/Ble/Session.antt =====
-- ble/client/session.py: one connection to a lock, and what it does with what arrives. Time is in
-- milliseconds, the unit of `ready_at` and the two delays.
pub mod Revision
pub mod Exchange
pub mod Connect
pub mod Answers
pub mod Kept
pub mod Outcome
pub mod Settled
pub mod SameLink
pub mod Heard
pub mod Served
pub mod Closed
pub mod Connected
use onesti_lock.Base.{
  ℕ, ◌+◌, Bool, true, false, not, Result, ok, err, List, [], ◌∷◌, ◌++◌, Option, none, some, ◌==◌,
  ◌&&◌, if◌then◌else◌,
}
use onesti_lock.Ble.Error.{BleError, protocol, disconnected}
use onesti_lock.Ble.Const.{FirmwareVersion}
use onesti_lock.Ble.Const.CommandId.{CommandId}
use onesti_lock.Ble.Const.LockModelId.{LockModelId}
use onesti_lock.Ble.Const.ResponseId
use onesti_lock.Ble.Command.{CommandRefCounter, counter}
use onesti_lock.Ble.Crypto.{LinkKeys}
use onesti_lock.Ble.Response.{Response, is_event, expected_response_id, id_number}
use onesti_lock.Ble.Response as Response
use onesti_lock.Ble.Responses.{LockEvent, parse_event}
use onesti_lock.Ble.Stream.{PacketStream, Received, whole, control, nothing, receive, reset}

pub data State : Type 0 where
  fresh connecting connected closed : State

-- The future of a pending command.
pub data Future : Type 0 where
  waiting : Future
  answered : Response → Future
  failed : BleError → Future

pub record Pending : Type 0 where
  pub command_id : CommandId
  pub command_ref : ℕ
  pub static_ref : Bool
  pub future : Future

-- `refs` is None until `connect` has read the firmware, which it does before the first exchange;
-- here it is a counter that `connect` replaces.
pub record Session : Type 0 where
  pub command_delay : ℕ
  pub late_answer_grace : ℕ
  pub stream : PacketStream
  pub state : State
  pub refs : CommandRefCounter
  pub firmware : Option FirmwareVersion
  pub model : Option LockModelId
  pub link_keys : Option LinkKeys
  pub pending : Option Pending
  pub dropped : Option BleError
  pub ready_at : ℕ

-- What a notification does besides changing the session: a call of every listener, or an
-- exception that leaves the callback.
pub data Effect : Type 0 where
  notify : LockEvent → Effect
  escape : BleError → Effect

abbrev pub is_waiting : Future → Bool
is_waiting waiting = true
is_waiting _ = false

-- `_drop`
abbrev pub drop_notification : BleError → Session → Session × List Effect
drop_notification protocol s = (record s { dropped = some protocol }, [])
drop_notification e s = (s, escape e ∷ [])

-- `_dispatch_event`
abbrev pub dispatched : Result BleError (Option LockEvent) → Session → Session × List Effect
dispatched (err e) s = drop_notification e s
dispatched (ok none) s = (s, [])
dispatched (ok (some event)) s = (s, notify event ∷ [])

-- `response.response_id == expected_response_id(command_id)`
unfoldable pub is_expected : CommandId → Response → Bool
is_expected c r = elim (expected_response_id c) [
  | none ↦ false
  | some e ↦ id_number r == ResponseId.value e
]

abbrev pub answer : Response → Pending → Session → Session
answer r p s =
    if is_waiting p.future && r.command_ref == p.command_ref
    then (if p.static_ref && not (is_expected p.command_id r)
        then record s { dropped = some protocol }
        else record s { pending = some (record p { future = answered r }) })
    else s

abbrev pub answer_pending : Response → Option Pending → Session → Session
answer_pending r none s = s
answer_pending r (some p) s = answer r p s

abbrev pub on_response : Result BleError Response → Session → Session × List Effect
on_response (err e) s = drop_notification e s
on_response (ok r) s =
    if is_event r then dispatched (parse_event r) s else (answer_pending r s.pending s, [])

abbrev pub on_received : Result BleError Received → Session → Session × List Effect
on_received (err e) s = drop_notification e s
on_received (ok nothing) s = (s, [])
on_received (ok (control p)) s = (s, [])
on_received (ok (whole bytes encrypted)) s = on_response (Response.from_bytes bytes) s

-- `_on_notification`
unfoldable pub on_notification : List ℕ → Session → Session × List Effect
on_notification bytes s =
    let (r, stream) = receive bytes s.stream in on_received r (record s { stream = stream })

abbrev pub fail_future : BleError → Pending → Pending
fail_future e p = if is_waiting p.future then record p { future = failed e } else p

-- `_fail_pending`
abbrev pub fail_pending : Session → Session
fail_pending s = record s {
  pending = elim s.pending [ none ↦ none | some p ↦ some (fail_future disconnected p) ];
}

abbrev pub is_closed : State → Bool
is_closed closed = true
is_closed _ = false

unfoldable pub on_disconnect : Session → Session
on_disconnect s =
    if is_closed s.state
    then s
    else fail_pending (record s { state = closed; stream = reset s.stream })

-- `close`, without the call of the transport's own.
unfoldable pub close : Session → Session
close s = fail_pending (record s { state = closed })

-- What can happen to a session while a command waits or pauses.
pub data Incoming : Type 0 where
  notification : List ℕ → Incoming
  link_dropped : Incoming
  close_called : Incoming

unfoldable pub step : Incoming → Session → Session × List Effect
unfolding on_notification on_disconnect close
step (notification bytes) s = on_notification bytes s
step link_dropped s = (on_disconnect s, [])
step close_called s = (close s, [])

unfoldable pub steps : List Incoming → Session → Session × List Effect
unfolding step
steps [] s = (s, [])
steps (i ∷ is) s =
    let (s', effects) = step i s in let (s'', later) = steps is s' in (s'', effects ++ later)
