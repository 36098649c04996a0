-- ===== src/Ble/Session/Exchange.antt =====
-- `Session._exchange`, `availability` and `send`: one command and its answer.
use onesti_lock.Base.{
  ℕ, ◌+◌, Bool, true, false, not, Result, ok, err, ◌>>=◌, ◌>>◌, List, [], ◌++◌, Option, none, some,
  ltb, ◌&&◌, if◌then◌else◌,
}
use onesti_lock.Ble.Error.{
  BleError, protocol, session_state, disconnected, timeout, feature_unavailable,
}
use onesti_lock.Ble.Const.CommandId.{CommandId}
use onesti_lock.Ble.Const.DeviceFeature.{DeviceFeature, is_available}
use onesti_lock.Ble.Command.{CommandPayload, Command, CommandRefCounter, with_ref, next}
use onesti_lock.Ble.Command as Command
use onesti_lock.Ble.Features as Features
use onesti_lock.Ble.Response.{Response, raise_for_status}
use onesti_lock.Ble.Stream.{PayloadCipher, frame}
use onesti_lock.Ble.Session.{
  Session, State, fresh, connecting, connected, Pending, Future, waiting, answered, failed, Effect,
  Incoming, steps, is_expected,
}

-- What the world does during one exchange: the clock when it starts and when the wait ends, what
-- arrives in the pause and in the wait, and the error of a write, if one fails.
pub record Course : Type 0 where
  pub now : ℕ
  pub ended : ℕ
  pub in_pause : List Incoming
  pub in_wait : List Incoming
  pub write_error : Option BleError

-- The frames are those that go to the transport, up to the write that fails.
pub record Exchanged : Type 0 where
  pub outcome : Result BleError Response
  pub frames : List (List ℕ)
  pub session : Session
  pub effects : List Effect

abbrev pub is_open : State → Bool
is_open connecting = true
is_open connected = true
is_open _ = false

-- `_not_connected`
abbrev pub not_connected : State → BleError
not_connected fresh = session_state
not_connected connecting = session_state
not_connected _ = disconnected

abbrev pub stop : BleError → Session → List Effect → Exchanged
stop e s effects = record { outcome = err e; frames = []; session = s; effects = effects }

-- What follows the wait: the status first, then the id.
unfoldable pub checked : CommandId → Response → Result BleError Response
unfolding raise_for_status is_expected
checked c r = raise_for_status r >> (if is_expected c r then ok r else err protocol)

abbrev pub future_of : Option Pending → Future
future_of none = waiting
future_of (some p) = p.future

-- The `finally` of the wait clears the pending command on every path.
abbrev pub concluded :
    CommandId
    → Bool
    → Course
    → Option BleError
    → Future
    → Session
    → Result BleError Response × Session
concluded c static t (some e) future s = (err e, record s { pending = none })
concluded c static t none (answered r) s =
    (checked c r, record s { pending = none; ready_at = t.ended + s.command_delay })
concluded c static t none (failed e) s = (err e, record s { pending = none })
concluded c static t none waiting s = (
  err timeout,
  record s {
    pending = none;
    ready_at = if static then t.ended + s.late_answer_grace else s.ready_at;
  },
)

abbrev pub wait : CommandId → ℕ → Bool → List (List ℕ) → Course → Session → List Effect → Exchanged
wait c command_ref static frames t s effects =
    let s1 : Session = record s {
      pending = some (record {
        command_id = c;
        command_ref = command_ref;
        static_ref = static;
        future = waiting;
      });
      dropped = none;
    } in
    let (s2, later) = steps t.in_wait s1 in
    let (outcome, s3) = concluded c static t t.write_error (future_of s2.pending) s2 in
    record { outcome = outcome; frames = frames; session = s3; effects = effects ++ later }

abbrev pub framed_wait :
    Result BleError (List (List ℕ))
    → CommandId
    → ℕ
    → Bool
    → Course
    → Session
    → List Effect
    → Exchanged
framed_wait (err e) c command_ref static t s effects = stop e s effects
framed_wait (ok frames) c command_ref static t s effects =
    wait c command_ref static frames t s effects

abbrev pub is_key_exchange : CommandId → Bool
is_key_exchange CommandId.exchange_key_pub_m = true
is_key_exchange _ = false

abbrev pub may_frame : CommandId → Option PayloadCipher → Bool
may_frame c none = is_key_exchange c
may_frame c (some cipher) = true

unfoldable pub frames_of : CommandPayload → ℕ → Session → Result BleError (List (List ℕ))
frames_of c command_ref s =
    Command.to_bytes (with_ref c command_ref) >>= λ bytes. frame s.stream bytes

unfoldable pub exchange_now : CommandPayload → Course → Session → List Effect → Exchanged
unfolding next
exchange_now c t s effects =
    if may_frame c.command_id s.stream.cipher
    then (let (command_ref, refs) = next s.refs in
        framed_wait (frames_of c command_ref s) c.command_id command_ref s.refs.static t
          (record s { refs = refs }) effects)
    else stop session_state s effects

unfoldable pub exchange : CommandPayload → Course → Session → Exchanged
unfolding exchange_now steps
exchange c t s =
    if is_open s.state
    then (let (s', effects) = steps (if ltb t.now s.ready_at then t.in_pause else []) s in
        if is_open s'.state
        then exchange_now c t s' effects
        else stop (not_connected s'.state) s' effects)
    else stop (not_connected s.state) s []

abbrev pub feature_of : CommandPayload → Session → Result BleError DeviceFeature
feature_of c s = elim s.firmware [
  | none ↦ err session_state
  | some firmware ↦ ok (Features.availability c firmware s.model)
]

abbrev pub is_connected : State → Bool
is_connected connected = true
is_connected _ = false

unfoldable pub availability : CommandPayload → Session → Result BleError DeviceFeature
availability c s = if is_connected s.state then feature_of c s else err (not_connected s.state)

abbrev pub refused : CommandPayload → DeviceFeature → Session → BleError
refused c feature s = elim s.firmware [
  | none ↦ session_state
  | some firmware ↦ feature_unavailable c.command_id feature firmware s.model
]

abbrev pub gated :
    Result BleError DeviceFeature → CommandPayload → Bool → Course → Session → Exchanged
gated (err e) c skip_app_gates t s = stop e s []
gated (ok feature) c skip_app_gates t s =
    if not (is_available feature) && not skip_app_gates
    then stop (refused c feature s) s []
    else exchange c t s

unfoldable pub send : CommandPayload → Bool → Course → Session → Exchanged
unfolding availability is_available exchange
send c skip_app_gates t s = gated (availability c s) c skip_app_gates t s
