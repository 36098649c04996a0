-- ===== src/Ble/Session/Kept.antt =====
-- What no notification, disconnect or close changes.
use onesti_lock.Base.{
  ℕ, Result, ok, err, List, [], ◌∷◌, Option, none, some, ◌≡◌, inl, inr, refl, ◌∙◌, arith,
  Bool-cases,
}
use onesti_lock.Ble.Error.{BleError, protocol}
use onesti_lock.Ble.Const.{FirmwareVersion}
use onesti_lock.Ble.Const.LockModelId.{LockModelId}
use onesti_lock.Ble.Command.{CommandRefCounter}
use onesti_lock.Ble.Crypto.{LinkKeys}
use onesti_lock.Ble.Response.{Response, is_event, from_bytes}
use onesti_lock.Ble.Responses.{LockEvent, parse_event}
use onesti_lock.Ble.Stream.{PayloadCipher, PacketStream, Received, whole, control, nothing, receive}
use onesti_lock.Ble.Stream.Invariant.{receive_resets}
use onesti_lock.Ble.Session.{
  Session, closed, Pending, Incoming, notification, link_dropped, close_called, step, steps,
  on_notification, on_received, on_response, on_disconnect, close, is_closed, answer,
  answer_pending, dispatched, drop_notification,
}

-- The parts of a session that `connect` and the exchanges alone set.
pub record Settings : Type 0 where
  pub mtu : ℕ
  pub cipher : Option PayloadCipher
  pub refs : CommandRefCounter
  pub firmware : Option FirmwareVersion
  pub model : Option LockModelId
  pub link_keys : Option LinkKeys
  pub ready_at : ℕ
  pub command_delay : ℕ
  pub late_answer_grace : ℕ

abbrev pub settings : Session → Settings
settings s = record {
  mtu = s.stream.mtu;
  cipher = s.stream.cipher;
  refs = s.refs;
  firmware = s.firmware;
  model = s.model;
  link_keys = s.link_keys;
  ready_at = s.ready_at;
  command_delay = s.command_delay;
  late_answer_grace = s.late_answer_grace;
}

-- The settings stay, a closed session stays closed, and no command starts to wait.
pub record Keeps (s s' : Session) : Type 0 where
  pub settings : settings s' ≡ settings s
  pub closed : s.state ≡ closed → s'.state ≡ closed
  pub none_pending : s.pending ≡ none → s'.pending ≡ none

pub Keeps-same : (s : Session) → Keeps s s
Keeps-same s = record { settings = refl; closed = λ h. h; none_pending = λ h. h }

pub Keeps-then : {s s' s'' : Session} → Keeps s s' → Keeps s' s'' → Keeps s s''
Keeps-then h k = record {
  settings = k.settings ∙ h.settings;
  closed = λ e. k.closed (h.closed e);
  none_pending = λ e. k.none_pending (h.none_pending e);
}

drop_notification-Keeps : (e : BleError) (s : Session) → Keeps s (drop_notification e s).0
drop_notification-Keeps protocol s = record {
  settings = refl;
  closed = λ h. h;
  none_pending = λ h. h;
}
drop_notification-Keeps _ s = Keeps-same s

dispatched-Keeps :
    (r : Result BleError (Option LockEvent)) (s : Session) → Keeps s (dispatched r s).0
dispatched-Keeps (err e) s = drop_notification-Keeps e s
dispatched-Keeps (ok none) s = Keeps-same s
dispatched-Keeps (ok (some e)) s = Keeps-same s

answer-Keeps :
    (r : Response) (p : Pending) (s : Session) → s.pending ≡ some p → Keeps s (answer r p s)
answer-Keeps r p s e = record {
  settings = ground arith;
  closed = λ h. ground arith;
  none_pending = λ h. cc;
}

answer_pending-Keeps :
    (r : Response) (o : Option Pending) (s : Session)
    → s.pending ≡ o
    → Keeps s (answer_pending r o s)
answer_pending-Keeps r none s e = Keeps-same s
answer_pending-Keeps r (some p) s e = answer-Keeps r p s e

on_response-Keeps : (r : Result BleError Response) (s : Session) → Keeps s (on_response r s).0
on_response-Keeps (err e) s = drop_notification-Keeps e s
on_response-Keeps (ok r) s = elim (Bool-cases (is_event r)) [
  | inl event ↦ rw event (dispatched-Keeps (parse_event r) s)
  | inr plain ↦ rw plain (answer_pending-Keeps r s.pending s refl)
]

on_received-Keeps : (r : Result BleError Received) (s : Session) → Keeps s (on_received r s).0
on_received-Keeps (err e) s = drop_notification-Keeps e s
on_received-Keeps (ok nothing) s = Keeps-same s
on_received-Keeps (ok (control p)) s = Keeps-same s
on_received-Keeps (ok (whole bytes encrypted)) s = on_response-Keeps (from_bytes bytes) s

stream-Keeps :
    (s : Session) (stream : PacketStream)
    → stream.mtu ≡ s.stream.mtu
    → stream.cipher ≡ s.stream.cipher
    → Keeps s (record s { stream = stream })
stream-Keeps s stream m c = record {
  settings = rw (m, c) refl;
  closed = λ h. h;
  none_pending = λ h. h;
}

step-Keeps : (i : Incoming) (s : Session) → Keeps s (step i s).0
unfolding step on_notification on_disconnect close
step-Keeps (notification bytes) s =
    let (m, c, clean) = receive_resets bytes s.stream in
    Keeps-then (stream-Keeps s (receive bytes s.stream).1 m c) (
      on_received-Keeps (receive bytes s.stream).0
        (record s { stream = (receive bytes s.stream).1 }))
step-Keeps link_dropped s = elim (Bool-cases (is_closed s.state)) [
  | inl shut ↦ rw shut (Keeps-same s)
  | inr up ↦ rw up (record { settings = refl; closed = λ h. refl; none_pending = λ h. rw h refl })
]
step-Keeps close_called s = record {
  settings = refl;
  closed = λ h. refl;
  none_pending = λ h. rw h refl;
}

-- Whatever arrives, the cipher, the refs, what was read of the lock and the pacing stay, a closed
-- session stays closed, and no command starts to wait.
pub steps-Keeps : (is : List Incoming) (s : Session) → Keeps s (steps is s).0
unfolding steps
steps-Keeps [] s = Keeps-same s
steps-Keeps (i ∷ is) s = Keeps-then (step-Keeps i s) (steps-Keeps is (step i s).0)
