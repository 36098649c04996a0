-- ===== src/Ble/Session/Heard.antt =====
-- What the frames of one payload do to a session.
use mathlib.Core.List.{append-nil}
use onesti_lock.Base.{ℕ, Bool, Result, ok, err, List, [], ◌∷◌, ◌++◌, map, ◌≡◌, ap}
use onesti_lock.Ble.Error.{BleError}
use onesti_lock.Ble.Response.{from_bytes}
use onesti_lock.Ble.Stream.{PacketStream, Received, whole, control, nothing, receive}
use onesti_lock.Ble.Stream.Reassembly.{receive_until, report}
use onesti_lock.Ble.Session.{Session, notification, steps, on_received, on_response}

abbrev pub Reassembles : List (List ℕ) → PacketStream → List ℕ → Bool → PacketStream → Type 0
Reassembles frames st plain encrypted stream =
    receive_until frames st ≡ (ok (whole plain encrypted), stream, [])

module _ (plain : List ℕ) (encrypted : Bool) (stream : PacketStream) where
  step-whole :
      (fs : List (List ℕ)) (s : Session)
      → ((s' : Session)
          → Reassembles fs s'.stream plain encrypted stream
          → steps (map notification fs) s'
            ≡ on_response (from_bytes plain) (record s' { stream = stream }))
      → (r : Result BleError Received) (st : PacketStream)
      → report r st fs (receive_until fs st) ≡ (ok (whole plain encrypted), stream, [])
      → (
        (steps (map notification fs) (on_received r (record s { stream = st })).0).0,
        (on_received r (record s { stream = st })).1
            ++ (steps (map notification fs) (on_received r (record s { stream = st })).0).1,
      )
        ≡ on_response (from_bytes plain) (record s { stream = stream })
  unfolding steps
  step-whole fs s rest (err e) st h = cc h
  step-whole fs s rest (ok (control p)) st h = cc h
  step-whole fs s rest (ok nothing) st h = rest (record s { stream = st }) h
  step-whole fs s rest (ok (whole b e)) st h =
      let none_left : fs ≡ [] = ap (λ x. x.2) h in
      let same : st ≡ stream = ap (λ x. x.1) h in
      let bytes : b ≡ plain = cc (ap (λ x. x.0) h) in
      let done = on_response (from_bytes plain) (record s { stream = stream }) in
      rw (none_left, same, bytes) (ap (λ effects. (done.0, effects)) (append-nil done.1))

  -- Frames that a stream reassembles to one payload do to a session what that payload does.
  pub steps-whole :
      (frames : List (List ℕ)) (s : Session)
      → Reassembles frames s.stream plain encrypted stream
      → steps (map notification frames) s
        ≡ on_response (from_bytes plain) (record s { stream = stream })
  unfolding receive_until steps
  steps-whole [] s h = cc h
  steps-whole (f ∷ fs) s h =
      step-whole fs s (λ s' h'. steps-whole fs s' h') (receive f s.stream).0 (receive f s.stream).1
        h
