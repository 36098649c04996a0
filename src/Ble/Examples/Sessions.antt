-- ===== src/Ble/Examples/Sessions.antt =====
-- Examples of the session and the link.
use onesti_lock.Base.{
  [], ℕ, ◌+◌, true, false, ok, err, ◌>>=◌, List, ◌∷◌, none, some, ◌≡◌, refl, arith, inl, ◌⊎◌,
  replicate,
}
use onesti_lock.Ble.Const.CommandId
use onesti_lock.Ble.Const.ResponseId
use onesti_lock.Ble.Const.ResponseStatusId
use onesti_lock.Ble.Command as Command
use onesti_lock.Ble.Command.{with_ref, next}
use onesti_lock.Ble.Response as Response
use onesti_lock.Ble.Response.{status_number, is_event, expected_response_id}
use onesti_lock.Ble.Response.RoundTrip.{IsWire}
use onesti_lock.Ble.Link.{encrypter}
use onesti_lock.Ble.Stream.{whole, frame_with}
use onesti_lock.Ble.Stream.Reassembly.{receive_until}
use onesti_lock.Ble.Stream.Transfer.{idle}
use onesti_lock.Ble.Error.{BleError, disconnected}
use onesti_lock.Ble.Session.{
  Session, is_expected, connecting, connected, closed, step, steps, notification, link_dropped,
}
use onesti_lock.Ble.Session.Exchange.{exchange, send, stop}
use onesti_lock.Ble.Session.Outcome.{exchange_ok}
use onesti_lock.Ble.Session.Settled.{exchange_sealed, exchange_pending}
use onesti_lock.Ble.Session.Closed.{exchange_closed}
use onesti_lock.Ble.Session.Connect.{Handshake, connect}
use onesti_lock.Ble.Session.Connected.{IsLinked, connect_cases}
use onesti_lock.Ble.Link.Delivery.{command_arrives}
use onesti_lock.Ble.Session.Served.{exchange_served, linked, course}
use onesti_lock.Ble.Examples.Setup.{
  reversing, reversing-IsCbc, link, link-IsReady, two_keys, ask, model_answer, new_session,
}

model_answer-IsWire : IsWire model_answer
unfolding ResponseId.value ResponseStatusId.value
model_answer-IsWire = record {
  payload = omega arith;
  id = omega arith;
  ref = omega arith;
  status = omega arith;
}

model_answer_status : status_number model_answer ≡ 0
unfolding ResponseStatusId.value
model_answer_status = refl

model_answer_expected : is_expected ask.command_id model_answer ≡ true
unfolding is_expected expected_response_id CommandId.value ResponseId.value ResponseId.of_value
model_answer_expected = refl

first_ref : 1 ≡ (next new_session.refs).0
unfolding next
first_ref = refl

exchange_served_example :
    (answer : List (List ℕ)) × (plain : List ℕ) × ((Response.to_bytes model_answer >>= λ bytes.
    frame_with 23 (some (encrypter reversing link)) bytes)
      ≡ ok answer)
    × (receive_until
          (exchange ask (course 10 90 answer) (linked 23 reversing link new_session)).frames
          (idle 23 (some (encrypter reversing link)))
        ≡ (ok (whole plain true), idle 23 (some (encrypter reversing link)), []))
    × (Command.from_bytes plain ≡ ok (with_ref ask 1))
    × ((exchange ask (course 10 90 answer) (linked 23 reversing link new_session)).outcome
        ≡ ok model_answer)
    × ((exchange ask (course 10 90 answer) (linked 23 reversing link new_session)).session.ready_at
        ≡ 90 + 320)
exchange_served_example =
    exchange_served reversing reversing-IsCbc link link-IsReady 23 23 ask model_answer new_session
      10 90 (omega arith) (omega arith) (omega arith) (omega arith) (omega arith) first_ref
      model_answer_status model_answer_expected model_answer-IsWire tt tt (omega arith)

command_arrives_example :
    (frames : List (List ℕ)) × (plain : List ℕ) × ((Command.to_bytes (with_ref ask 1) >>= λ bytes.
    frame_with 23 (some (encrypter reversing link)) bytes)
      ≡ ok frames)
    × (receive_until frames (idle 20 (some (encrypter reversing link)))
        ≡ (ok (whole plain true), idle 20 (some (encrypter reversing link)), []))
    × (Command.from_bytes plain ≡ ok (with_ref ask 1))
command_arrives_example =
    command_arrives reversing reversing-IsCbc link link-IsReady 23 20 (with_ref ask 1) (omega arith)
      (record {
        payload = omega arith;
        ref_low = omega arith;
        ref_high = omega arith;
        rfu = omega arith;
      })

-- The frames of the answer, as the lock of the first example sends them.
abbrev answer_frames : List (List ℕ)
answer_frames =
    (exchange_served reversing reversing-IsCbc link link-IsReady 23 23 ask model_answer new_session
      10 90 (omega arith) (omega arith) (omega arith) (omega arith) (omega arith) first_ref
      model_answer_status model_answer_expected model_answer-IsWire tt tt (omega arith)).0

exchange_ok_example :
    (status_number model_answer ≡ 0)
    × (is_expected ask.command_id model_answer ≡ true)
    × (is_event model_answer ≡ false)
    × (model_answer.command_ref ≡ (next new_session.refs).0)
exchange_ok_example =
    exchange_ok ask (course 10 90 answer_frames) (linked 23 reversing link new_session) model_answer
      (exchange_served reversing reversing-IsCbc link link-IsReady 23 23 ask model_answer
        new_session 10 90 (omega arith) (omega arith) (omega arith) (omega arith) (omega arith)
        first_ref model_answer_status model_answer_expected model_answer-IsWire tt tt
        (omega arith)).5

abbrev connecting_session : Session
connecting_session = record new_session { state = connecting }

exchange_sealed_example :
    ((exchange ask (course 10 90 []) connecting_session).frames ≡ [])
    × ((e : BleError) × ((exchange ask (course 10 90 []) connecting_session).outcome ≡ err e))
exchange_sealed_example = exchange_sealed ask (course 10 90 []) connecting_session refl refl

exchange_pending_example :
    (exchange ask (course 10 90 ((1 ∷ 2 ∷ []) ∷ [])) connecting_session).session.pending ≡ none
exchange_pending_example =
    exchange_pending ask (course 10 90 ((1 ∷ 2 ∷ []) ∷ [])) connecting_session refl

exchange_closed_example :
    let s' =
      (steps
        (notification (1 ∷ []) ∷ [])
        (step link_dropped (linked 23 reversing link new_session)).0).0 in
    (exchange ask (course 10 90 []) s' ≡ stop disconnected s' [])
    × (send ask false (course 10 90 []) s' ≡ stop disconnected s' [])
exchange_closed_example =
    exchange_closed ask (course 10 90 []) false (linked 23 reversing link new_session) link_dropped
      (notification (1 ∷ []) ∷ []) (inl refl)

-- A lock with firmware 4.8.2 that answers the key exchange with nothing.
abbrev silent_lock : Handshake
silent_lock = record {
  revision = ok (b'4' ∷ b'.' ∷ b'8' ∷ b'.' ∷ b'2' ∷ []);
  subscribe_error = none;
  key_pair = record { private_key = replicate 32 1; public_key = replicate 64 1 };
  key_course = course 10 90 [];
  model_course = course 10 90 [];
}

connect_cases_example :
    (((connect reversing two_keys silent_lock new_session).0 ≡ ok tt)
      × ((connect reversing two_keys silent_lock new_session).1.state ≡ connected)
      × IsLinked (connect reversing two_keys silent_lock new_session).1)
    ⊎ ((e : BleError) × ((connect reversing two_keys silent_lock new_session).0 ≡ err e)
        × ((connect reversing two_keys silent_lock new_session).1.state ≡ closed))
connect_cases_example = connect_cases reversing two_keys silent_lock new_session refl
