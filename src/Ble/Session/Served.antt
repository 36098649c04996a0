-- ===== src/Ble/Session/Served.antt =====
-- A command that the lock answers: the whole way there and back.
use onesti_lock.Base.{
  ℕ, ◌+◌, ◌≤◌, Bool, true, false, ok, ◌>>=◌, List, [], none, some, map, ◌≡◌, refl, ap, sym, ◌∙◌,
  arith, ltb, length, ==_refl, inl, inr,
}
use onesti_lock.Ble.Const.ResponseId
use onesti_lock.Ble.Const.ResponseStatusId
use onesti_lock.Ble.Command.{CommandPayload, Command, CommandRefCounter, with_ref, next}
use onesti_lock.Ble.Command as Command
use onesti_lock.Ble.Command.RoundTrip.{IsSendable}
use onesti_lock.Ble.Crypto.{CbcLibrary, Aes128Cbc}
use onesti_lock.Ble.Crypto.Sealing.{IsCbc, IsReady}
use onesti_lock.Ble.Link.{encrypter}
use onesti_lock.Ble.Link.Delivery.{command_arrives, response_arrives}
use onesti_lock.Ble.Response.{Response, is_event, status_number, from_bytes}
use onesti_lock.Ble.Response as Response
use onesti_lock.Ble.Response.Status.{raise_for_status_cases}
use onesti_lock.Ble.Response.RoundTrip.{IsWire, IsCanonical}
use onesti_lock.Ble.Stream.{whole, frame_with}
use onesti_lock.Ble.Stream.Reassembly.{receive_until}
use onesti_lock.Ble.Stream.Transfer.{idle}
use onesti_lock.Ble.Session.{
  Session, connected, waiting, answered, notification, on_response, is_expected,
}
use onesti_lock.Ble.Session.Exchange.{
  Course, exchange, exchange_now, checked, wait, frames_of, may_frame,
}
use onesti_lock.Ble.Session.Heard.{Reassembles, steps-whole}

-- A connected session with an idle stream and the link cipher in place.
abbrev pub linked : ℕ → CbcLibrary → Aes128Cbc → Session → Session
linked mtu library c s = record s {
  state = connected;
  stream = idle mtu (some (encrypter library c));
}

-- An exchange that needs no pause, and hears these frames while it waits.
abbrev pub course : ℕ → ℕ → List (List ℕ) → Course
course now ended frames = record {
  now = now;
  ended = ended;
  in_pause = [];
  in_wait = map notification frames;
  write_error = none;
}

module _ (c : CommandPayload) (r : Response) (now ended : ℕ) where
  waiting_for : ℕ → Bool → Session → Session
  waiting_for command_ref static s = record s {
    pending = some (record {
      command_id = c.command_id;
      command_ref = command_ref;
      static_ref = static;
      future = waiting;
    });
    dropped = none;
  }

  on_response-answers :
      (s : Session) (plain : List ℕ) (command_ref : ℕ) (static : Bool)
      → from_bytes plain ≡ ok r
      → is_event r ≡ false
      → r.command_ref ≡ command_ref
      → is_expected c.command_id r ≡ true
      → (on_response (from_bytes plain) (waiting_for command_ref static s)).0
        ≡ record (waiting_for command_ref static s) {
          pending = some (record {
            command_id = c.command_id;
            command_ref = command_ref;
            static_ref = static;
            future = answered r;
          });
        }
  unfolding waiting_for
  on_response-answers s plain command_ref true parses plain_answer same expected =
      rw (parses, plain_answer, expected, same, ==_refl command_ref) refl
  on_response-answers s plain command_ref false parses plain_answer same expected =
      rw (parses, plain_answer, same, ==_refl command_ref) refl

  wait-answered :
      (s : Session) (frames answer : List (List ℕ)) (plain : List ℕ) (command_ref : ℕ)
      (static : Bool)
      → Reassembles answer s.stream plain true s.stream
      → from_bytes plain ≡ ok r
      → is_event r ≡ false
      → r.command_ref ≡ command_ref
      → checked c.command_id r ≡ ok r
      → is_expected c.command_id r ≡ true
      → ((wait c.command_id command_ref static frames (course now ended answer) s []).outcome
          ≡ ok r)
        × ((wait c.command_id command_ref static frames (course now ended answer) s []).frames
            ≡ frames)
        × ((wait c.command_id command_ref static frames
              (course now ended answer)
              s
              []).session.ready_at
            ≡ ended + s.command_delay)
  unfolding waiting_for
  wait-answered s frames answer plain command_ref static arrives parses plain_answer same passes
        expected =
      let heard =
        steps-whole plain true s.stream answer (waiting_for command_ref static s) arrives in
      let done =
        ap (λ x. x.0) heard
        ∙ on_response-answers s plain command_ref static parses plain_answer same expected in
      rw done (passes, refl, refl)

  exchange_now-answered :
      (s : Session) (frames answer : List (List ℕ)) (plain : List ℕ)
      → may_frame c.command_id s.stream.cipher ≡ true
      → frames_of c (next s.refs).0 s ≡ ok frames
      → Reassembles answer s.stream plain true s.stream
      → from_bytes plain ≡ ok r
      → is_event r ≡ false
      → r.command_ref ≡ (next s.refs).0
      → checked c.command_id r ≡ ok r
      → is_expected c.command_id r ≡ true
      → ((exchange_now c (course now ended answer) s []).outcome ≡ ok r)
        × ((exchange_now c (course now ended answer) s []).frames ≡ frames)
        × ((exchange_now c (course now ended answer) s []).session.ready_at
            ≡ ended + s.command_delay)
  unfolding exchange_now
  exchange_now-answered s frames answer plain has sends arrives parses plain_answer same passes
        expected =
      rw (has, sends)
        (wait-answered (record s { refs = (next s.refs).1 }) frames answer plain (next s.refs).0
          s.refs.static arrives parses plain_answer same passes expected)

exchange-open :
    (mtu : ℕ) (library : CbcLibrary) (k : Aes128Cbc) (c : CommandPayload) (s : Session)
    (now ended : ℕ) (answer : List (List ℕ))
    → s.ready_at ≤ now
    → exchange c (course now ended answer) (linked mtu library k s)
      ≡ exchange_now c (course now ended answer) (linked mtu library k s) []
unfolding exchange
exchange-open mtu library k c s now ended answer h =
    let rested : ltb now s.ready_at ≡ false = ground arith in rw rested refl

checked-passes :
    (c : CommandPayload) (r : Response)
    → status_number r ≡ 0
    → is_expected c.command_id r ≡ true
    → checked c.command_id r ≡ ok r
unfolding checked
checked-passes c r status expected = elim (raise_for_status_cases r) [
  | inl (zero_status, passed) ↦ rw (passed, expected) refl
  | inr (bad, raised) ↦ absurd (bad status)
]

-- On a connected session with the link keys in place and an MTU of at least 12, a command with a
-- payload of at most 255 bytes is sent in frames that an idle lock with the same keys reassembles,
-- decrypts and parses to the command under the counter's ref. A successful response under that ref,
-- with the id that the command expects and fields that fit their bytes, can be framed by the lock,
-- and an exchange that hears those frames returns exactly that response and holds the next command
-- back for the command delay.
pub exchange_served :
    (library : CbcLibrary)
    → IsCbc library
    → (k : Aes128Cbc) → IsReady k
    → (mtu lock_mtu : ℕ) (c : CommandPayload) (r : Response) (s : Session) (now ended : ℕ)
    → 12 ≤ mtu
    → 12 ≤ lock_mtu
    → length c.bytes ≤ 255
    → 1 ≤ r.command_ref
    → r.command_ref ≤ 127
    → r.command_ref ≡ (next s.refs).0
    → status_number r ≡ 0
    → is_expected c.command_id r ≡ true
    → IsWire r
    → IsCanonical ResponseId.of_value r.response_id
    → IsCanonical ResponseStatusId.of_value r.status
    → s.ready_at ≤ now
    → (answer : List (List ℕ)) × (plain : List ℕ) × ((Response.to_bytes r >>= λ bytes.
          frame_with lock_mtu (some (encrypter library k)) bytes)
        ≡ ok answer)
      × (receive_until
            (exchange c (course now ended answer) (linked mtu library k s)).frames
            (idle lock_mtu (some (encrypter library k)))
          ≡ (ok (whole plain true), idle lock_mtu (some (encrypter library k)), []))
      × (Command.from_bytes plain ≡ ok (with_ref c r.command_ref))
      × ((exchange c (course now ended answer) (linked mtu library k s)).outcome ≡ ok r)
      × ((exchange c (course now ended answer) (linked mtu library k s)).session.ready_at
          ≡ ended + s.command_delay)
exchange_served library law k ready mtu lock_mtu c r s now ended enough lock_enough short low high
      same status expected wire id_canonical status_canonical rested =
    let sendable : IsSendable (with_ref c r.command_ref) = record {
      payload = short;
      ref_low = low;
      ref_high = omega arith;
      rfu = omega arith;
    } in
    let (frames, plain, sent, received, parsed) =
      command_arrives library law k ready mtu lock_mtu (with_ref c r.command_ref) enough sendable in
    let (answer, answer_plain, answer_sent, answer_received, answer_parsed) =
      response_arrives library law k ready lock_mtu mtu r lock_enough wire id_canonical
        status_canonical in
    let framed : frames_of c (next s.refs).0 (linked mtu library k s) ≡ ok frames =
      ap (λ ref. frames_of c ref (linked mtu library k s)) (sym same) ∙ unfold frames_of in sent in
    let plain_answer : is_event r ≡ false = unfold is_event in ground arith in
    let (outcome, written, pace) =
      exchange_now-answered c r now ended (linked mtu library k s) frames answer answer_plain refl
        framed answer_received answer_parsed plain_answer same (checked-passes c r status expected)
        expected in
    let goes = exchange-open mtu library k c s now ended answer rested in
    (
      answer,
      plain,
      answer_sent,
      ap (λ x. receive_until x (idle lock_mtu (some (encrypter library k))))
            (ap (λ x. x.frames) goes ∙ written)
          ∙ received,
      parsed,
      ap (λ x. x.outcome) goes ∙ outcome,
      ap (λ x. x.session.ready_at) goes ∙ pace,
    )
