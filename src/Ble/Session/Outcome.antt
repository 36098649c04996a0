-- ===== src/Ble/Session/Outcome.antt =====
-- How an exchange ends.
use onesti_lock.Base.{
  ℕ, Bool, true, false, Result, ok, err, List, [], Option, none, some, ◌≡◌, ◌⊎◌, inl, inr, refl, ap,
  sym, ◌∙◌, arith, if◌then◌else◌, ltb, Bool-cases,
}
use onesti_lock.Ble.Error.{BleError}
use onesti_lock.Ble.Const.CommandId.{CommandId}
use onesti_lock.Ble.Command.{CommandPayload, next}
use onesti_lock.Ble.Response.{Response, is_event, status_number}
use onesti_lock.Ble.Response.Status.{raise_for_status_cases}
use onesti_lock.Ble.Session.{Session, Future, waiting, answered, failed, Effect, steps, is_expected}
use onesti_lock.Ble.Session.Answers.{Awaits, steps-Awaits}
use onesti_lock.Ble.Session.Kept.{Keeps, Keeps-same, steps-Keeps}
use onesti_lock.Ble.Session.Exchange.{
  Course, exchange, exchange_now, checked, concluded, wait, framed_wait, frames_of, future_of,
  may_frame, is_open, stop, not_connected,
}

checked_ok :
    (c : CommandId) (r r' : Response)
    → checked c r ≡ ok r'
    → (r' ≡ r) × (status_number r ≡ 0) × (is_expected c r ≡ true)
unfolding checked
checked_ok c r r' e = elim (raise_for_status_cases r) [
  | inl (zero_status, passed) ↦ ground (arith)
  | inr (bad, (o, raised)) ↦ ground arith
]

module _ (c : CommandId) (static : Bool) (t : Course) where
  concluded_ok :
      (we : Option BleError) (future : Future) (s : Session) (r : Response)
      → (concluded c static t we future s).0 ≡ ok r
      → (future ≡ answered r) × (status_number r ≡ 0) × (is_expected c r ≡ true)
  concluded_ok (some e) future s r h = cc h
  concluded_ok none (answered q) s r h =
      let (same, status, expected) = checked_ok c q r h in
      (ap answered (sym same), ap status_number same ∙ status, ap (is_expected c) same ∙ expected)
  concluded_ok none (failed e) s r h = cc h
  concluded_ok none waiting s r h = cc h

  pub concluded_pending :
      (we : Option BleError) (future : Future) (s : Session)
      → (concluded c static t we future s).1.pending ≡ none
  concluded_pending (some e) future s = refl
  concluded_pending none (answered q) s = refl
  concluded_pending none (failed e) s = refl
  concluded_pending none waiting s = refl

  wait_ok :
      (command_ref : ℕ) (frames : List (List ℕ)) (s : Session) (effects : List Effect)
      (r : Response)
      → (wait c command_ref static frames t s effects).outcome ≡ ok r
      → (status_number r ≡ 0)
        × (is_expected c r ≡ true)
        × (is_event r ≡ false)
        × (r.command_ref ≡ command_ref)
  wait_ok command_ref frames s effects r h =
      let s1 : Session = record s {
        pending = some (record {
          command_id = c;
          command_ref = command_ref;
          static_ref = static;
          future = waiting;
        });
        dropped = none;
      } in
      let s2 : Session = (steps t.in_wait s1).0 in
      let begins : Awaits c command_ref static s1 = (waiting, refl, tt) in
      let (holds, status, expected) = concluded_ok t.write_error (future_of s2.pending) s2 r h in
      go s2 (steps-Awaits c command_ref static t.in_wait s1 begins) holds status expected
    where
      go :
          (s2 : Session)
          → Awaits c command_ref static s2
          → future_of s2.pending ≡ answered r
          → status_number r ≡ 0
          → is_expected c r ≡ true
          → (status_number r ≡ 0)
            × (is_expected c r ≡ true)
            × (is_event r ≡ false)
            × (r.command_ref ≡ command_ref)
      go s2 (answered q, p, (plain, same, fits)) holds status expected =
          let e : q ≡ r = cc (holds, ap future_of p) in
          (status, expected, ap is_event (sym e) ∙ plain, ap (λ x. x.command_ref) (sym e) ∙ same)
      go s2 (waiting, p, f) holds status expected = cc (holds, ap future_of p)
      go s2 (failed x, p, f) holds status expected = cc (holds, ap future_of p)

module _ (c : CommandPayload) (t : Course) where
  exchange_now_ok :
      (s : Session) (effects : List Effect) (r : Response)
      → (exchange_now c t s effects).outcome ≡ ok r
      → (status_number r ≡ 0)
        × (is_expected c.command_id r ≡ true)
        × (is_event r ≡ false)
        × (r.command_ref ≡ (next s.refs).0)
  unfolding exchange_now
  exchange_now_ok s effects r = elim (Bool-cases (may_frame c.command_id s.stream.cipher)) [
    | inr bar ↦ rw bar (λ h. cc h)
    | inl may ↦ rw may (go (frames_of c (next s.refs).0 s))
  ]
    where
      go :
          (frames : Result BleError (List (List ℕ)))
          → (framed_wait frames c.command_id
              (next s.refs).0
              s.refs.static
              t
              (record s { refs = (next s.refs).1 })
              effects).outcome
            ≡ ok r
          → (status_number r ≡ 0)
            × (is_expected c.command_id r ≡ true)
            × (is_event r ≡ false)
            × (r.command_ref ≡ (next s.refs).0)
      go (err e) h = cc h
      go (ok frames) h =
          wait_ok c.command_id s.refs.static t (next s.refs).0 frames
            (record s { refs = (next s.refs).1 }) effects r h

  -- Before the exchange proper: what arrived in the pause.
  unfoldable pub paused : Session → Session × List Effect
  paused s = steps (if ltb t.now s.ready_at then t.in_pause else []) s

  pub exchange_open :
      (s : Session)
      → (exchange c t s ≡ exchange_now c t (paused s).0 (paused s).1)
        ⊎ ((e : BleError) × (s' : Session) × (effects : List Effect) × (exchange c t s
              ≡ stop e s' effects)
            × Keeps s s')
  unfolding exchange paused
  exchange_open s = elim (Bool-cases (is_open s.state)) [
    | inr shut ↦ rw shut (inr (not_connected s.state, s, [], refl, Keeps-same s))
    | inl up ↦ elim (Bool-cases (is_open (paused s).0.state)) [
      | inl still ↦ rw (up, still) (inl refl)
      | inr lost ↦
          rw (up, lost)
            (inr (
              not_connected (paused s).0.state,
              (paused s).0,
              (paused s).1,
              refl,
              steps-Keeps (if ltb t.now s.ready_at then t.in_pause else []) s,
            ))
    ]
  ]

  paused_refs : (s : Session) → (paused s).0.refs ≡ s.refs
  unfolding paused
  paused_refs s =
      ap (λ x. x.refs) (steps-Keeps (if ltb t.now s.ready_at then t.in_pause else []) s).settings

  -- An exchange returns only a response with status 0 and the id that the command expects, which
  -- is no event and carries the ref that the counter had for the command.
  pub exchange_ok :
      (s : Session) (r : Response)
      → (exchange c t s).outcome ≡ ok r
      → (status_number r ≡ 0)
        × (is_expected c.command_id r ≡ true)
        × (is_event r ≡ false)
        × (r.command_ref ≡ (next s.refs).0)
  exchange_ok s r h = elim (exchange_open s) [
    | inr (e, s', effects, stopped, keeps) ↦ cc (h, ap (λ x. x.outcome) stopped)
    | inl goes ↦
        let (status, expected, plain, same) =
          exchange_now_ok (paused s).0 (paused s).1 r (sym (ap (λ x. x.outcome) goes) ∙ h) in
        (status, expected, plain, same ∙ ap (λ x. (next x).0) (paused_refs s))
  ]
