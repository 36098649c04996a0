-- ===== src/Ble/Session/Answers.antt =====
-- What arrives while a command waits, and what becomes of the command.
use onesti_lock.Base.{
  ℕ, Bool, true, false, not, Result, ok, err, List, [], ◌∷◌, Option, none, some, ◌≡◌, refl, ap,
  arith, ◌==◌, ◌&&◌, Bool-cases, inl, inr, ==_iff,
}
use onesti_lock.Ble.Error.{BleError, protocol, disconnected}
use onesti_lock.Ble.Const.CommandId.{CommandId}
use onesti_lock.Ble.Response.{Response, is_event, from_bytes}
use onesti_lock.Ble.Stream.{Received, whole, control, nothing, receive, reset}
use onesti_lock.Ble.Responses.{LockEvent, parse_event}
use onesti_lock.Ble.Session.{
  Session, Pending, Future, waiting, answered, failed, Incoming, notification, link_dropped,
  close_called, step, steps, on_notification, on_received, on_response, on_disconnect, close,
  is_expected, is_closed, closed, answer, answer_pending, drop_notification, dispatched,
  fail_pending,
}

-- The answer that a future holds is no event, carries the ref of the command and, under a static
-- ref, the id that the command expects; a future that failed is the loss of the link.
abbrev pub FutureFits : CommandId → ℕ → Bool → Future → Type 0
FutureFits c command_ref static (answered r) =
    (is_event r ≡ false) × (r.command_ref ≡ command_ref) × (static ≡ true → is_expected c r ≡ true)
FutureFits c command_ref static (failed e) = e ≡ disconnected
FutureFits c command_ref static waiting = Unit

module _ (c : CommandId) (command_ref : ℕ) (static : Bool) where
  abbrev pub awaited : Future → Pending
  awaited future = record {
    command_id = c;
    command_ref = command_ref;
    static_ref = static;
    future = future;
  }

  -- The session waits for this command, or holds what became of it.
  abbrev pub Awaits : Session → Type 0
  Awaits s =
      (future : Future) × (s.pending ≡ some (awaited future))
      × FutureFits c command_ref static future

  answer-Awaits :
      (r : Response) (future : Future) (s : Session)
      → is_event r ≡ false
      → s.pending ≡ some (awaited future)
      → FutureFits c command_ref static future
      → Awaits (answer r (awaited future) s)
  answer-Awaits r (answered q) s e p f = (answered q, p, f)
  answer-Awaits r (failed x) s e p f = (failed x, p, f)
  answer-Awaits r waiting s e p f = elim (Bool-cases (r.command_ref == command_ref)) [
    | inr other ↦ (waiting, rw other p, tt)
    | inl same ↦ elim (Bool-cases (static && not (is_expected c r))) [
      | inl late ↦ (waiting, rw (same, late) p, tt)
      | inr fits ↦ (answered r, rw (same, fits) refl, (e, (==_iff _ _).0 same, λ st. ground arith))
    ]
  ]

  drop_notification-Awaits :
      (e : BleError) (s : Session) → Awaits s → Awaits (drop_notification e s).0
  drop_notification-Awaits protocol s h = h
  drop_notification-Awaits _ s h = h

  dispatched-Awaits :
      (r : Result BleError (Option LockEvent)) (s : Session) → Awaits s → Awaits (dispatched r s).0
  dispatched-Awaits (err e) s h = drop_notification-Awaits e s h
  dispatched-Awaits (ok none) s h = h
  dispatched-Awaits (ok (some e)) s h = h

  on_response-Awaits :
      (r : Result BleError Response) (s : Session) → Awaits s → Awaits (on_response r s).0
  on_response-Awaits (err e) s h = drop_notification-Awaits e s h
  on_response-Awaits (ok r) s (future, p, f) = elim (Bool-cases (is_event r)) [
    | inl event ↦ rw event (dispatched-Awaits (parse_event r) s (future, p, f))
    | inr plain ↦ rw (plain, ap (λ o. answer_pending r o s) p) (answer-Awaits r future s plain p f)
  ]

  on_received-Awaits :
      (r : Result BleError Received) (s : Session) → Awaits s → Awaits (on_received r s).0
  on_received-Awaits (err e) s h = drop_notification-Awaits e s h
  on_received-Awaits (ok nothing) s h = h
  on_received-Awaits (ok (control p)) s h = h
  on_received-Awaits (ok (whole bytes encrypted)) s h = on_response-Awaits (from_bytes bytes) s h

  fail_pending-Awaits : (s : Session) → Awaits s → Awaits (fail_pending s)
  fail_pending-Awaits s (waiting, p, f) = (failed disconnected, rw p refl, refl)
  fail_pending-Awaits s (answered r, p, f) = (answered r, rw p refl, f)
  fail_pending-Awaits s (failed e, p, f) = (failed e, rw p refl, f)

  step-Awaits : (i : Incoming) (s : Session) → Awaits s → Awaits (step i s).0
  unfolding step on_notification on_disconnect close
  step-Awaits (notification bytes) s h =
      on_received-Awaits (receive bytes s.stream).0
        (record s { stream = (receive bytes s.stream).1 }) h
  step-Awaits link_dropped s h = elim (Bool-cases (is_closed s.state)) [
    | inl shut ↦ rw shut h
    | inr up ↦ rw up (fail_pending-Awaits (record s { state = closed; stream = reset s.stream }) h)
  ]
  step-Awaits close_called s h = fail_pending-Awaits (record s { state = closed }) h

  -- Whatever arrives, the command in flight stays the one it was, and what completes it is an
  -- answer to it or the loss of the link.
  pub steps-Awaits : (is : List Incoming) (s : Session) → Awaits s → Awaits (steps is s).0
  unfolding steps
  steps-Awaits [] s h = h
  steps-Awaits (i ∷ is) s h = steps-Awaits is (step i s).0 (step-Awaits i s h)
