-- ===== src/Ble/Session/Settled.antt =====
-- What every exchange leaves, and what it never sends.
use onesti_lock.Base.{
  ℕ, false, Result, ok, err, List, [], none, ◌≡◌, inl, inr, refl, ap, ◌∙◌, if◌then◌else◌, ltb,
  Bool-cases,
}
use onesti_lock.Ble.Error.{BleError, session_state}
use onesti_lock.Ble.Command.{CommandPayload, next}
use onesti_lock.Ble.Session.{Session, Effect}
use onesti_lock.Ble.Session.Kept.{steps-Keeps}
use onesti_lock.Ble.Session.Exchange.{
  Course, exchange, exchange_now, framed_wait, frames_of, is_key_exchange, may_frame, stop,
}
use onesti_lock.Ble.Session.Outcome.{paused, exchange_open, concluded_pending}

module _ (c : CommandPayload) (t : Course) where
  exchange_now_pending :
      (s : Session) (effects : List Effect)
      → s.pending ≡ none
      → (exchange_now c t s effects).session.pending ≡ none
  unfolding exchange_now
  exchange_now_pending s effects h = elim (Bool-cases (may_frame c.command_id s.stream.cipher)) [
    | inr bar ↦ rw bar h
    | inl may ↦ rw may (go (frames_of c (next s.refs).0 s))
  ]
    where
      go :
          (frames : Result BleError (List (List ℕ)))
          → (framed_wait frames c.command_id
              (next s.refs).0
              s.refs.static
              t
              (record s { refs = (next s.refs).1 })
              effects).session.pending
            ≡ none
      go (err e) = h
      go (ok frames) = concluded_pending c.command_id s.refs.static t t.write_error _ _

  -- Between exchanges no command is in flight: what starts without one ends without one, whatever
  -- arrives and however the exchange ends.
  pub exchange_pending : (s : Session) → s.pending ≡ none → (exchange c t s).session.pending ≡ none
  unfolding paused
  exchange_pending s h = elim (exchange_open c t s) [
    | inr (e, s', effects, stopped, keeps) ↦
        ap (λ x. x.session.pending) stopped ∙ keeps.none_pending h
    | inl goes ↦
        ap (λ x. x.session.pending) goes
        ∙ exchange_now_pending (paused c t s).0 (paused c t s).1
            ((steps-Keeps (if ltb t.now s.ready_at then t.in_pause else []) s).none_pending h)
  ]

  exchange_now_sealed :
      (s : Session) (effects : List Effect)
      → s.stream.cipher ≡ none
      → is_key_exchange c.command_id ≡ false
      → exchange_now c t s effects ≡ stop session_state s effects
  unfolding exchange_now
  exchange_now_sealed s effects n k =
      let bar : may_frame c.command_id s.stream.cipher ≡ false =
        ap (may_frame c.command_id) n ∙ k in
      rw bar refl

  -- Without a link cipher no command but the key exchange puts a frame on the air: it raises instead.
  pub exchange_sealed :
      (s : Session)
      → s.stream.cipher ≡ none
      → is_key_exchange c.command_id ≡ false
      → ((exchange c t s).frames ≡ []) × ((e : BleError) × ((exchange c t s).outcome ≡ err e))
  unfolding paused
  exchange_sealed s n k = elim (exchange_open c t s) [
    | inr (e, s', effects, stopped, keeps) ↦
        (ap (λ x. x.frames) stopped, (e, ap (λ x. x.outcome) stopped))
    | inl goes ↦
        let still : (paused c t s).0.stream.cipher ≡ s.stream.cipher =
          ap (λ x. x.cipher)
            (steps-Keeps (if ltb t.now s.ready_at then t.in_pause else []) s).settings in
        let refused = goes ∙ exchange_now_sealed (paused c t s).0 (paused c t s).1 (still ∙ n) k in
        (ap (λ x. x.frames) refused, (session_state, ap (λ x. x.outcome) refused))
  ]
