-- ===== src/Ble/Session/SameLink.antt =====
-- What an exchange keeps of the link.
use onesti_lock.Base.{
  ℕ, Bool, Result, ok, err, List, [], Option, none, some, ◌≡◌, inl, inr, ap, ◌∙◌, if◌then◌else◌,
  ltb, Bool-cases,
}
use onesti_lock.Ble.Error.{BleError}
use onesti_lock.Ble.Command.{CommandPayload, next}
use onesti_lock.Ble.Session.{Session, Future, waiting, answered, failed, Effect, steps}
use onesti_lock.Ble.Session.Kept.{Keeps, steps-Keeps}
use onesti_lock.Ble.Session.Exchange.{
  Course, exchange, exchange_now, concluded, framed_wait, frames_of, future_of, may_frame,
}
use onesti_lock.Ble.Session.Outcome.{paused, exchange_open}

-- The firmware, the model, the cipher and the link keys are not an exchange's to change.
abbrev pub SameLink : Session → Session → Type 0
SameLink s s' =
    (s'.firmware ≡ s.firmware)
    × (s'.model ≡ s.model)
    × (s'.stream.cipher ≡ s.stream.cipher)
    × (s'.link_keys ≡ s.link_keys)

same_link : {s s' : Session} → Keeps s s' → SameLink s s'
same_link h = (
  ap (λ x. x.firmware) h.settings,
  ap (λ x. x.model) h.settings,
  ap (λ x. x.cipher) h.settings,
  ap (λ x. x.link_keys) h.settings,
)

module _ (c : CommandPayload) (t : Course) where
  concluded_link :
      (static : Bool) (we : Option BleError) (future : Future) (s0 s : Session)
      → SameLink s0 s
      → SameLink s0 (concluded c.command_id static t we future s).1
  concluded_link static (some e) future s0 s h = h
  concluded_link static none (answered r) s0 s h = h
  concluded_link static none (failed e) s0 s h = h
  concluded_link static none waiting s0 s h = h

  exchange_now_link :
      (s0 s : Session) (effects : List Effect)
      → SameLink s0 s
      → SameLink s0 (exchange_now c t s effects).session
  unfolding exchange_now
  exchange_now_link s0 s effects h = elim (Bool-cases (may_frame c.command_id s.stream.cipher)) [
    | inr bar ↦ rw bar h
    | inl may ↦ rw may (go (frames_of c (next s.refs).0 s))
  ]
    where
      go :
          (frames : Result BleError (List (List ℕ)))
          → SameLink s0
              (framed_wait frames c.command_id
                (next s.refs).0
                s.refs.static
                t
                (record s { refs = (next s.refs).1 })
                effects).session
      go (err e) = h
      go (ok frames) =
          let s1 : Session = record s {
            refs = (next s.refs).1;
            pending = some (record {
              command_id = c.command_id;
              command_ref = (next s.refs).0;
              static_ref = s.refs.static;
              future = waiting;
            });
            dropped = none;
          } in
          let (f, m, p, k) = same_link (steps-Keeps t.in_wait s1) in
          concluded_link s.refs.static t.write_error (future_of (steps t.in_wait s1).0.pending) s0
            (steps t.in_wait s1).0 (f ∙ h.0, m ∙ h.1, p ∙ h.2, k ∙ h.3)

  pub exchange_link : (s : Session) → SameLink s (exchange c t s).session
  unfolding paused
  exchange_link s = elim (exchange_open c t s) [
    | inr (e, s', effects, stopped, keeps) ↦
        let (f, m, p, k) = same_link keeps in
        (
          ap (λ x. x.session.firmware) stopped ∙ f,
          ap (λ x. x.session.model) stopped ∙ m,
          ap (λ x. x.session.stream.cipher) stopped ∙ p,
          ap (λ x. x.session.link_keys) stopped ∙ k,
        )
    | inl goes ↦
        let (f, m, p, k) =
          exchange_now_link s (paused c t s).0 (paused c t s).1
            (same_link (steps-Keeps (if ltb t.now s.ready_at then t.in_pause else []) s)) in
        (
          ap (λ x. x.session.firmware) goes ∙ f,
          ap (λ x. x.session.model) goes ∙ m,
          ap (λ x. x.session.stream.cipher) goes ∙ p,
          ap (λ x. x.session.link_keys) goes ∙ k,
        )
  ]
