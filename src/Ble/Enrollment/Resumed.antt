-- ===== src/Ble/Enrollment/Resumed.antt =====
-- `resume_enrollment` as a whole: progress is never lost, and nothing is done twice.
use mathlib.Core.Path.{subst}
use onesti_lock.Base.{
  ℕ, Bool, true, false, not, ◌&&◌, Result, ok, err, guard, >>=-eq_ok, guard-eq_ok, List, [], ◌∷◌,
  none, some, ◌≡◌, refl, sym, Bool-cases, inl, inr, length, ◌==◌, arith,
}
use onesti_lock.Ble.Error.{BleError, validation}
use onesti_lock.Ble.Auth.{credential}
use onesti_lock.Ble.Commands.{device_name_set}
use onesti_lock.Ble.Crypto.{CbcLibrary, Curve}
use onesti_lock.Ble.Session.{Session}
use onesti_lock.Ble.Enrollment.{
  Step, owner_key, device_id, members, Enrollment, check, check_device_id,
  key_pair_from_private_key, remaining, remaining_of, complete, owner_credential,
}
use onesti_lock.Ble.Enrollment.Remaining.{all_completed_of_remaining}
use onesti_lock.Ble.Enrollment.Kept.{
  IsNext, last_saved, InOrder, Advances, Holds, run_remaining-Kept, completing-Advances,
}
use onesti_lock.Ble.Enrollment.Finished.{OnlyLogins}
use onesti_lock.Ble.Enrollment.Run.{
  Act, logged_in, saved, EnrollmentError, plain, stopped_at, not_saved, Enrolled, World, after,
  is_security, run_remaining, completing, resumed_as, log_in, retried, tried, resume_enrollment,
}

-- What the outcome of a resume tells its caller of the enrollment that `save` last heard of.
abbrev pub ToldBack : Result EnrollmentError Enrollment → Enrollment → List Act → Type 0
ToldBack (ok e) last acts = (e ≡ last) × (complete e ≡ true)
ToldBack (err (plain cause)) last acts = OnlyLogins acts
ToldBack (err (stopped_at step none cause)) last acts = ⊥
ToldBack (err (stopped_at step (some e) cause)) last acts = (e ≡ last) × IsNext step (remaining e)
ToldBack (err (not_saved step e)) last acts = e ≡ last

-- A login before the acts changes nothing of it.
ToldBack-login :
    (o : Result EnrollmentError Enrollment) (last : Enrollment) (frames : List (List ℕ))
    (acts : List Act)
    → ToldBack o last acts
    → ToldBack o last (logged_in frames ∷ acts)
ToldBack-login (ok e) last frames acts h = h
ToldBack-login (err (plain cause)) last frames acts h = h
ToldBack-login (err (stopped_at step none cause)) last frames acts h = h
ToldBack-login (err (stopped_at step (some e) cause)) last frames acts h = h
ToldBack-login (err (not_saved step e)) last frames acts h = h

-- The next step of an enrollment without its device id.
device_id-IsNext :
    (e : Enrollment)
    → e.completed owner_key ≡ true
    → e.completed device_id ≡ false
    → IsNext device_id (remaining e)
unfolding remaining_of
device_id-IsNext e ho hd = rw (ho, hd)

module _ (curve : Curve) where
  pub check-owner_key : (e : Enrollment) → check curve e ≡ ok tt → e.completed owner_key ≡ true
  unfolding check
  check-owner_key e h =
      let (u, hi, r0) = >>=-eq_ok (check_device_id e.device_id) _ h in
      let (u1, hk, r1) = >>=-eq_ok (guard (length e.owner_key == 16) validation) _ r0 in
      let (p, hp, r2) = >>=-eq_ok (key_pair_from_private_key curve e.server_private_key) _ r1 in
      let (c, hn, r3) = >>=-eq_ok (device_name_set e.name) _ r2 in
      let (u2, hc, r4) = >>=-eq_ok (guard (e.completed owner_key) validation) _ r3 in
      guard-eq_ok (e.completed owner_key) validation hc

  ToldBack-Holds :
      (o : Result EnrollmentError Enrollment) (last : Enrollment) (acts : List Act)
      → Holds curve o last
      → ToldBack o last acts
  ToldBack-Holds (ok e) last acts h = (
    h.0,
    subst (λ x. complete x ≡ true) (sym h.0)
        (all_completed_of_remaining last.completed members h.1),
  )
  ToldBack-Holds (err (plain cause)) last acts h = absurd h
  ToldBack-Holds (err (stopped_at step none cause)) last acts h = absurd h
  ToldBack-Holds (err (stopped_at step (some e) cause)) last acts h =
      (h.0, subst (λ x. IsNext step (remaining x)) (sym h.0) h.1)
  ToldBack-Holds (err (not_saved step e)) last acts h = h

  abbrev pub Resumes : Enrollment → Enrolled → Type 0
  Resumes e x = ToldBack x.outcome (last_saved e x.acts) x.acts × InOrder curve e x.acts

  after_login :
      (e : Enrollment) (frames : List (List ℕ)) (x : Enrolled)
      → Resumes e x
      → Resumes e (after (logged_in frames ∷ []) x)
  after_login e frames x h = (ToldBack-login x.outcome (last_saved e x.acts) frames x.acts h.0, h.1)

  run_remaining-Resumes :
      (w : World) (e : Enrollment) (s : Session)
      → Resumes e (run_remaining curve (remaining e) w e s)
  run_remaining-Resumes w e s =
      let x = run_remaining curve (remaining e) w e s in
      let (holds, order) = run_remaining-Kept curve (remaining e) w e s refl in
      (ToldBack-Holds x.outcome (last_saved e x.acts) x.acts holds, order)

  module _ (w : World) (e : Enrollment) (checked : check curve e ≡ ok tt)
      (open_id : e.completed device_id ≡ false) where
    resumed_as-Resumes :
        (r : Result BleError Enrollment)
        → completing curve device_id e ≡ r
        → (s : Session) → Resumes e (resumed_as curve r w s)
    resumed_as-Resumes (err x) h s = (tt, tt)
    resumed_as-Resumes (ok e') h s = saves (w.save_returns device_id) refl
      where
        next : (step : Step) × IsNext step (remaining e) × Advances curve step e e'
        next = (
          device_id,
          device_id-IsNext e (check-owner_key e checked) open_id,
          completing-Advances curve device_id e e' h,
        )

        saves : (b : Bool) → w.save_returns device_id ≡ b → Resumes e (resumed_as curve (ok e') w s)
        saves false hb = rw hb (refl, (next, tt))
        saves true hb =
            let x = run_remaining curve (remaining e') w e' s in
            let (holds, order) = run_remaining-Kept curve (remaining e') w e' s refl in
            rw hb (
              ToldBack-Holds x.outcome (last_saved e' x.acts) (saved e' ∷ x.acts) holds,
              (next, order),
            )

    retried-Resumes :
        (library : CbcLibrary) (r : Result BleError (Unit {0})) (s : Session)
        → Resumes e (retried curve library w e r s)
    retried-Resumes library (err x) s = (tt, tt)
    retried-Resumes library (ok u) s = resumed_as-Resumes (completing curve device_id e) refl s

  module _ (library : CbcLibrary) (w : World) (e : Enrollment)
      (checked : check curve e ≡ ok tt) where
    tried-Resumes :
        (r : Result BleError (Unit {0})) (s : Session) → Resumes e (tried curve library w e r s)
    tried-Resumes (ok u) s = run_remaining-Resumes w e s
    tried-Resumes (err cause) s =
        elim (Bool-cases (is_security cause && not (e.completed device_id))) [
          | inr no_retry ↦ rw no_retry (tt, tt)
          | inl refused ↦ rw refused (
              let x =
                log_in curve library (credential e.user_id e.device_id e.owner_key) w.retry_begin
                  w.retry_finalize s in
              after_login e x.frames (retried curve library w e x.outcome x.session)
                (retried-Resumes w e checked (not_completed refused) library x.outcome x.session))
        ]
      where
        not_completed :
            (is_security cause && not (e.completed device_id)) ≡ true
            → e.completed device_id ≡ false
        not_completed h = ground arith

    -- A resume of a valid enrollment never loses a step that the lock confirmed, whatever the lock
    -- answers and wherever `save` raises. If it returns, every step is completed and the enrollment
    -- returned is the one saved last; if a step fails, the error carries the enrollment saved last
    -- and its next step; if `save` raised, the error carries what it was called with; any other
    -- error is of a login, with nothing else sent. Only the steps that were missing are sent, in
    -- their order, each once everything before it has been handed to `save`.
    pub resume_kept : (s : Session) → Resumes e (resume_enrollment curve library w e s)
    unfolding resume_enrollment
    resume_kept s = elim (Bool-cases (complete e)) [
      | inl done ↦ rw done ((refl, done), tt)
      | inr open_steps ↦ rw open_steps (
          let x = log_in curve library (owner_credential e) w.login_begin w.login_finalize s in
          after_login e x.frames (tried curve library w e x.outcome x.session)
            (tried-Resumes x.outcome x.session))
    ]
