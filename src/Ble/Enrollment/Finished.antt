-- ===== src/Ble/Enrollment/Finished.antt =====
-- `enroll` and `resume_enrollment` as a whole: what their caller holds when they end.
use mathlib.Core.Path.{subst}
use onesti_lock.Base.{
  ℕ, Bool, true, false, Result, ok, err, ◌>>=◌, List, [], ◌∷◌, Option, none, some, ◌≡◌, refl, pos,
  sym, ap,
}
use onesti_lock.Ble.Error.{BleError}
use onesti_lock.Ble.Auth.{default_owner_credential, authenticate_owner}
use onesti_lock.Ble.Command.{CommandPayload}
use onesti_lock.Ble.Commands.{user_auth_update}
use onesti_lock.Ble.Crypto.{CbcLibrary, Curve, derive_owner_key}
use onesti_lock.Ble.Crypto.Exchange.{IsCurve}
use onesti_lock.Ble.Session.{Session}
use onesti_lock.Ble.Session.Exchange.{send}
use onesti_lock.Ble.Enrollment.{
  owner_key, members, only_owner_key, Enrollment, check, remaining, complete,
}
use onesti_lock.Ble.Enrollment.Remaining.{all_completed_of_remaining}
use onesti_lock.Ble.Enrollment.Checked.{first_enrollment-checked}
use onesti_lock.Ble.Enrollment.Kept.{IsNext, last_saved, InOrder, Holds, run_remaining-Kept}
use onesti_lock.Ble.Enrollment.Run.{
  Act, logged_in, sent, saved, EnrollmentError, plain, stopped_at, not_saved, Enrolled, Arguments,
  World, after, run_remaining, first_enrollment, lock_key_of, taken_over, derived, owned,
  update_owner, check_arguments, admitted, begin_enrollment, enroll,
}

-- What `save` was last called with, where it was.
abbrev pub latest : Option Enrollment → List Act → Option Enrollment
latest o [] = o
latest o (logged_in frames ∷ acts) = latest o acts
latest o (sent step frames ∷ acts) = latest o acts
latest o (saved e ∷ acts) = latest (some e) acts

abbrev pub OnlyLogins : List Act → Type 0
OnlyLogins [] = Unit {0}
OnlyLogins (logged_in frames ∷ acts) = OnlyLogins acts
OnlyLogins (sent step frames ∷ acts) = ⊥
OnlyLogins (saved e ∷ acts) = ⊥

-- What the outcome of `enroll` tells its caller, beside what it did.
abbrev pub Told : Result EnrollmentError Enrollment → Option Enrollment → List Act → Type 0
Told (ok e) last acts = (last ≡ some e) × (complete e ≡ true)
Told (err (plain cause)) last acts = OnlyLogins acts
Told (err (stopped_at step none cause)) last acts = (last ≡ none) × (step ≡ owner_key)
Told (err (stopped_at step (some e) cause)) last acts = (last ≡ some e) × IsNext step (remaining e)
Told (err (not_saved step e)) last acts = last ≡ some e

latest-last_saved :
    (e : Enrollment) (acts : List Act) → latest (some e) acts ≡ some (last_saved e acts)
latest-last_saved e [] = refl
latest-last_saved e (logged_in frames ∷ acts) = latest-last_saved e acts
latest-last_saved e (sent step frames ∷ acts) = latest-last_saved e acts
latest-last_saved e (saved e' ∷ acts) = latest-last_saved e' acts

-- The same where it is known that something was sent: no plain error is left.
abbrev ToldOwned : Result EnrollmentError Enrollment → Option Enrollment → Type 0
ToldOwned o last = Told o last (sent owner_key [] ∷ [])

Told-owned :
    (o : Result EnrollmentError Enrollment) (last : Option Enrollment) (acts : List Act)
    → ToldOwned o last
    → Told o last acts
Told-owned (ok e) last acts h = h
Told-owned (err (plain cause)) last acts h = absurd h
Told-owned (err (stopped_at step none cause)) last acts h = h
Told-owned (err (stopped_at step (some e) cause)) last acts h = h
Told-owned (err (not_saved step e)) last acts h = h

module _ (curve : Curve) where
  -- Until a first enrollment is saved nothing is sent but logins and UserAuthUpdate; this enrollment
  -- is valid and has only its first step, and from there on the acts are in order.
  abbrev pub Started : List Act → Type 0
  Started [] = Unit {0}
  Started (logged_in frames ∷ acts) = Started acts
  Started (sent step frames ∷ acts) = (step ≡ owner_key) × Started acts
  Started (saved e ∷ acts) =
      (check curve e ≡ ok tt) × (e.completed ≡ only_owner_key) × InOrder curve e acts

  abbrev pub Enrolls : Enrolled → Type 0
  Enrolls x = Told x.outcome (latest none x.acts) x.acts × Started x.acts

  Told-Holds :
      (o : Result EnrollmentError Enrollment) (last : Enrollment) (acts : List Act)
      → Holds curve o last
      → Told o (some last) acts
  Told-Holds (ok e) last acts h = (
    ap some (sym h.0),
    subst (λ x. complete x ≡ true) (sym h.0)
        (all_completed_of_remaining last.completed members h.1),
  )
  Told-Holds (err (plain cause)) last acts h = absurd h
  Told-Holds (err (stopped_at step none cause)) last acts h = absurd h
  Told-Holds (err (stopped_at step (some e) cause)) last acts h =
      (ap some (sym h.0), subst (λ x. IsNext step (remaining x)) (sym h.0) h.1)
  Told-Holds (err (not_saved step e)) last acts h = ap some (sym h)

  abbrev Owns : Enrolled → Type 0
  Owns x = ToldOwned x.outcome (latest none x.acts) × Started x.acts

  taken_over-Owns :
      (w : World) (s : Session) (e : Enrollment) (c : Result BleError (Unit {0}))
      → check curve e ≡ c
      → c ≡ ok tt
      → e.completed ≡ only_owner_key
      → (b : Bool) → w.save_returns owner_key ≡ b
      → Owns (taken_over curve (c >>= λ _. ok e) w s)
  taken_over-Owns w s e (err x) hc hok hs b hb = absurd (cc)
  taken_over-Owns w s e (ok u) hc hok hs false hb = rw hb (refl, (hc, hs, tt))
  taken_over-Owns w s e (ok u) hc hok hs true hb =
      let (holds, order) = run_remaining-Kept curve (remaining e) w e s refl in
      let x = run_remaining curve (remaining e) w e s in
      rw hb (
        subst (λ l. ToldOwned x.outcome l) (sym (latest-last_saved e x.acts))
            (Told-Holds x.outcome (last_saved e x.acts) (sent owner_key [] ∷ []) holds),
        (hc, hs, order),
      )

  module _ (law : IsCurve curve) (a : Arguments) (w : World)
      (given : check_arguments curve a ≡ ok tt) where
    derived-Owns :
        (key : List ℕ) (d : Result BleError (List ℕ)) (s : Session)
        → derive_owner_key curve a.update_key.private_key key ≡ d
        → Owns (derived curve a w key d s)
    derived-Owns key (err x) s h = ((refl, refl), tt)
    derived-Owns key (ok k) s h =
        taken_over-Owns w s (first_enrollment a key k) (check curve (first_enrollment a key k)) refl
          (first_enrollment-checked curve law a key k given h) refl (w.save_returns owner_key) refl

    owned-Owns : (r : Result BleError (List ℕ)) (s : Session) → Owns (owned curve a w r s)
    owned-Owns (err x) s = ((refl, refl), tt)
    owned-Owns (ok key) s =
        derived-Owns key (derive_owner_key curve a.update_key.private_key key) s refl

    update_owner-Owns :
        (c : Result BleError CommandPayload) (s : Session) → Owns (update_owner curve c a w s)
    update_owner-Owns (err x) s = ((refl, refl), tt)
    update_owner-Owns (ok c) s =
        let x = send c false (w.course owner_key) s in
        let (told, started) = owned-Owns (lock_key_of x.outcome) x.session in
        (told, (refl, started))

    module _ (library : CbcLibrary) where
      admitted-Enrolls :
          (frames : List (List ℕ)) (r : Result BleError (Unit {0})) (s : Session)
          → Enrolls (after (logged_in frames ∷ []) (admitted curve library a w r s))
      admitted-Enrolls frames (err x) s = (tt, tt)
      admitted-Enrolls frames (ok u) s =
          let x =
            update_owner curve (user_auth_update (pos 0) (pos 0) a.update_key.public_key) a w s in
          let (told, started) =
            update_owner-Owns (user_auth_update (pos 0) (pos 0) a.update_key.public_key) s in
          (Told-owned x.outcome (latest none x.acts) (logged_in frames ∷ x.acts) told, started)

  begin-Enrolls :
      IsCurve curve
      → (library : CbcLibrary) (a : Arguments) (w : World) (s : Session)
        (c : Result BleError (Unit {0}))
      → check_arguments curve a ≡ c
      → Enrolls (begin_enrollment curve library a w c s)
  begin-Enrolls law library a w s (err x) h = (tt, tt)
  begin-Enrolls law library a w s (ok u) h =
      let x =
        authenticate_owner library default_owner_credential w.login_begin w.login_finalize s in
      admitted-Enrolls law a w h library x.frames x.outcome x.session

  -- Whatever the lock answers and wherever `save` raises, `enroll` leaves the owner key with its
  -- caller. If it returns, every step is completed and the returned enrollment is the one saved last.
  -- If a step after the owner key fails, the error carries the enrollment saved last and its next
  -- step. If `save` raised, the error carries what it was called with. BleEnrollmentError without an
  -- enrollment is of the owner key step, with nothing saved, and any other error comes before the
  -- owner key was sent. The first enrollment saved is valid; from there on each command is sent only
  -- when everything before it has been handed to `save`.
  pub enroll_kept :
      IsCurve curve
      → (library : CbcLibrary) (a : Arguments) (w : World) (s : Session)
      → Enrolls (enroll curve library a w s)
  unfolding enroll
  enroll_kept law library a w s = begin-Enrolls law library a w s (check_arguments curve a) refl
