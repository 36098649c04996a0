-- ===== src/Ble/Enrollment/Run.antt =====
-- `enroll` and `resume_enrollment`: the steps over a connected session, each saved before the next.
use onesti_lock.Base.{
  ℕ, pos, Bool, true, false, Result, ok, err, ◌>>=◌, ◌>>◌, List, [], ◌∷◌, ◌++◌, Option, none, some,
  if◌then◌else◌, not, ◌&&◌,
}
use onesti_lock.Ble.Error.{BleError, OperationError}
use onesti_lock.Ble.Auth.{
  OwnerCredential, Login, credential, default_owner_credential, authenticate_owner,
}
use onesti_lock.Ble.Command.{CommandPayload}
use onesti_lock.Ble.Commands.{
  Moment, to_lock_time, current_time_set, device_id_set, device_name_set, server_key_update,
  user_auth_update,
}
use onesti_lock.Ble.Crypto.{CbcLibrary, Curve, KeyPair, derive_owner_key}
use onesti_lock.Ble.Response.{Response}
use onesti_lock.Ble.Responses.{parse_user_auth_update, parse_server_key_update}
use onesti_lock.Ble.Session.{Session}
use onesti_lock.Ble.Session.Exchange.{Course, send}
use onesti_lock.Ble.Enrollment.{
  Step, owner_key, device_id, clock, server_key, with_step, only_owner_key, Enrollment, check,
  remaining_of, all_completed, check_device_id, key_pair_from_private_key, made, server_public_key,
  remaining, complete, owner_credential,
}

-- What leaves the process, in its order: the frames of a login or of a step, and a call of `save`.
pub data Act : Type 0 where
  logged_in : List (List ℕ) → Act
  sent : Step → List (List ℕ) → Act
  saved : Enrollment → Act

-- How an enrollment fails: an error of the session or of an argument, BleEnrollmentError with its
-- cause, or BleEnrollmentNotSavedError.
pub data EnrollmentError : Type 0 where
  plain : BleError → EnrollmentError
  stopped_at : Step → Option Enrollment → BleError → EnrollmentError
  not_saved : Step → Enrollment → EnrollmentError

pub record Enrolled : Type 0 where
  pub outcome : Result EnrollmentError Enrollment
  pub acts : List Act
  pub session : Session

-- What `enroll` is called with, after its defaults: an id of `new_device_id` where none is given,
-- and the two key pairs that its factory makes.
pub record Arguments : Type 0 where
  pub name : List ℕ
  pub device_id : List ℕ
  pub server_private_key : List ℕ
  pub update_key : KeyPair

-- What the world does: the courses of the exchanges, and whether `save` returns after each step.
-- A login has two exchanges; a refused one may be tried once more.
pub record World : Type 0 where
  pub login_begin : Course
  pub login_finalize : Course
  pub retry_begin : Course
  pub retry_finalize : Course
  pub course : Step → Course
  pub save_returns : Step → Bool
  pub now : Moment

pub record StepEnd : Type 0 where
  pub outcome : Result BleError Enrollment
  pub frames : List (List ℕ)
  pub session : Session

-- `SECURITY_ERROR` and its class: BleSecurityError.
abbrev pub is_security : BleError → Bool
is_security (BleError.operation OperationError.security) = true
is_security _ = false

-- The acts before those of what follows.
abbrev pub after : List Act → Enrolled → Enrolled
after acts x = record x { acts = acts ++ x.acts }

-- What `enroll` is called with, as the enrollment that is first saved.
abbrev pub first_enrollment : Arguments → List ℕ → List ℕ → Enrollment
first_enrollment a lock_public_key key = record {
  device_id = a.device_id;
  owner_key = key;
  server_private_key = a.server_private_key;
  name = a.name;
  lock_server_public_key = none;
  update_private_key = some a.update_key.private_key;
  lock_update_public_key = some lock_public_key;
  completed = only_owner_key;
  user_id = pos 0;
}

-- The lock's answer to UserAuthUpdate, and the key that is derived from it.
abbrev pub lock_key_of : Result BleError Response → Result BleError (List ℕ)
lock_key_of o = o >>= parse_user_auth_update

module _ (curve : Curve) where
  -- `session.send(...)`, where building the command may raise, and what is made of the answer.
  abbrev pub run_command :
      Result BleError CommandPayload
      → (Response → Result BleError Enrollment)
      → Course
      → Session
      → StepEnd
  run_command (err e) then_make t s = record { outcome = err e; frames = []; session = s }
  run_command (ok c) then_make t s =
      let x = send c false t s in
      record { outcome = x.outcome >>= then_make; frames = x.frames; session = x.session }

  -- `replace(enrollment, completed=completed)`
  abbrev pub completing : Step → Enrollment → Result BleError Enrollment
  completing step e = made curve (record e { completed = with_step step e.completed })

  abbrev pub with_lock_key : Enrollment → List ℕ → Result BleError Enrollment
  with_lock_key e key =
      made curve (record e {
        lock_server_public_key = some key;
        completed = with_step server_key e.completed;
      })

  -- `_run_step`; `owner_key` is never remaining, and falls to the last branch as there.
  unfoldable pub run_step : Step → World → Enrollment → Session → StepEnd
  unfolding device_id_set current_time_set to_lock_time server_key_update device_name_set
      server_public_key send
  run_step Step.device_id w e s =
      run_command (device_id_set e.device_id) (λ r. completing device_id e) (w.course device_id) s
  run_step clock w e s =
      run_command (to_lock_time w.now >>= λ minutes. current_time_set (pos minutes))
        (λ r. completing clock e) (w.course clock) s
  run_step server_key w e s =
      run_command (server_public_key curve e >>= server_key_update)
        (λ r. parse_server_key_update r >>= with_lock_key e) (w.course server_key) s
  run_step step w e s =
      run_command (device_name_set e.name) (λ r. completing step e) (w.course step) s

  -- What `_save` and the rest of the loop make of a step: nothing more is sent where `save` raised.
  abbrev pub step_ended :
      (Enrollment → Session → Enrolled)
      → Step
      → Enrollment
      → Result BleError Enrollment
      → Bool
      → List (List ℕ)
      → Session
      → Enrolled
  step_ended rest step e (err cause) save_returns frames s = record {
    outcome = err (stopped_at step (some e) cause);
    acts = sent step frames ∷ [];
    session = s;
  }
  step_ended rest step e (ok e') true frames s =
      after (sent step frames ∷ saved e' ∷ []) (rest e' s)
  step_ended rest step e (ok e') false frames s = record {
    outcome = err (not_saved step e');
    acts = sent step frames ∷ saved e' ∷ [];
    session = s;
  }

  -- `_run_remaining`
  unfoldable pub run_remaining : List Step → World → Enrollment → Session → Enrolled
  unfolding run_step
  run_remaining [] w e s = record { outcome = ok e; acts = []; session = s }
  run_remaining (step ∷ more) w e s =
      let x = run_step step w e s in
      step_ended (run_remaining more w) step e x.outcome (w.save_returns step) x.frames x.session

  abbrev pub failed_with : EnrollmentError → List Act → Session → Enrolled
  failed_with e acts s = record { outcome = err e; acts = acts; session = s }

  -- `resume_enrollment` once it is logged in as an enrollment of which `save` has not heard.
  abbrev pub resumed_as : Result BleError Enrollment → World → Session → Enrolled
  resumed_as (err cause) w s = failed_with (plain cause) [] s
  resumed_as (ok e) w s =
      if w.save_returns device_id
      then after (saved e ∷ []) (run_remaining (remaining e) w e s)
      else failed_with (not_saved device_id e) (saved e ∷ []) s

  -- From the new enrollment on.
  abbrev pub taken_over : Result BleError Enrollment → World → Session → Enrolled
  taken_over (err cause) w s = failed_with (plain cause) [] s
  taken_over (ok e) w s =
      if w.save_returns owner_key
      then after (saved e ∷ []) (run_remaining (remaining e) w e s)
      else failed_with (not_saved owner_key e) (saved e ∷ []) s

  abbrev pub derived : Arguments → World → List ℕ → Result BleError (List ℕ) → Session → Enrolled
  derived a w lock_public_key (err cause) s = failed_with (stopped_at owner_key none cause) [] s
  derived a w lock_public_key (ok key) s =
      taken_over (made curve (first_enrollment a lock_public_key key)) w s

  abbrev pub owned : Arguments → World → Result BleError (List ℕ) → Session → Enrolled
  owned a w (err cause) s = failed_with (stopped_at owner_key none cause) [] s
  owned a w (ok lock_public_key) s =
      derived a w lock_public_key (derive_owner_key curve a.update_key.private_key lock_public_key)
        s

  abbrev pub update_owner : Result BleError CommandPayload → Arguments → World → Session → Enrolled
  update_owner (err cause) a w s = failed_with (stopped_at owner_key none cause) [] s
  update_owner (ok c) a w s =
      let x = send c false (w.course owner_key) s in
      after (sent owner_key x.frames ∷ []) (owned a w (lock_key_of x.outcome) x.session)

  -- The checks before anything is sent.
  unfoldable pub check_arguments : Arguments → Result BleError (Unit {0})
  unfolding device_name_set check_device_id key_pair_from_private_key
  check_arguments a = do
    c ← device_name_set a.name
    check_device_id a.device_id
    pair ← key_pair_from_private_key curve a.server_private_key
    ok tt

  module _ (library : CbcLibrary) where
    abbrev pub log_in : Result BleError OwnerCredential → Course → Course → Session → Login
    log_in (err e) t t' s = record { outcome = err e; session = s; frames = [] }
    log_in (ok c) t t' s = authenticate_owner library c t t' s

    -- The second login of `_log_in_to_resume`, with the enrolled device id.
    abbrev pub retried : World → Enrollment → Result BleError (Unit {0}) → Session → Enrolled
    retried w e (err cause) s = failed_with (plain cause) [] s
    retried w e (ok _) s = resumed_as (completing device_id e) w s

    abbrev pub retry : World → Enrollment → Login → Enrolled
    retry w e x = after (logged_in x.frames ∷ []) (retried w e x.outcome x.session)

    abbrev pub tried : World → Enrollment → Result BleError (Unit {0}) → Session → Enrolled
    tried w e (err cause) s =
        if is_security cause && not (e.completed device_id)
        then retry w e
            (log_in (credential e.user_id e.device_id e.owner_key) w.retry_begin w.retry_finalize s)
        else failed_with (plain cause) [] s
    tried w e (ok _) s = run_remaining (remaining e) w e s

    abbrev pub resume_with : World → Enrollment → Login → Enrolled
    resume_with w e x = after (logged_in x.frames ∷ []) (tried w e x.outcome x.session)

    -- `resume_enrollment`
    unfoldable pub resume_enrollment : World → Enrollment → Session → Enrolled
    unfolding run_remaining owner_credential credential authenticate_owner remaining_of
        all_completed
    resume_enrollment w e s =
        if complete e
        then record { outcome = ok e; acts = []; session = s }
        else resume_with w e (log_in (owner_credential e) w.login_begin w.login_finalize s)

    abbrev pub admitted : Arguments → World → Result BleError (Unit {0}) → Session → Enrolled
    admitted a w (err cause) s = failed_with (plain cause) [] s
    admitted a w (ok _) s =
        update_owner (user_auth_update (pos 0) (pos 0) a.update_key.public_key) a w s

    abbrev pub with_factory_login : Arguments → World → Login → Enrolled
    with_factory_login a w x = after (logged_in x.frames ∷ []) (admitted a w x.outcome x.session)

    abbrev pub begin_enrollment :
        Arguments → World → Result BleError (Unit {0}) → Session → Enrolled
    begin_enrollment a w (err cause) s = failed_with (plain cause) [] s
    begin_enrollment a w (ok _) s =
        with_factory_login a w
          (authenticate_owner library default_owner_credential w.login_begin w.login_finalize s)

    -- `enroll`
    unfoldable pub enroll : Arguments → World → Session → Enrolled
    unfolding check_arguments run_remaining authenticate_owner user_auth_update derive_owner_key
        check remaining_of
    enroll a w s = begin_enrollment a w (check_arguments a) s
