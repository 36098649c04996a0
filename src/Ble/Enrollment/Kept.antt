-- ===== src/Ble/Enrollment/Kept.antt =====
-- What the process has kept of an enrollment wherever it stops.
use mathlib.Core.Path.{subst}
use onesti_lock.Base.{
  ℕ, Bool, true, false, Result, ok, err, ◌>>=◌, >>=-eq_ok, List, [], ◌∷◌, none, some, ◌≡◌, refl,
  sym, ap, ◌∙◌,
}
use onesti_lock.Ble.Error.{BleError}
use onesti_lock.Ble.Command.{CommandPayload}
use onesti_lock.Ble.Crypto.{Curve}
use onesti_lock.Ble.Response.{Response}
use onesti_lock.Ble.Responses.{parse_server_key_update}
use onesti_lock.Ble.Session.{Session}
use onesti_lock.Ble.Session.Exchange.{Course, send}
use onesti_lock.Ble.Enrollment.{
  Step, owner_key, device_id, clock, server_key, name, members, with_step, Enrollment, check, made,
  remaining, remaining_of,
}
use onesti_lock.Ble.Enrollment.Remaining.{remaining_next}
use onesti_lock.Ble.Enrollment.Run.{
  Act, logged_in, sent, saved, EnrollmentError, plain, stopped_at, not_saved, Enrolled, World,
  run_command, completing, with_lock_key, run_step, step_ended, run_remaining,
}

abbrev pub IsNext : Step → List Step → Type 0
IsNext step [] = ⊥
IsNext step (next ∷ more) = step ≡ next

-- The enrollment that `save` was last called with.
abbrev pub last_saved : Enrollment → List Act → Enrollment
last_saved e [] = e
last_saved e (logged_in frames ∷ acts) = last_saved e acts
last_saved e (sent step frames ∷ acts) = last_saved e acts
last_saved e (saved e' ∷ acts) = last_saved e' acts

module _ (curve : Curve) where
  -- One step further: it is valid, exactly that step is added, and the keys and ids are the same.
  pub record Advances (step : Step) (e e' : Enrollment) : Type 0 where
    pub checked : check curve e' ≡ ok tt
    pub steps : e'.completed ≡ with_step step e.completed
    pub same_owner_key : e'.owner_key ≡ e.owner_key
    pub same_server_key : e'.server_private_key ≡ e.server_private_key
    pub same_device_id : e'.device_id ≡ e.device_id
    pub same_user_id : e'.user_id ≡ e.user_id

  -- Nothing is sent but the first step that the enrollment last saved leaves, and what is saved is
  -- that enrollment with this step added.
  abbrev pub InOrder : Enrollment → List Act → Type 0
  InOrder e [] = Unit {0}
  InOrder e (logged_in frames ∷ acts) = InOrder e acts
  InOrder e (sent step frames ∷ acts) = IsNext step (remaining e) × InOrder e acts
  InOrder e (saved e' ∷ acts) =
      ((step : Step) × IsNext step (remaining e) × Advances step e e') × InOrder e' acts

  -- What an outcome says of the enrollment that was last saved.
  abbrev pub Holds : Result EnrollmentError Enrollment → Enrollment → Type 0
  Holds (ok e) last = (e ≡ last) × (remaining last ≡ [])
  Holds (err (plain cause)) last = ⊥
  Holds (err (stopped_at step none cause)) last = ⊥
  Holds (err (stopped_at step (some e) cause)) last = (e ≡ last) × IsNext step (remaining last)
  Holds (err (not_saved step e)) last = e ≡ last

  abbrev pub Kept : Enrollment → Enrolled → Type 0
  Kept e x = Holds x.outcome (last_saved e x.acts) × InOrder e x.acts

  made_ok : (e e' : Enrollment) → made curve e ≡ ok e' → (check curve e ≡ ok tt) × (e ≡ e')
  made_ok e e' h = go (check curve e) refl h
    where
      go :
          (r : Result BleError (Unit {0}))
          → check curve e ≡ r
          → (r >>= λ _. ok e) ≡ ok e'
          → (check curve e ≡ ok tt) × (e ≡ e')
      go (ok u) eq h' = (eq, cc)
      go (err x) eq h' = cc h'

  -- A replaced enrollment that differs from the old one in the step and in the lock's keys.
  made-Advances :
      (step : Step) (e e'' e' : Enrollment)
      → made curve e'' ≡ ok e'
      → e''.completed ≡ with_step step e.completed
      → e''.owner_key ≡ e.owner_key
      → e''.server_private_key ≡ e.server_private_key
      → e''.device_id ≡ e.device_id
      → e''.user_id ≡ e.user_id
      → Advances step e e'
  made-Advances step e e'' e' h hs ho hp hd hu =
      let (c, same) = made_ok e'' e' h in
      record {
        checked = subst (λ x. check curve x ≡ ok tt) same c;
        steps = sym (ap (λ x. x.completed) same) ∙ hs;
        same_owner_key = sym (ap (λ x. x.owner_key) same) ∙ ho;
        same_server_key = sym (ap (λ x. x.server_private_key) same) ∙ hp;
        same_device_id = sym (ap (λ x. x.device_id) same) ∙ hd;
        same_user_id = sym (ap (λ x. x.user_id) same) ∙ hu;
      }

  pub completing-Advances :
      (step : Step) (e e' : Enrollment) → completing curve step e ≡ ok e' → Advances step e e'
  completing-Advances step e e' h =
      made-Advances step e (record e { completed = with_step step e.completed }) e' h refl refl refl
        refl refl

  with_lock_key-Advances :
      (e e' : Enrollment) (key : List ℕ)
      → with_lock_key curve e key ≡ ok e'
      → Advances server_key e e'
  with_lock_key-Advances e e' key h =
      made-Advances server_key e
        (record e {
          lock_server_public_key = some key;
          completed = with_step server_key e.completed;
        })
        e' h refl refl refl refl refl

  run_command_ok :
      (b : Result BleError CommandPayload) (make : Response → Result BleError Enrollment)
      (t : Course) (s : Session) (e' : Enrollment)
      → (run_command curve b make t s).outcome ≡ ok e'
      → (r : Response) × (make r ≡ ok e')
  run_command_ok (err x) make t s e' h = cc h
  run_command_ok (ok c) make t s e' h =
      let (r, came, from) = >>=-eq_ok (send c false t s).outcome make h in (r, from)

  pub run_step-Advances :
      (step : Step) (w : World) (e e' : Enrollment) (s : Session)
      → (run_step curve step w e s).outcome ≡ ok e'
      → Advances step e e'
  unfolding run_step
  run_step-Advances device_id w e e' s h =
      completing-Advances device_id e e' (run_command_ok _ _ _ s e' h).1
  run_step-Advances clock w e e' s h =
      completing-Advances clock e e' (run_command_ok _ _ _ s e' h).1
  run_step-Advances server_key w e e' s h =
      let (r, read) = run_command_ok _ _ _ s e' h in
      let (key, parsed, from) =
        >>=-eq_ok (parse_server_key_update r) (with_lock_key curve e) read in
      with_lock_key-Advances e e' key from
  run_step-Advances owner_key w e e' s h =
      completing-Advances owner_key e e' (run_command_ok _ _ _ s e' h).1
  run_step-Advances name w e e' s h = completing-Advances name e e' (run_command_ok _ _ _ s e' h).1

  -- Wherever the remaining steps stop, the enrollment that is returned or that the error carries is
  -- the one that `save` was last called with, the failed step is the next one, and every act was in
  -- order; where they return, no step remains.
  pub run_remaining-Kept :
      (steps : List Step) (w : World) (e : Enrollment) (s : Session)
      → remaining e ≡ steps
      → Kept e (run_remaining curve steps w e s)
  unfolding run_remaining
  run_remaining-Kept [] w e s h = ((refl, h), tt)
  run_remaining-Kept (step ∷ more) w e s h =
      let x = run_step curve step w e s in
      ended x.outcome (λ e'. run_step-Advances step w e e' s) (run_remaining-Kept more w)
        (w.save_returns step) x.frames x.session
    where
      next : IsNext step (remaining e)
      next = subst (IsNext step) (sym h) refl

      ended :
          (o : Result BleError Enrollment)
          → ((e' : Enrollment) → o ≡ ok e' → Advances step e e')
          → ((e' : Enrollment) (s' : Session)
              → remaining e' ≡ more
              → Kept e' (run_remaining curve more w e' s'))
          → (b : Bool) (frames : List (List ℕ)) (s' : Session)
          → Kept e (step_ended curve (run_remaining curve more w) step e o b frames s')
      ended (err cause) adv again b frames s' = ((refl, next), (next, tt))
      ended (ok e') adv again true frames s' =
          let left : remaining e' ≡ more =
            ap (λ c. remaining_of c members) (adv e' refl).steps
            ∙ remaining_next e.completed step more h in
          let (holds, order) = again e' s' left in
          (holds, (next, ((step, next, adv e' refl), order)))
      ended (ok e') adv again false frames s' = (refl, (next, ((step, next, adv e' refl), tt)))
