-- ===== src/Integration/OptionsFlow/Routes.antt =====
-- How a write that the dialog started finds its way back to the user.
use onesti_lock.Base.{
  true, false, List, [], ◌∷◌, Option, none, some, ap, sym, if◌then◌else◌, ◌≡◌, inl, inr, refl,
  Bool-cases,
}
use onesti_lock.Integration.PinRules.{is_valid_pin, pin_length_range}
use onesti_lock.Integration.Coordinator.{World}
use onesti_lock.Integration.OptionsFlow.{
  unknown, FormError, PinInput, Task, running, finished, cancelled, OptionsFlow, task_error,
  set_pin_choices,
}
use onesti_lock.Integration.OptionsFlow.Steps.{
  Stepped, Write, set_pin_routed, set_pin_waited, set_pin_continued, set_pin_after, pin_write, base,
  set_pin_form, set_pin_again, set_pin_finished, create_entry, step_set_pin, step_set_pin_progress,
  step_set_pin_done,
}

-- A write that is due: a valid code with no write of the dialog under way and no error to show.
abbrev pub due_pin : World → Option PinInput → Option Task → Option FormError → List Write
due_pin w user_input task (some e) = []
due_pin w user_input (some task) none = []
due_pin w none none none = []
due_pin w (some input) none none =
    if is_valid_pin input.code w.self.lock_capabilities then pin_write input ∷ [] else []

routed_writes : (e : Option FormError) (f : OptionsFlow) → (set_pin_routed e f).writes ≡ []
routed_writes none f = refl
routed_writes (some e) f = refl

waited_writes : (t : Task) (f : OptionsFlow) → (set_pin_waited t f).writes ≡ []
waited_writes running f = refl
waited_writes (finished e) f = routed_writes (task_error (finished e)) f
waited_writes cancelled f = routed_writes (task_error cancelled) f

continued_writes :
    (w : World) (t : Option Task) (input : PinInput) (started : Task) (f : OptionsFlow)
    → is_valid_pin input.code w.self.lock_capabilities ≡ true
    → (set_pin_continued t started (record f { set_pin_input = some input })).writes
      ≡ due_pin w (some input) t none
continued_writes w none input started f h = rw h (
    ap (λ ws. pin_write input ∷ ws)
      (waited_writes started
        (record f { set_pin_input = some input; set_pin_task = some started })))
continued_writes w (some task) input started f h =
    waited_writes task (record f { set_pin_input = some input })

due_invalid :
    (w : World) (t : Option Task) (input : PinInput)
    → is_valid_pin input.code w.self.lock_capabilities ≡ false
    → due_pin w (some input) t none ≡ []
due_invalid w none input h = rw h
due_invalid w (some task) input h = refl

due_nothing : (w : World) (t : Option Task) → due_pin w none t none ≡ []
due_nothing w none = refl
due_nothing w (some task) = refl

after_writes :
    (w : World) (e : Option FormError) (user_input : Option PinInput) (started : Task)
    (f : OptionsFlow)
    → (set_pin_after w e user_input started f).writes ≡ due_pin w user_input f.set_pin_task e
unfolding step_set_pin_progress
after_writes w (some e) user_input started f = refl
after_writes w none none started f = sym (due_nothing w f.set_pin_task)
after_writes w none (some input) started f =
    elim (Bool-cases (is_valid_pin input.code w.self.lock_capabilities)) [
      | inl valid ↦ rw valid (continued_writes w f.set_pin_task input started f valid)
      | inr invalid ↦ rw invalid (sym (due_invalid w f.set_pin_task input invalid))
    ]

-- The set_pin step starts a write exactly where one is due: a valid code was submitted, no write of
-- the dialog is under way, and no error waits to be shown. It starts that write alone.
pub step_set_pin-writes :
    (w : World) (user_input : Option PinInput) (started : Task) (f : OptionsFlow)
    → (step_set_pin w user_input started f).writes
      ≡ due_pin w user_input f.set_pin_task f.set_pin_error
unfolding step_set_pin
step_set_pin-writes w user_input started f = after_writes w f.set_pin_error user_input started f

-- A dialog whose set_pin write has come to an end.
abbrev pub ended_with : PinInput → Task → OptionsFlow → OptionsFlow
ended_with input task f = record f { set_pin_input = some input; set_pin_task = some task }

abbrev pub Fails : Stepped → Stepped → World → PinInput → FormError → OptionsFlow → Type 0
Fails back shown w input e f =
    (back.result ≡ set_pin_again)
    × (back.writes ≡ [])
    × (shown.result
        ≡ set_pin_form (base e) (set_pin_choices w) (some input)
            (pin_length_range w.self.lock_capabilities))
    × (shown.writes ≡ [])
    × (shown.flow
        ≡ record f { set_pin_input = some input; set_pin_task = none; set_pin_error = none })

abbrev pub Succeeds : Stepped → Stepped → World → OptionsFlow → Type 0
Succeeds back done w f =
    (back.result ≡ set_pin_finished)
    × (back.writes ≡ [])
    × (done.result ≡ create_entry w.options)
    × (done.flow ≡ record f { set_pin_input = none; set_pin_task = none; set_pin_error = none })

-- A write that fails, or is cancelled by a shutdown, comes back to the form, whatever is submitted
-- with it: the next run of the progress step leads to the set_pin step, which shows the error with
-- the input of the write, sends nothing, and leaves the dialog ready for another try. A write that
-- succeeds ends the dialog with the options as they are stored by then.
pub set_pin_routed_back :
    (w : World) (input : PinInput) (e : FormError) (user_input : Option PinInput)
    (started started' : Task) (f : OptionsFlow)
    → Fails
        (step_set_pin_progress started (ended_with input (finished (some e)) f))
        (step_set_pin w user_input started'
          (step_set_pin_progress started (ended_with input (finished (some e)) f)).flow)
        w
        input
        e
        f
      × Fails
          (step_set_pin_progress started (ended_with input cancelled f))
          (step_set_pin w user_input started'
            (step_set_pin_progress started (ended_with input cancelled f)).flow)
          w
          input
          (record { key = unknown; status = none })
          f
      × Succeeds
          (step_set_pin_progress started (ended_with input (finished none) f))
          (step_set_pin_done w
            (step_set_pin_progress started (ended_with input (finished none) f)).flow)
          w
          f
unfolding step_set_pin step_set_pin_progress step_set_pin_done
set_pin_routed_back w input e user_input started started' f =
    ((refl, refl, refl, refl, refl), (refl, refl, refl, refl, refl), (refl, refl, refl, refl))
