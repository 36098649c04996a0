-- ===== src/Integration/OptionsFlow/Steps.antt =====
-- The steps of the options dialog.
use mathlib.Core.List.{reverse}
use onesti_lock.Base.{
  ℕ, ℤ, pos, negsuc, Bool, true, false, not, List, [], ◌∷◌, ◌++◌, Option, none, some, ltb, leb,
  ◌==◌, ◌&&◌, ◌||◌, if◌then◌else◌,
}
use onesti_lock.Integration.PinRules.{integer, max_slots, pin_length_range, is_valid_pin}
use onesti_lock.Integration.Coordinator.{Options, World, Effect, first_user_slot, set_slot_name}
use onesti_lock.Integration.OptionsFlow.{
  FormError, PinInput, Task, running, finished, cancelled, OptionsFlow, task_error, Label, Row,
  num_user_slots, set_pin_choices, clear_pin_choices, reserved_rows, user_rows,
}

pub data PinError : Type 0 where
  no_error : PinError
  invalid_pin : PinError
  base : FormError → PinError

pub record NameInput : Type 0 where
  pub slot : ℤ
  pub name : Option (List ℕ)

-- The forms with what they show: errors, choices, the values filled in, the range of a code's length.
pub data FlowResult : Type 0 where
  menu lock_not_loaded no_active_slots assertion_error : FlowResult
  set_pin_form : PinError → List (ℕ × Label) → Option PinInput → ℕ × ℕ → FlowResult
  set_pin_progress set_pin_again set_pin_finished : FlowResult
  clear_pin_form : Option FormError → List (ℕ × Label) → Option ℕ → FlowResult
  clear_pin_progress clear_pin_again clear_pin_finished : FlowResult
  name_slot_form : Bool → Option NameInput → FlowResult
  view_slots_form : List Row → FlowResult
  settings_form : ℕ → FlowResult
  create_entry : Options → FlowResult

-- A write that a step has started on the coordinator.
pub data Write : Type 0 where
  pin_write : PinInput → Write
  clear_write : ℕ → Write

pub record Stepped : Type 0 where
  pub result : FlowResult
  pub flow : OptionsFlow
  pub writes : List Write

abbrev pub shows : FlowResult → OptionsFlow → Stepped
shows r f = record { result = r; flow = f; writes = [] }

abbrev pub writing : List Write → Stepped → Stepped
writing ws x = record x { writes = ws ++ x.writes }

-- `async_step_init`
unfoldable pub step_init : Bool → OptionsFlow → Stepped
step_init loaded f = if loaded then shows menu f else shows lock_not_loaded f

-- The tail of the progress step: the task is done, or the spinner goes on.
abbrev pub set_pin_routed : Option FormError → OptionsFlow → Stepped
set_pin_routed none f =
    shows set_pin_finished (record f { set_pin_task = none; set_pin_error = none })
set_pin_routed (some e) f =
    shows set_pin_again (record f { set_pin_task = none; set_pin_error = some e })

abbrev pub set_pin_waited : Task → OptionsFlow → Stepped
set_pin_waited running f = shows set_pin_progress f
set_pin_waited (finished e) f = set_pin_routed (task_error (finished e)) f
set_pin_waited cancelled f = set_pin_routed (task_error cancelled) f

abbrev pub set_pin_started : Option PinInput → Task → OptionsFlow → Stepped
set_pin_started none started f = shows assertion_error f
set_pin_started (some input) started f =
    writing (pin_write input ∷ [])
      (set_pin_waited started (record f { set_pin_task = some started }))

abbrev pub set_pin_continued : Option Task → Task → OptionsFlow → Stepped
set_pin_continued none started f = set_pin_started f.set_pin_input started f
set_pin_continued (some task) started f = set_pin_waited task f

-- `async_step_set_pin_progress`
unfoldable pub step_set_pin_progress : Task → OptionsFlow → Stepped
unfolding task_error
step_set_pin_progress started f = set_pin_continued f.set_pin_task started f

module _ (w : World) where
  abbrev pub show_set_pin : PinError → Option PinInput → OptionsFlow → Stepped
  show_set_pin e suggested f =
      shows
        (set_pin_form e (set_pin_choices w) suggested (pin_length_range w.self.lock_capabilities)) f

  abbrev pub set_pin_submitted : Option PinInput → Task → OptionsFlow → Stepped
  set_pin_submitted none started f = show_set_pin no_error none f
  set_pin_submitted (some input) started f =
      if not (is_valid_pin input.code w.self.lock_capabilities)
      then show_set_pin invalid_pin (some input) f
      else step_set_pin_progress started (record f { set_pin_input = some input })

  abbrev pub set_pin_after : Option FormError → Option PinInput → Task → OptionsFlow → Stepped
  set_pin_after (some e) user_input started f =
      show_set_pin (base e) f.set_pin_input (record f { set_pin_error = none })
  set_pin_after none user_input started f = set_pin_submitted user_input started f

  -- `async_step_set_pin`: an error that waits comes before what was submitted.
  unfoldable pub step_set_pin : Option PinInput → Task → OptionsFlow → Stepped
  unfolding step_set_pin_progress pin_length_range is_valid_pin
  step_set_pin user_input started f = set_pin_after f.set_pin_error user_input started f

-- `async_step_set_pin_done`
unfoldable pub step_set_pin_done : World → OptionsFlow → Stepped
step_set_pin_done w f = shows (create_entry w.options) (record f { set_pin_input = none })

abbrev pub clear_pin_routed : Option FormError → OptionsFlow → Stepped
clear_pin_routed none f =
    shows clear_pin_finished (record f { clear_pin_task = none; clear_pin_error = none })
clear_pin_routed (some e) f =
    shows clear_pin_again (record f { clear_pin_task = none; clear_pin_error = some e })

abbrev pub clear_pin_waited : Task → OptionsFlow → Stepped
clear_pin_waited running f = shows clear_pin_progress f
clear_pin_waited (finished e) f = clear_pin_routed (task_error (finished e)) f
clear_pin_waited cancelled f = clear_pin_routed (task_error cancelled) f

abbrev pub clear_pin_started : Option ℕ → Task → OptionsFlow → Stepped
clear_pin_started none started f = shows assertion_error f
clear_pin_started (some slot) started f =
    writing (clear_write slot ∷ [])
      (clear_pin_waited started (record f { clear_pin_task = some started }))

abbrev pub clear_pin_continued : Option Task → Task → OptionsFlow → Stepped
clear_pin_continued none started f = clear_pin_started f.clear_pin_input started f
clear_pin_continued (some task) started f = clear_pin_waited task f

-- `async_step_clear_pin_progress`
unfoldable pub step_clear_pin_progress : Task → OptionsFlow → Stepped
unfolding task_error
step_clear_pin_progress started f = clear_pin_continued f.clear_pin_task started f

abbrev pub clear_pin_submitted : List (ℕ × Label) → Option ℕ → Task → OptionsFlow → Stepped
clear_pin_submitted choices none started f = shows (clear_pin_form none choices none) f
clear_pin_submitted choices (some slot) started f =
    step_clear_pin_progress started (record f { clear_pin_input = some slot })

abbrev pub clear_pin_after :
    Option FormError → List (ℕ × Label) → Option ℕ → Task → OptionsFlow → Stepped
clear_pin_after (some e) choices user_input started f =
    shows (clear_pin_form (some e) choices f.clear_pin_input) (record f { clear_pin_error = none })
clear_pin_after none choices user_input started f = clear_pin_submitted choices user_input started f

abbrev pub clear_pin_offered : List (ℕ × Label) → Option ℕ → Task → OptionsFlow → Stepped
clear_pin_offered [] user_input started f = shows no_active_slots f
clear_pin_offered (c ∷ cs) user_input started f =
    clear_pin_after f.clear_pin_error (c ∷ cs) user_input started f

-- `async_step_clear_pin`
unfoldable pub step_clear_pin : World → Option ℕ → Task → OptionsFlow → Stepped
unfolding step_clear_pin_progress
step_clear_pin w user_input started f = clear_pin_offered (clear_pin_choices w) user_input started f

-- `async_step_clear_pin_done`
unfoldable pub step_clear_pin_done : World → OptionsFlow → Stepped
step_clear_pin_done w f = shows (create_entry w.options) (record f { clear_pin_input = none })

-- `str.strip()`: Python's white space at both ends.
abbrev pub is_white : ℕ → Bool
is_white c =
    (leb 9 c && leb c 13)
    || (leb 28 c && leb c 32)
    || c == 0x85
    || c == 0xa0
    || c == 0x1680
    || (leb 0x2000 c && leb c 0x200a)
    || c == 0x2028
    || c == 0x2029
    || c == 0x202f
    || c == 0x205f
    || c == 0x3000

unfoldable pub drop_white : List ℕ → List ℕ
drop_white [] = []
drop_white (c ∷ cs) = let rest = drop_white cs in if is_white c then rest else c ∷ cs

unfoldable pub strip : List ℕ → List ℕ
unfolding drop_white
strip text = reverse (drop_white (reverse (drop_white text)))

abbrev name_of : Option (List ℕ) → List ℕ
name_of none = []
name_of (some name) = name

pub record Named : Type 0 where
  pub result : FlowResult
  pub world : World
  pub effects : List Effect

abbrev pub refuse_name : NameInput → World → Named
refuse_name input w = record { result = name_slot_form true (some input); world = w; effects = [] }

abbrev pub name_given : ℕ → Option (List ℕ) → World → Named
name_given slot name w =
    let (w', effects) = set_slot_name slot (strip (name_of name)) w in
    record { result = create_entry w'.options; world = w'; effects = effects }

abbrev pub named_at : ℤ → NameInput → World → Named
named_at (negsuc n) input w = refuse_name input w
named_at (pos n) input w =
    if ltb n max_slots then name_given n input.name w else refuse_name input w

-- `async_step_name_slot`
unfoldable pub step_name_slot : Option NameInput → World → Named
unfolding set_slot_name strip
step_name_slot none w = record { result = name_slot_form false none; world = w; effects = [] }
step_name_slot (some input) w = named_at input.slot input w

-- `async_step_view_slots`; any answer goes back to the menu.
unfoldable pub step_view_slots : World → Bool → Bool → OptionsFlow → Stepped
unfolding step_init reserved_rows user_rows
step_view_slots w answered loaded f =
    let first = first_user_slot w in
    if answered
    then step_init loaded f
    else shows
        (view_slots_form
          (reserved_rows first 0 w.options ++ user_rows num_user_slots first w.options))
        f

-- `async_step_settings`, with the number that the schema let through.
unfoldable pub step_settings : World → Option ℤ → OptionsFlow → Stepped
step_settings w none f = shows (settings_form (first_user_slot w)) f
step_settings w (some reserved_slots) f =
    shows (create_entry (record w.options { reserved_slots = some (integer reserved_slots) })) f
