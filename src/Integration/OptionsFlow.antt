-- ===== src/Integration/OptionsFlow.antt =====
-- config_flow.py: `OnestiLockOptionsFlow`, the dialog that writes PIN codes. A translated label is the
-- template that it is made of, with its slot and name. A write runs as its own task, whose state the
-- progress steps read; what a task is when it has just been started is a parameter.
pub mod Steps
pub mod Offered
pub mod Routes
use onesti_lock.Base.{
  ℕ, ◌+◌, ◌-◌, zero, suc, ℤ, pos, negsuc, Bool, true, false, Result, ok, err, List, [], ◌∷◌, Option,
  none, some, ltb, leb, ◌==◌, ◌&&◌, ◌||◌, if◌then◌else◌,
}
use onesti_lock.Base.Dict.{find}
use onesti_lock.Integration.PinRules.{max_slots}
use onesti_lock.Integration.Zha.{SendOutcome, ErrorKey, Delivery, unreached, error_key}
use onesti_lock.Integration.Coordinator.{Stored, Options, World, WriteError, first_user_slot}

-- NUM_USER_SLOTS
abbrev pub num_user_slots : ℕ
num_user_slots = 10

-- `_FormError`: its key, and the status among its placeholders where there is one.
pub data FormKey : Type 0 where
  unknown : FormKey
  refused_with : ErrorKey → FormKey

pub record FormError : Type 0 where
  pub key : FormKey
  pub status : Option (Option ℤ)

pub record PinInput : Type 0 where
  pub slot : ℕ
  pub name : List ℕ
  pub code : List ℕ

-- The task of a write, as the dialog sees it.
pub data Task : Type 0 where
  running : Task
  finished : Option FormError → Task
  cancelled : Task

pub record OptionsFlow : Type 0 where
  pub set_pin_input : Option PinInput
  pub set_pin_task : Option Task
  pub set_pin_error : Option FormError
  pub clear_pin_input : Option ℕ
  pub clear_pin_task : Option Task
  pub clear_pin_error : Option FormError

abbrev pub new_flow : OptionsFlow
new_flow = record {
  set_pin_input = none;
  set_pin_task = none;
  set_pin_error = none;
  clear_pin_input = none;
  clear_pin_task = none;
  clear_pin_error = none;
}

-- How the awaited write of a coordinator ends.
pub data WriteEnd : Type 0 where
  returned : SendOutcome → WriteEnd
  timed_out : WriteEnd
  raised : WriteEnd

-- The coordinator's guard is an exception like any other here.
abbrev pub ended : Result WriteError SendOutcome → WriteEnd
ended (ok o) = returned o
ended (err e) = raised

abbrev refusal : SendOutcome → ErrorKey → FormError
refusal o key = record {
  key = refused_with key;
  status = elim o.delivery [ unreached ↦ none | _ ↦ some o.status ];
}

-- `_write`
unfoldable pub form_error : WriteEnd → Option FormError
unfolding error_key
form_error timed_out = some (record { key = refused_with ErrorKey.lock_unreachable; status = none })
form_error raised = some (record { key = unknown; status = none })
form_error (returned o) = elim (error_key o) [ none ↦ none | some key ↦ some (refusal o key) ]

-- `_task_error`; a task that still runs is never asked.
unfoldable pub task_error : Task → Option FormError
task_error running = none
task_error (finished e) = e
task_error cancelled = some (record { key = unknown; status = none })

-- The templates of a slot's label.
pub data Label : Type 0 where
  named : ℕ → List ℕ → Label
  vacant : ℕ → Label
  fallback : ℕ → Label

abbrev or_empty : Option (List ℕ) → List ℕ
or_empty none = []
or_empty (some name) = name

-- `slots.get(str(i), {}).get("name", "")`, and the same of "has_pin".
abbrev pub stored_name : Option Stored → List ℕ
stored_name none = []
stored_name (some s) = or_empty s.name

abbrev pub stored_has_pin : Option Stored → Bool
stored_has_pin none = false
stored_has_pin (some s) = elim s.has_pin [ none ↦ false | some b ↦ b ]

abbrev label_or_vacant : ℕ → List ℕ → Label
label_or_vacant slot [] = vacant slot
label_or_vacant slot (c ∷ cs) = named slot (c ∷ cs)

-- The options of `_build_set_pin_schema`, `count` slots from `slot` on.
unfoldable pub pin_choices : ℕ → ℕ → Options → List (ℕ × Label)
unfolding find
pin_choices zero slot o = []
pin_choices (suc count) slot o =
    (slot, label_or_vacant slot (stored_name (find slot o.slots))) ∷ pin_choices count (slot + 1) o

abbrev pub label_or_fallback : ℕ → List ℕ → Label
label_or_fallback slot [] = fallback slot
label_or_fallback slot (c ∷ cs) = named slot (c ∷ cs)

-- `active_slots` of the clear_pin step: the slots that hold a PIN.
unfoldable pub active_slots : ℕ → ℕ → Options → List (ℕ × Label)
unfolding find
active_slots zero slot o = []
active_slots (suc count) slot o =
    let rest = active_slots count (slot + 1) o in
    if stored_has_pin (find slot o.slots)
    then (slot, label_or_fallback slot (stored_name (find slot o.slots))) ∷ rest
    else rest

abbrev pub set_pin_choices : World → List (ℕ × Label)
set_pin_choices w = pin_choices num_user_slots (first_user_slot w) w.options

-- `range(first, MAX_SLOTS)`
abbrev pub clear_pin_choices : World → List (ℕ × Label)
clear_pin_choices w = active_slots (max_slots - first_user_slot w) (first_user_slot w) w.options

-- A line of the view_slots step.
pub data Row : Type 0 where
  reserved : ℕ → List ℕ → Row
  with_pin : ℕ → List ℕ → Row
  without_pin : ℕ → List ℕ → Row
  vacant_row : ℕ → Row

abbrev row : ℕ → List ℕ → Bool → Row
row slot [] has_pin = vacant_row slot
row slot (c ∷ cs) true = with_pin slot (c ∷ cs)
row slot (c ∷ cs) false = without_pin slot (c ∷ cs)

unfoldable pub reserved_rows : ℕ → ℕ → Options → List Row
unfolding find
reserved_rows zero slot o = []
reserved_rows (suc count) slot o =
    reserved slot (stored_name (find slot o.slots)) ∷ reserved_rows count (slot + 1) o

unfoldable pub user_rows : ℕ → ℕ → Options → List Row
unfolding find
user_rows zero slot o = []
user_rows (suc count) slot o =
    row slot (stored_name (find slot o.slots)) (stored_has_pin (find slot o.slots))
    ∷ user_rows count (slot + 1) o
