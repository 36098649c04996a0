-- ===== src/Integration/Coordinator.antt =====
-- coordinator.py: the slots of one lock, as its config entry stores them and as the coordinator
-- holds them. A slot number is its own key here, where the source's key is its decimal text. What
-- the transport answers, and what else happens to the entry while it is awaited, is a parameter.
pub mod Saved
pub mod View
pub mod Guards
use onesti_lock.Base.{
  ℕ, Bool, true, false, not, Result, ok, err, List, [], ◌∷◌, ◌++◌, Option, none, some, ltb, ◌==◌,
  ◌&&◌, if◌then◌else◌,
}
use onesti_lock.Base.Dict.{find, put, remove, map_values}
use onesti_lock.Integration.PinRules as PinRules
use onesti_lock.Integration.PinRules.{Value, Capabilities}
use onesti_lock.Integration.Zha.{SendOutcome, is_delivered, lock_answered}

pub record Slot : Type 0 where
  pub name : List ℕ
  pub has_pin : Bool

-- DEFAULT_SLOT
abbrev pub default_slot : Slot
default_slot = record { name = []; has_pin = false }

-- A slot as the options store it; other fields are never read.
pub record Stored : Type 0 where
  pub name : Option (List ℕ)
  pub has_pin : Option Bool

-- entry.options; a missing "slots" is read as an empty dict.
pub record Options : Type 0 where
  pub slots : List (ℕ × Stored)
  pub reserved_slots : Option Value
  pub capabilities : Option Capabilities

pub record Coordinator : Type 0 where
  pub slots : List (ℕ × Slot)
  pub lock_capabilities : Capabilities
  pub capabilities_final : Bool

-- The entry, this coordinator, and the entry's own coordinator where a reload has made another.
pub record World : Type 0 where
  pub options : Options
  pub self : Coordinator
  pub current : Option Coordinator

-- What leaves the coordinator; the listeners are its own or the other coordinator's.
pub data Command : Type 0 where
  set_pin_code : ℕ → List ℕ → Command
  clear_pin_code : ℕ → Command

pub data Effect : Type 0 where
  sent : Command → Effect
  refresh_scheduled : Effect
  notified_other : Effect
  notified : Effect

abbrev or_default {ℓ} : {A : Type ℓ} → A → Option A → A
or_default a none = a
or_default a (some b) = b

-- `{**DEFAULT_SLOT, **{f: v[f] for f in DEFAULT_SLOT if f in v}}`
abbrev pub fill : Stored → Slot
fill v = record { name = or_default [] v.name; has_pin = or_default false v.has_pin }

abbrev pub whole : Slot → Stored
whole s = record { name = some s.name; has_pin = some s.has_pin }

unfoldable pub loaded : Options → List (ℕ × Slot)
loaded o = map_values fill o.slots

-- `_load_slots`
abbrev pub load_slots : World → World
load_slots w = record w { self = record w.self { slots = loaded w.options } }

-- `adopt_stored_slots`, without its listeners.
abbrev adopted : Options → Option Coordinator → Option Coordinator
adopted o none = none
adopted o (some c) = some (record c { slots = loaded o })

-- `_save_slots`
unfoldable pub save_slots : World → World
unfolding loaded
save_slots w =
    let options : Options = record w.options { slots = map_values whole w.self.slots } in
    record w { options = options; current = adopted options w.current }

abbrev told_other : Option Coordinator → List Effect
told_other none = []
told_other (some c) = notified_other ∷ []

-- The save and the notification that follow every change.
abbrev pub saved : World → World × List Effect
saved w = (save_slots w, told_other w.current ++ notified ∷ [])

abbrev pub slot_of : ℕ → List (ℕ × Slot) → Slot
slot_of slot slots = or_default default_slot (find slot slots)

unfoldable pub get_slot : ℕ → Coordinator → Slot
unfolding find
get_slot slot c = slot_of slot c.slots

-- A slot's own name, or one of the two translated fallbacks.
pub data SlotName : Type 0 where
  own : List ℕ → SlotName
  master : SlotName
  numbered : ℕ → SlotName

abbrev name_or_fallback : ℕ → List ℕ → SlotName
name_or_fallback slot [] = if slot == 0 then master else numbered slot
name_or_fallback slot (c ∷ cs) = own (c ∷ cs)

unfoldable pub get_slot_name : ℕ → Coordinator → SlotName
unfolding find
get_slot_name slot c = name_or_fallback slot (slot_of slot c.slots).name

abbrev pub first_user_slot : World → ℕ
first_user_slot w = PinRules.first_user_slot w.options.reserved_slots

abbrev pub max_user_slot : World → ℕ
max_user_slot w = PinRules.max_user_slot w.self.lock_capabilities

abbrev pub update : ℕ → Slot → World → World
update slot s w = record w { self = record w.self { slots = put slot s w.self.slots } }

abbrev pub is_default : Slot → Bool
is_default s = elim s.name [ [] ↦ not s.has_pin | c ∷ cs ↦ false ]

-- The branch of an empty name, on a slot that is there.
abbrev pub unnamed : ℕ → Slot → World → World × List Effect
unnamed slot s w =
    let s' : Slot = record s { name = [] } in
    saved (
      if is_default s'
      then record w { self = record w.self { slots = remove slot w.self.slots } }
      else update slot s' w)

abbrev pub name_removed : ℕ → Option Slot → World → World × List Effect
name_removed slot none w = (w, [])
name_removed slot (some s) w = unnamed slot s w

abbrev pub renamed : ℕ → List ℕ → World → World × List Effect
renamed slot [] w = name_removed slot (find slot w.self.slots) w
renamed slot (c ∷ cs) w =
    saved (update slot (record (slot_of slot w.self.slots) { name = c ∷ cs }) w)

unfoldable pub set_slot_name : ℕ → List ℕ → World → World × List Effect
unfolding loaded find put remove save_slots
set_slot_name slot name w = renamed slot name (load_slots w)

-- What `await transport.send` answers, and the world it leaves.
abbrev pub Transport : Type 0
Transport = Command → World → SendOutcome × World

pub data WriteError : Type 0 where
  reserved_slot : WriteError

pub record Written : Type 0 where
  pub result : Result WriteError SendOutcome
  pub world : World
  pub effects : List Effect

-- `schedule_capability_refresh` after an answer.
abbrev scheduled : SendOutcome → World → List Effect
scheduled o w =
    if lock_answered o && not w.self.capabilities_final then refresh_scheduled ∷ [] else []

abbrev pub followed : Command → (World → World) → SendOutcome × World → Written
followed c change (o, w) =
    let before : List Effect = sent c ∷ scheduled o w in
    if is_delivered o
    then (let (w', effects) = saved (change (load_slots w)) in
        record { result = ok o; world = w'; effects = before ++ effects })
    else record { result = ok o; world = w; effects = before }

-- The three PIN operations: the guard, the send, and the change that a delivered send commits.
abbrev pub write : ℕ → Command → (World → World) → Transport → World → Written
write slot c change send w =
    if ltb slot (first_user_slot w)
    then record { result = err reserved_slot; world = w; effects = [] }
    else followed c change (send c w)

unfoldable pub set_pin : ℕ → List ℕ → List ℕ → Transport → World → Written
unfolding loaded find put save_slots is_delivered lock_answered PinRules.first_user_slot
set_pin slot name code send w =
    write slot (set_pin_code slot code) (update slot (record { name = name; has_pin = true })) send
      w

unfoldable pub clear_pin : ℕ → Transport → World → Written
unfolding loaded find put save_slots is_delivered lock_answered PinRules.first_user_slot
clear_pin slot send w =
    write slot (clear_pin_code slot)
      (λ v. update slot (record (slot_of slot v.self.slots) { has_pin = false }) v) send w

unfoldable pub clear_slot : ℕ → Transport → World → Written
unfolding loaded find put save_slots is_delivered lock_answered PinRules.first_user_slot
clear_slot slot send w = write slot (clear_pin_code slot) (update slot default_slot) send w

-- `async_refresh_capabilities`: the world once the lock for reads is held, and then what the read
-- answers and the world that it leaves.
abbrev pub stored : Option Capabilities × World → World × List Effect
stored (none, w) = (w, [])
stored (some caps, w) = (
  record w {
    self = record w.self { lock_capabilities = caps; capabilities_final = true };
    options = record w.options { capabilities = some caps };
  },
  notified ∷ [],
)

unfoldable pub refresh_capabilities :
    (World → World) → (World → Option Capabilities × World) → World → World × List Effect
refresh_capabilities acquire read w =
    if w.self.capabilities_final
    then (w, [])
    else (let w' = acquire w in if w'.self.capabilities_final then (w', []) else stored (read w'))
