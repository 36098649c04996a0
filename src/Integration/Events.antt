-- ===== src/Integration/Events.antt =====
-- events.py: decoding the operation event, and which events reach the activity sensor.
pub mod Decoding
pub mod Suppression
use onesti_lock.Base.{
  ℕ, ◌+◌, ◌/◌, ◌%◌, ℤ, pos, negsuc, bit_and, Bool, true, false, not, List, [], ◌∷◌, ◌++◌, Option,
  none, some, leb, ◌==◌, ◌&&◌, ◌||◌, if◌then◌else◌,
}
use Prim.Native.String.{String}

-- ATTR_OPERATION_EVENT
abbrev pub attr_operation_event : ℕ
attr_operation_event = 0x0100

pub data Source : Type 0 where
  zigbee keypad fingerprint rfid auto unattributed unknown_source : Source

pub data Action : Type 0 where
  lock unlock unknown_action : Action

-- SOURCE_MAP and ACTION_MAP, with the default of their `get`.
unfoldable pub source_of : ℕ → Source
source_of n =
    if n == 0x00
    then zigbee
    else if n == 0x02
    then keypad
    else if n == 0x03
    then fingerprint
    else if n == 0x04
    then rfid
    else if n == 0x05
    then unattributed
    else if n == 0x0a
    then auto
    else unknown_source

unfoldable pub action_of : ℕ → Action
action_of n = if n == 0x01 then lock else if n == 0x02 then unlock else unknown_action

-- CREDENTIAL_SOURCES
abbrev pub is_credential : Source → Bool
is_credential keypad = true
is_credential fingerprint = true
is_credential rfid = true
is_credential _ = false

pub record Decoded : Type 0 where
  pub user_slot : Option ℕ
  pub user_name : Option String
  pub action : Action
  pub source : Source

-- `slot_name` is the coordinator's `get_slot_name`.
module _ (slot_name : ℕ → String) where
  abbrev pub decoded : Option ℕ → Action → Source → Decoded
  decoded user_slot action source = record {
    user_slot = user_slot;
    user_name = elim user_slot [ none ↦ none | some n ↦ some (slot_name n) ];
    action = action;
    source = source;
  }

  abbrev pub decode_word : ℕ → Decoded
  decode_word val =
      let user_slot = bit_and val 0xffff in
      let action = action_of (bit_and (val / 65536) 0xff) in
      let source = source_of (bit_and (val / 16777216) 0xff) in
      let no_user = (user_slot == 0) && not (is_credential source) in
      decoded (if no_user then none else some user_slot) action source

  unfoldable pub decode_operation_event : ℤ → Option Decoded
  unfolding action_of source_of
  decode_operation_event (negsuc n) = none
  decode_operation_event (pos val) = if leb val 0xffffffff then some (decode_word val) else none

abbrev is_lock : Action → Bool
is_lock lock = true
is_lock _ = false

abbrev is_none : Option ℕ → Bool
is_none none = true
is_none (some n) = false

abbrev suppressed_source : Source → Bool → Bool → Bool
suppressed_source auto anonymous_lock wake_echo_pending = true
suppressed_source unattributed anonymous_lock wake_echo_pending = anonymous_lock
suppressed_source zigbee anonymous_lock wake_echo_pending = anonymous_lock && wake_echo_pending
suppressed_source _ anonymous_lock wake_echo_pending = false

unfoldable pub is_system_lock : Decoded → Bool → Bool
is_system_lock d wake_echo_pending =
    suppressed_source d.source (is_lock d.action && is_none d.user_slot) wake_echo_pending

-- What a report carries: a number, an object with a numeric `value`, or neither.
pub data RawValue : Type 0 where
  number : ℤ → RawValue
  wrapped : ℤ → RawValue
  unreadable : RawValue

abbrev raw_int : RawValue → Option ℤ
raw_int (number n) = some n
raw_int (wrapped n) = some n
raw_int unreadable = none

-- What the handler does, in its order.
pub data Effect : Type 0 where
  refresh_capabilities : Effect
  update_activity : Option ℕ → Action → Source → Effect
  fire_event : Decoded → Effect

abbrev react : Bool → Option Decoded → List Effect
react wake_echo_pending none = []
react wake_echo_pending (some d) =
    let fired = fire_event d ∷ [] in
    if is_system_lock d wake_echo_pending
    then fired
    else update_activity d.user_slot d.action d.source ∷ fired

-- `_handle_report`
unfoldable pub handle_report : (ℕ → String) → Bool → ℕ → RawValue → List Effect
unfolding decode_operation_event is_system_lock
handle_report slot_name wake_echo_pending attribute_id raw =
    refresh_capabilities
    ∷ (if attribute_id == attr_operation_event
        then (elim (raw_int raw) [
          | none ↦ []
          | some val ↦ react wake_echo_pending (decode_operation_event slot_name val)
        ])
        else [])
