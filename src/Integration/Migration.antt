-- ===== src/Integration/Migration.antt =====
-- __init__.py: a stored entry brought up to date, and its registry keys moved from the lock's address
-- to the entry's id. The registries are Home Assistant's: what they hold is an argument, and a step
-- gives the calls that it makes. Texts are their code points.
pub mod Keys
pub mod Registry
pub mod Entities
pub mod Versions
use onesti_lock.Base.{
  ℕ, ◌+◌, Bool, true, false, not, List, [], ◌∷◌, ◌++◌, Option, none, some, ltb, ◌==◌, ◌&&◌,
  if◌then◌else◌, length, drop, map,
}
use onesti_lock.Integration.Services.{lower, same_text}
use onesti_lock.Integration.Coordinator.{Stored}
use onesti_lock.Integration.ZhaDevices.{Gateway, model_in_zha}

-- An identifier of a device: whether its domain is this integration's, and its text; of another
-- domain the text stands for both.
pub record Identifier : Type 0 where
  pub is_own : Bool
  pub text : List ℕ

pub record Device : Type 0 where
  pub id : ℕ
  pub identifiers : List Identifier

pub data DeviceCall : Type 0 where
  new_identifiers : ℕ → List Identifier → DeviceCall
  remove_entry : ℕ → DeviceCall

-- `identifier[0] == DOMAIN and identifier[1].lower() == ieee.lower()`
unfoldable pub is_stale : List ℕ → Identifier → Bool
unfolding same_text
is_stale ieee i = i.is_own && same_text (lower i.text) (lower ieee)

unfoldable pub has_stale : List ℕ → List Identifier → Bool
unfolding is_stale
has_stale ieee [] = false
has_stale ieee (i ∷ is) = let rest = has_stale ieee is in if is_stale ieee i then true else rest

-- `device.identifiers - stale`
unfoldable pub without_stale : List ℕ → List Identifier → List Identifier
unfolding is_stale
without_stale ieee [] = []
without_stale ieee (i ∷ is) =
    let rest = without_stale ieee is in if is_stale ieee i then rest else i ∷ rest

abbrev pub own_identifier : List ℕ → Identifier
own_identifier entry_id = record { is_own = true; text = entry_id }

unfoldable pub is_own_identifier : List ℕ → Identifier → Bool
unfolding same_text
is_own_identifier entry_id i = i.is_own && same_text i.text entry_id

unfoldable pub has_own : List ℕ → List Identifier → Bool
unfolding is_own_identifier
has_own entry_id [] = false
has_own entry_id (i ∷ is) =
    let rest = has_own entry_id is in if is_own_identifier entry_id i then true else rest

-- The device that already carries the entry's id.
unfoldable pub find_owner : List ℕ → List Device → Option ℕ
unfolding has_own
find_owner entry_id [] = none
find_owner entry_id (d ∷ ds) =
    let rest = find_owner entry_id ds in if has_own entry_id d.identifiers then some d.id else rest

abbrev pub is_another : ℕ → Option ℕ → Bool
is_another id none = false
is_another id (some owner) = not (owner == id)

abbrev pub or_first : Option ℕ → ℕ → Option ℕ
or_first none id = some id
or_first (some owner) id = some owner

-- The loop over the entry's devices; a set with an element added twice holds it once, which the list
-- does not show.
unfoldable pub migrate_devices : List ℕ → List ℕ → Option ℕ → List Device → List DeviceCall
unfolding has_stale without_stale
migrate_devices entry_id ieee owner [] = []
migrate_devices entry_id ieee owner (d ∷ ds) =
    let skipped = migrate_devices entry_id ieee owner ds in
    let updated = migrate_devices entry_id ieee (or_first owner d.id) ds in
    if has_stale ieee d.identifiers
    then (if is_another d.id owner
        then remove_entry d.id ∷ skipped
        else new_identifiers d.id (without_stale ieee d.identifiers ++ own_identifier entry_id ∷ [])
          ∷ updated)
    else skipped

abbrev pub device_calls : List ℕ → List ℕ → List Device → List DeviceCall
device_calls entry_id ieee ds = migrate_devices entry_id ieee (find_owner entry_id ds) ds

-- A row of the entity registry: a key within its domain and platform, both of which stay.
pub record Entity : Type 0 where
  pub entity_id : ℕ
  pub place : ℕ
  pub unique_id : List ℕ

pub data EntityCall : Type 0 where
  remove_entity : ℕ → EntityCall
  new_unique_id : ℕ → ℕ → List ℕ → EntityCall

-- `text.startswith(prefix)`
unfoldable pub starts_with : List ℕ → List ℕ → Bool
starts_with [] text = true
starts_with (p ∷ ps) [] = false
starts_with (p ∷ ps) (c ∷ cs) = p == c && starts_with ps cs

abbrev pub prefix_of : List ℕ → List ℕ
prefix_of ieee = lower ieee ++ b'-' ∷ []

unfoldable pub moved_id : List ℕ → List ℕ → List ℕ → List ℕ
moved_id entry_id ieee unique_id = entry_id ++ b'-' ∷ drop (length (prefix_of ieee)) unique_id

-- `async_get_entity_id`: whether a key is taken, after the calls that were made so far.
abbrev pub Taken : Type 0
Taken = List EntityCall → ℕ → List ℕ → Bool

unfoldable pub migrate_entities :
    Taken → List ℕ → List ℕ → List EntityCall → List Entity → List EntityCall
unfolding starts_with moved_id
migrate_entities taken entry_id ieee made [] = made
migrate_entities taken entry_id ieee made (e ∷ es) =
    let unique_id = moved_id entry_id ieee e.unique_id in
    let skipped = migrate_entities taken entry_id ieee made es in
    let removed =
      migrate_entities taken entry_id ieee (made ++ remove_entity e.entity_id ∷ []) es in
    let moved =
      migrate_entities taken entry_id ieee
        (made ++ new_unique_id e.entity_id e.place unique_id ∷ []) es in
    if starts_with (prefix_of ieee) (lower e.unique_id)
    then (if taken made e.place unique_id then removed else moved)
    else skipped

-- A slot as version 2.1 stored it: what is kept, and a field that nothing set.
pub record OldSlot : Type 0 where
  pub kept : Stored
  pub has_rfid : Option Bool

pub record OldEntry : Type 0 where
  pub version : ℕ
  pub minor_version : ℕ
  pub ieee : List ℕ
  pub model : Option (List ℕ)
  pub slots : List (ℕ × OldSlot)

abbrev pub drop_fields : ℕ × OldSlot → ℕ × OldSlot
drop_fields (key, slot) = (key, record { kept = slot.kept; has_rfid = none })

-- 2.1 to 2.2
unfoldable pub to_minor_2 : OldEntry → OldEntry
to_minor_2 e =
    if ltb e.minor_version 2
    then record e { version = 2; minor_version = 2; slots = map drop_fields e.slots }
    else e

abbrev or_zha : Option (List ℕ) → List ℕ → List ℕ
or_zha none found = found
or_zha (some []) found = found
or_zha (some (c ∷ cs)) found = c ∷ cs

-- 2.2 to 2.3
unfoldable pub to_minor_3 : Gateway → OldEntry → OldEntry
to_minor_3 g e =
    if ltb e.minor_version 3
    then record e {
      version = 2;
      minor_version = 3;
      model = some (or_zha e.model (model_in_zha e.ieee g));
    }
    else e

-- `async_migrate_entry`: `none` is its False, for an entry of a newer release.
unfoldable pub migrate_entry : Gateway → OldEntry → Option OldEntry
unfolding to_minor_2 to_minor_3
migrate_entry g e = if ltb 2 e.version then none else some (to_minor_3 g (to_minor_2 e))
