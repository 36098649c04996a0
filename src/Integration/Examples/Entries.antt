-- ===== src/Integration/Examples/Entries.antt =====
-- Examples of a config entry: its forms, its setup, its registry keys, and its move to another module.
use onesti_lock.Base.{
  [], ◌++◌, ℕ, true, false, not, ok, List, ◌∷◌, none, some, ◌≡◌, ◌⊎◌, ◌↔◌, refl, ◌||◌, ◌&&◌,
}
use onesti_lock.Integration.PinRules.{first_user_slot}
use onesti_lock.Integration.Coordinator.{
  World, Transport, set_pin_code, clear_pin_code, set_pin, clear_pin,
}
use onesti_lock.Integration.Services.{same_text, lower}
use onesti_lock.Integration.Zha.{send_delivered}
use onesti_lock.Integration.OptionsFlow.{
  pin_choices, FormError, unknown, PinInput, running, finished, cancelled, new_flow,
  set_pin_choices, clear_pin_choices,
}
use onesti_lock.Integration.OptionsFlow.Steps.{
  step_set_pin, step_set_pin_progress, step_set_pin_done,
}
use onesti_lock.Integration.OptionsFlow.Offered.{offers, offered_writes_sent}
use onesti_lock.Integration.OptionsFlow.Routes.{
  due_pin, step_set_pin-writes, ended_with, Fails, Succeeds, set_pin_routed_back,
}
use onesti_lock.Integration.ZhaDevices.{
  Gateway, ZhaDevice, manufacturer, is_zha_loaded, lock_in_zha,
}
use onesti_lock.Integration.Lifecycle.{
  Watch, Cluster, EntryData, ZhaChange, setup_entry, on_zha_state_change, zha_changes,
  reload_scheduled,
}
use onesti_lock.Integration.Lifecycle.Availability.{
  is_some, SetsUp, setup_entry_listens, Changes, zha_changes_sound, zha_back_recovers,
}
use onesti_lock.Integration.Migration.{
  Device, OldEntry, find_owner, device_calls, Entity, Taken, migrate_entities,
}
use onesti_lock.Integration.Migration.Keys.{Pass, device_calls-Pass}
use onesti_lock.Integration.Migration.Registry.{has_key, after}
use onesti_lock.Integration.Migration.Entities.{IsMigration, migrate_entities-IsMigration}
use onesti_lock.Integration.ConfigFlow.{Entry, UniqueIds, step_user, step_reconfigure}
use onesti_lock.Integration.ConfigFlow.Offer.{Created, step_user-Created}
use onesti_lock.Integration.ConfigFlow.Moving.{Moved, step_reconfigure-Moved}

abbrev address : List ℕ
address = b'0' ∷ b'0' ∷ b':' ∷ b'A' ∷ []

abbrev other_address : List ℕ
other_address = b'0' ∷ b'0' ∷ b':' ∷ b'B' ∷ []

abbrev lock_at : List ℕ → ZhaDevice
lock_at ieee = record {
  ieee = ieee;
  manufacturer = manufacturer;
  model = b'N' ∷ [];
  has_door_lock_cluster = true;
}

abbrev gateway : Gateway
gateway = some (lock_at address ∷ lock_at other_address ∷ [])

abbrev home : World
home = record {
  options = record {
    slots = (5, record { name = some (b'A' ∷ []); has_pin = some true }) ∷ [];
    reserved_slots = none;
    capabilities = none;
  };
  self = record {
    slots = [];
    lock_capabilities = record {
      num_pin_users = none;
      min_pin_length = none;
      max_pin_length = none;
    };
    capabilities_final = false;
  };
  current = none;
}

abbrev taking : Transport
taking c w = (send_delivered, w)

abbrev code : List ℕ
code = b'1' ∷ b'2' ∷ b'3' ∷ b'4' ∷ []

abbrev input : PinInput
input = record { slot = 5; name = b'A' ∷ []; code = code }

slot_offered : (offers 5 (set_pin_choices home) || offers 5 (clear_pin_choices home)) ≡ true
unfolding offers pin_choices first_user_slot
slot_offered = refl

offered_writes_sent_example :
    ((set_pin 5 (b'A' ∷ []) code taking home).result ≡ ok (taking (set_pin_code 5 code) home).0)
    × ((clear_pin 5 taking home).result ≡ ok (taking (clear_pin_code 5) home).0)
offered_writes_sent_example = offered_writes_sent home 5 (b'A' ∷ []) code taking slot_offered

step_set_pin-writes_example :
    (step_set_pin home (some input) running new_flow).writes
    ≡ due_pin home (some input) new_flow.set_pin_task new_flow.set_pin_error
step_set_pin-writes_example = step_set_pin-writes home (some input) running new_flow

abbrev failure : FormError
failure = record { key = unknown; status = none }

set_pin_routed_back_example :
    Fails
      (step_set_pin_progress running (ended_with input (finished (some failure)) new_flow))
      (step_set_pin home
        (some input)
        running
        (step_set_pin_progress running (ended_with input (finished (some failure)) new_flow)).flow)
      home
      input
      failure
      new_flow
    × Fails
        (step_set_pin_progress running (ended_with input cancelled new_flow))
        (step_set_pin home
          (some input)
          running
          (step_set_pin_progress running (ended_with input cancelled new_flow)).flow)
        home
        input
        (record { key = unknown; status = none })
        new_flow
    × Succeeds
        (step_set_pin_progress running (ended_with input (finished none) new_flow))
        (step_set_pin_done home
          (step_set_pin_progress running (ended_with input (finished none) new_flow)).flow)
        home
        new_flow
set_pin_routed_back_example =
    set_pin_routed_back home input failure (some input) running running new_flow

abbrev cluster : Cluster
cluster = record {
  identity = 7;
  has_on_event = true;
  has_add_listener = false;
  has_remove_listener = false;
}

abbrev entry_data : EntryData
entry_data = record { ieee = address; model = none }

setup_entry_listens_example :
    SetsUp gateway true
      (some cluster)
      false
      (setup_entry gateway true (some cluster) false entry_data)
    × ((setup_entry gateway true (some cluster) false entry_data ≡ none)
        ↔ ((is_zha_loaded gateway && not (lock_in_zha address gateway)) ≡ true))
setup_entry_listens_example = setup_entry_listens gateway true (some cluster) false entry_data

abbrev watching : Watch
watching = record { available = true; listened_cluster = some 7; loss_logged = false }

abbrev zha_stops : ZhaChange
zha_stops = record {
  entry_loaded = true;
  zha_loaded = false;
  any_zha_loaded = false;
  cluster = none;
}

abbrev zha_back_new : ZhaChange
zha_back_new = record {
  entry_loaded = true;
  zha_loaded = true;
  any_zha_loaded = true;
  cluster = some 8;
}

zha_changes_sound_example : Changes watching (zha_changes (zha_stops ∷ zha_back_new ∷ []) watching)
zha_changes_sound_example = zha_changes_sound (zha_stops ∷ zha_back_new ∷ []) watching (λ h. refl)

zha_back_recovers_example :
    (((on_zha_state_change zha_back_new watching).watch.available ≡ true)
      × ((on_zha_state_change zha_back_new watching).watch.listened_cluster ≡ some 8)
      × (is_some (some 8) ≡ true))
    ⊎ ((on_zha_state_change zha_back_new watching).happenings ≡ reload_scheduled ∷ [])
zha_back_recovers_example = zha_back_recovers zha_back_new watching refl refl

abbrev entry_text : List ℕ
entry_text = b'e' ∷ b'1' ∷ []

-- A device that still goes by the address, next to ZHA's own identifier.
abbrev device : Device
device = record {
  id = 1;
  identifiers =
      record { is_own = true; text = address } ∷ record { is_own = false; text = address } ∷ [];
}

apart : same_text (lower entry_text) (lower address) ≡ false
unfolding same_text
apart = refl

device_calls-Pass_example :
    Pass entry_text address
      (find_owner entry_text (device ∷ []))
      (device ∷ [])
      (device_calls entry_text address (device ∷ []))
device_calls-Pass_example = device_calls-Pass entry_text address apart (device ∷ [])

abbrev entity : ℕ → List ℕ → Entity
entity entity_id key = record {
  entity_id = entity_id;
  place = 0;
  unique_id = key ++ b'-' ∷ b'x' ∷ [];
}

-- A row with the old key, in another case, and one that has the new key already.
abbrev old_key : List ℕ
old_key = b'0' ∷ b'0' ∷ b':' ∷ b'a' ∷ []

abbrev rows : List Entity
rows = entity 1 old_key ∷ entity 2 entry_text ∷ entity 3 address ∷ []

abbrev by_rows : Taken
by_rows made place unique_id = has_key place unique_id (after made rows)

migrate_entities-IsMigration_example :
    IsMigration address rows rows (migrate_entities by_rows entry_text address [] rows)
unfolding has_key same_text
migrate_entities-IsMigration_example =
    migrate_entities-IsMigration by_rows entry_text address rows rows
      (record { taken_now = λ made place unique_id. refl }) (refl, (refl, (refl, tt)))
      ((refl, (refl, (refl, tt))), ((refl, (refl, (refl, tt))), ((refl, (refl, (refl, tt))), tt)))

abbrev old_entry : OldEntry
old_entry = record {
  version = 2;
  minor_version = 1;
  ieee = address;
  model = none;
  slots =
      (
        3,
        record {
          kept = record { name = some (b'A' ∷ []); has_pin = some true };
          has_rfid = some false;
        },
      )
      ∷ [];
}

abbrev entry : Entry
entry = record { entry_id = 1; ignored = false; unique_id = some address; ieee = some address }

abbrev ignoring : Entry
ignoring = record { entry_id = 2; ignored = true; unique_id = some other_address; ieee = none }

abbrev no_ids : UniqueIds
no_ids = record { in_progress = λ ieee. false; configured = λ ieee. false }

step_user-Created_example :
    Created no_ids
      (entry ∷ [])
      gateway
      (some other_address)
      (step_user no_ids (entry ∷ []) gateway (some other_address))
step_user-Created_example = step_user-Created no_ids (entry ∷ []) gateway (some other_address)

step_reconfigure-Moved_example :
    Moved entry
      (entry ∷ ignoring ∷ [])
      (record { flow_id = 4; unique_id = other_address } ∷ [])
      []
      gateway
      (step_reconfigure entry
        (entry ∷ ignoring ∷ [])
        (record { flow_id = 4; unique_id = other_address } ∷ [])
        []
        gateway
        (some other_address))
step_reconfigure-Moved_example =
    step_reconfigure-Moved entry (entry ∷ ignoring ∷ [])
      (record { flow_id = 4; unique_id = other_address } ∷ []) [] gateway (some other_address)
