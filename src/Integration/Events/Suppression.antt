-- ===== src/Integration/Events/Suppression.antt =====
-- Which events the activity sensor does not see, and what a report always does.
use Prim.Native.String.{String}
use onesti_lock.Base.{ℕ, pos, Bool, true, false, [], ◌∷◌, none, some, ◌≡◌, ◌↔◌, ◌⊎◌, arith, ◌<◌}
use onesti_lock.Integration.Events.{
  Decoded, zigbee, auto, unattributed, lock, is_credential, is_system_lock, attr_operation_event,
  number, refresh_capabilities, update_activity, fire_event, handle_report, source_of, action_of,
  decoded,
}
use onesti_lock.Integration.Events.Decoding.{word, decode_operation_event-word}

-- An event that is hidden comes from the lock itself: always for an automatic lock, else it is a
-- lock by nobody that has no known source, or that a Zigbee command made while the echo of a wake was awaited.
pub is_system_lock_iff :
    (d : Decoded) (wake_echo_pending : Bool)
    → (is_system_lock d wake_echo_pending ≡ true) ↔ (
        (d.source ≡ auto)
        ⊎ ((d.action ≡ lock)
            × (d.user_slot ≡ none)
            × ((d.source ≡ unattributed) ⊎ ((d.source ≡ zigbee) × (wake_echo_pending ≡ true)))))
unfolding is_system_lock
is_system_lock_iff d wake_echo_pending = ground arith

is_system_lock_credential :
    (d : Decoded) (wake_echo_pending : Bool)
    → is_credential d.source ≡ true
    → is_system_lock d wake_echo_pending ≡ false
unfolding is_system_lock
is_system_lock_credential d wake_echo_pending h = ground arith

-- A code, fingerprint or tag that the lock reports as used is never hidden: for a 16-bit slot, an
-- action byte and the source byte of a credential, whether or not the echo of a wake is awaited,
-- the report updates the activity with that slot and then fires the event.
pub handle_report_credential :
    (slot_name : ℕ → String) (wake_echo_pending : Bool) (slot action source : ℕ)
    → slot < 65536
    → action < 256
    → source < 256
    → is_credential (source_of source) ≡ true
    → handle_report slot_name wake_echo_pending attr_operation_event
        (number (pos (word slot action source)))
      ≡ refresh_capabilities
        ∷ update_activity (some slot) (action_of action) (source_of source)
        ∷ fire_event (decoded slot_name (some slot) (action_of action) (source_of source))
        ∷ []
unfolding handle_report
handle_report_credential slot_name wake_echo_pending slot action source hs ha hb credential =
    rw (decode_operation_event-word slot_name slot action source hs ha hb) (
      ground (
        arith,
        is_system_lock_credential
            (decoded slot_name (some slot) (action_of action) (source_of source)) wake_echo_pending
            credential,
      ))
