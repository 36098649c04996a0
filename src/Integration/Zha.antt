-- ===== src/Integration/Zha.antt =====
-- zha.py: `ZhaLockTransport`, and what became of a command. Finding the cluster and the lock entity
-- in ZHA's objects, and the calls into zigpy and Home Assistant, are answers of the world here. Time
-- is in milliseconds.
pub mod Outcome
pub mod Retry
use onesti_lock.Base.{
  ℕ, ◌+◌, ◌-◌, ◌*◌, ℤ, pos, negsuc, Bool, true, false, not, List, [], ◌∷◌, ◌++◌, Option, none, some,
  ltb, ◌==◌, ◌&&◌, if◌then◌else◌,
}
use onesti_lock.Integration.PinRules.{Value, integer, Capabilities}

pub data Delivery : Type 0 where
  delivered rejected unreached : Delivery

pub data Rejection : Type 0 where
  duplicate_code memory_full other_rejection : Rejection

pub record SendOutcome : Type 0 where
  pub delivery : Delivery
  pub status : Option ℤ
  pub rejection : Option Rejection

abbrev pub send_delivered : SendOutcome
send_delivered = record { delivery = delivered; status = none; rejection = none }

abbrev pub send_unreached : SendOutcome
send_unreached = record { delivery = unreached; status = none; rejection = none }

unfoldable pub is_delivered : SendOutcome → Bool
is_delivered o = elim o.delivery [ delivered ↦ true | _ ↦ false ]

unfoldable pub lock_answered : SendOutcome → Bool
lock_answered o = elim o.delivery [ unreached ↦ false | _ ↦ true ]

-- The translation keys.
pub data ErrorKey : Type 0 where
  lock_unreachable lock_rejected_duplicate lock_rejected_memory_full lock_rejected : ErrorKey

abbrev rejection_key : Option Rejection → ErrorKey
rejection_key (some duplicate_code) = lock_rejected_duplicate
rejection_key (some memory_full) = lock_rejected_memory_full
rejection_key _ = lock_rejected

unfoldable pub error_key : SendOutcome → Option ErrorKey
error_key o = elim o.delivery [
  | delivered ↦ none
  | unreached ↦ some lock_unreachable
  | rejected ↦ some (rejection_key o.rejection)
]

abbrev pub set_pin_command : ℕ
set_pin_command = 0x0005

abbrev pub is_number : ℕ → Option ℤ → Bool
is_number n none = false
is_number n (some (negsuc m)) = false
is_number n (some (pos m)) = n == m

-- The function `rejected`; `code` is what `int(status)` gives, `none` where it raises.
unfoldable pub rejected_outcome : ℕ → Bool → Option ℤ → SendOutcome
rejected_outcome command has_command_id code = record {
  delivery = rejected;
  status = code;
  rejection = some (
      if command == set_pin_command && not has_command_id
      then (if is_number 3 code
          then duplicate_code
          else if is_number 2 code
          then memory_full
          else other_rejection)
      else other_rejection);
}

-- What `cluster.command` returns: nothing, an exception, or an answer, which may have a command_id
-- (a Default Response) and a status; a status is `none` inside where `int` does not take it.
pub data Reply : Type 0 where
  no_reply : Reply
  exception : Reply
  answer : Bool → Option (Option ℤ) → Reply

-- `_outcome`
abbrev status_outcome : ℕ → Bool → Option ℤ → SendOutcome
status_outcome command has_command_id code =
    if is_number 0 code then send_delivered else rejected_outcome command has_command_id code

unfoldable pub outcome : ℕ → Reply → SendOutcome
unfolding rejected_outcome
outcome command no_reply = send_delivered
outcome command exception = send_unreached
outcome command (answer has_command_id none) = send_delivered
outcome command (answer has_command_id (some code)) = status_outcome command has_command_id code

-- How one `cluster.command` ends.
pub data Attempt : Type 0 where
  index_error : Attempt
  timed_out : Attempt
  zigbee_error : Attempt
  other_error : Attempt
  replied : Reply → Attempt

pub record Transport : Type 0 where
  pub last_wake : Option ℕ

-- WAKE_ECHO_WINDOW_S
abbrev pub wake_echo_window : ℕ
wake_echo_window = 30 * 1000

unfoldable pub wake_echo_pending : ℕ → Transport → Bool
wake_echo_pending now t = elim t.last_wake [
  | none ↦ false
  | some w ↦ ltb (now - w) wake_echo_window
]

-- What a wake meets: the search of ZHA's lock entity raises, finds none, or finds it; then the clock
-- and whether the lock service goes through.
pub data Wake : Type 0 where
  lookup_failed no_entity : Wake
  entity : ℕ → Bool → Wake

-- What goes out: a send of the command, or a lock command that drives the bolt.
pub data Act : Type 0 where
  command_sent : Act
  bolt_driven : Act

-- The call of the lock service is an act whether or not it goes through.
unfoldable pub wake : Wake → Transport → Transport × List Act
wake lookup_failed t = (t, [])
wake no_entity t = (t, [])
wake (entity now goes_through) t =
    (if goes_through then record t { last_wake = some now } else t, bolt_driven ∷ [])

pub record World : Type 0 where
  pub has_cluster : Bool
  pub first : Attempt
  pub wakes : Wake
  pub second : Attempt

pub record Sent : Type 0 where
  pub result : SendOutcome
  pub transport : Transport
  pub acts : List Act

abbrev sent : SendOutcome → Transport → List Act → Sent
sent o t acts = record { result = o; transport = t; acts = acts }

-- The second round of the loop.
abbrev retried : ℕ → Attempt → Transport → List Act → Sent
retried command index_error t acts = sent send_delivered t acts
retried command (replied r) t acts = sent (outcome command r) t acts
retried command _ t acts = sent send_unreached t acts

-- The first round: a timeout or a failed delivery wakes the lock and goes on.
abbrev attempted : ℕ → Attempt → World → Transport → Sent
attempted command index_error w t = sent send_delivered t (command_sent ∷ [])
attempted command (replied r) w t = sent (outcome command r) t (command_sent ∷ [])
attempted command timed_out w t =
    let (t', acts) = wake w.wakes t in
    retried command w.second t' (command_sent ∷ acts ++ command_sent ∷ [])
attempted command _ w t = sent send_unreached t (command_sent ∷ [])

-- `send`
unfoldable pub send : ℕ → World → Transport → Sent
unfolding outcome wake
send command w t = if w.has_cluster then attempted command w.first w t else sent send_unreached t []

-- A key of the attributes that were read: an id, a name that the table has, or another.
pub data AttributeKey : Type 0 where
  by_id : ℕ → AttributeKey
  num_of_pin_users_supported max_pin_len min_pin_len other_name : AttributeKey

pub data CapabilityName : Type 0 where
  num_pin_users max_pin_length min_pin_length : CapabilityName

-- _CAPABILITY_NAMES
unfoldable pub capability_name : AttributeKey → Option CapabilityName
capability_name (by_id n) =
    if n == 0x0012
    then some num_pin_users
    else if n == 0x0017
    then some max_pin_length
    else if n == 0x0018
    then some min_pin_length
    else none
capability_name num_of_pin_users_supported = some num_pin_users
capability_name max_pin_len = some max_pin_length
capability_name min_pin_len = some min_pin_length
capability_name other_name = none

abbrev put : CapabilityName → ℤ → Capabilities → Capabilities
put num_pin_users v caps = record caps { num_pin_users = some (integer v) }
put max_pin_length v caps = record caps { max_pin_length = some (integer v) }
put min_pin_length v caps = record caps { min_pin_length = some (integer v) }

abbrev put_read : Option CapabilityName → Option ℤ → Capabilities → Capabilities
put_read (some name) (some v) caps = put name v caps
put_read _ _ caps = caps

abbrev no_capabilities : Capabilities
no_capabilities = record { num_pin_users = none; min_pin_length = none; max_pin_length = none }

unfoldable pub collect : List (AttributeKey × Option ℤ) → Capabilities → Capabilities
unfolding capability_name
collect [] caps = caps
collect ((key, value) ∷ rest) caps = collect rest (put_read (capability_name key) value caps)

-- `read_capabilities`: `none` for no cluster and for a read that raised, else the success dict.
unfoldable pub read_capabilities :
    Bool → Option (List (AttributeKey × Option ℤ)) → Option Capabilities
unfolding collect
read_capabilities false result = none
read_capabilities true none = none
read_capabilities true (some success) = some (collect success no_capabilities)
