-- ===== src/Integration/ConfigFlow.antt =====
-- config_flow.py and __init__.py: which locks the config flow offers, the entry that it makes, and the
-- move of an entry to another Connect Module. Home Assistant's own checks of a unique id are answers
-- here; what a step asks of it is a list of calls.
pub mod Offer
pub mod Moving
use onesti_lock.Base.{
  ℕ, ◌+◌, ◌-◌, Bool, true, false, not, List, [], ◌∷◌, ◌++◌, Option, none, some, ◌==◌, ◌&&◌, ◌||◌,
  if◌then◌else◌, length, drop,
}
use onesti_lock.Integration.Coordinator.{Options}
use onesti_lock.Integration.Services.{lower, same_text}
use onesti_lock.Integration.ZhaDevices.{
  Gateway, OnestiLock, is_zha_loaded, iter_onesti_locks, model_in_zha,
}

pub record Entry : Type 0 where
  pub entry_id : ℕ
  pub ignored : Bool
  pub unique_id : Option (List ℕ)
  pub ieee : Option (List ℕ)

abbrev pub is_text : List ℕ → Option (List ℕ) → Bool
is_text text none = false
is_text text (some other) = same_text other text

-- Whether one entry takes the address off the offer.
unfoldable pub takes : Option ℕ → Bool → List ℕ → Entry → Bool
unfolding same_text
takes skip_entry_id offer_ignored ieee e =
    if (elim skip_entry_id [ none ↦ false | some id ↦ e.entry_id == id ])
    then false
    else if e.ignored
    then not offer_ignored && is_text ieee e.unique_id
    else is_text ieee e.ieee

-- `ieee_str in taken`
unfoldable pub is_taken : Option ℕ → Bool → List ℕ → List Entry → Bool
unfolding takes
is_taken skip_entry_id offer_ignored ieee [] = false
is_taken skip_entry_id offer_ignored ieee (e ∷ es) =
    takes skip_entry_id offer_ignored ieee e || is_taken skip_entry_id offer_ignored ieee es

-- The dict of locks: `locks[ieee] = model` and `locks.get(ieee)`.
unfoldable pub put_lock : OnestiLock → List OnestiLock → List OnestiLock
unfolding same_text
put_lock l [] = l ∷ []
put_lock l (m ∷ ms) =
    let rest = put_lock l ms in if same_text m.ieee l.ieee then l ∷ ms else m ∷ rest

unfoldable pub get_model : List ℕ → List OnestiLock → Option (List ℕ)
unfolding same_text
get_model ieee [] = none
get_model ieee (m ∷ ms) =
    let rest = get_model ieee ms in if same_text m.ieee ieee then some m.model else rest

unfoldable pub offer_each : (List ℕ → Bool) → List OnestiLock → List OnestiLock → List OnestiLock
unfolding put_lock
offer_each taken [] locks = locks
offer_each taken (l ∷ ls) locks =
    offer_each taken ls (if taken l.ieee then locks else put_lock l locks)

-- `_locks_on_offer`
unfoldable pub locks_on_offer : Option ℕ → Bool → List Entry → Gateway → List OnestiLock
unfolding is_taken offer_each
locks_on_offer skip_entry_id offer_ignored entries g =
    offer_each (λ ieee. is_taken skip_entry_id offer_ignored ieee entries) (iter_onesti_locks g) []

-- Home Assistant's answers for a unique id: another flow has it, or an entry has.
pub record UniqueIds : Type 0 where
  pub in_progress : List ℕ → Bool
  pub configured : List ℕ → Bool

pub data Abort : Type 0 where
  zha_not_found no_devices_found already_in_progress already_configured : Abort

pub data Step : Type 0 where
  aborted : Abort → Step
  user_form : List OnestiLock → Bool → Step
  reconfigure_form : List OnestiLock → Option (List ℕ) → Bool → Step
  discovery_confirm_form : OnestiLock → Step
  entry_created : OnestiLock → Step
  entry_moved : OnestiLock → Step

abbrev pub chosen : List OnestiLock → List ℕ → Option (List ℕ) → Step
chosen locks ieee none = user_form locks true
chosen locks ieee (some model) = entry_created (record { ieee = ieee; model = model })

abbrev pub submitted : UniqueIds → List OnestiLock → Option (List ℕ) → Step
submitted ids locks none = user_form locks false
submitted ids locks (some ieee) =
    if ids.in_progress ieee
    then aborted already_in_progress
    else if ids.configured ieee
    then aborted already_configured
    else chosen locks ieee (get_model ieee locks)

abbrev pub offered : UniqueIds → List OnestiLock → Option (List ℕ) → Step
offered ids [] user_input = aborted no_devices_found
offered ids (l ∷ ls) user_input = submitted ids (l ∷ ls) user_input

-- `async_step_user`
unfoldable pub step_user : UniqueIds → List Entry → Gateway → Option (List ℕ) → Step
unfolding locks_on_offer get_model
step_user ids entries g user_input =
    if is_zha_loaded g
    then offered ids (locks_on_offer none false entries g) user_input
    else aborted zha_not_found

-- `async_step_integration_discovery` and the confirmation that it ends in.
unfoldable pub step_discovery : UniqueIds → OnestiLock → Bool → Step
step_discovery ids lock confirmed =
    if confirmed
    then entry_created lock
    else if ids.in_progress lock.ieee
    then aborted already_in_progress
    else if ids.configured lock.ieee
    then aborted already_configured
    else discovery_confirm_form lock

-- `known` of `_async_discover_locks`: an address or a unique id, without regard to case.
abbrev pub names : List ℕ → Option (List ℕ) → Bool
names ieee none = false
names ieee (some []) = false
names ieee (some (c ∷ cs)) = same_text (lower (c ∷ cs)) ieee

unfoldable pub is_known : List ℕ → List Entry → Bool
unfolding same_text
is_known ieee [] = false
is_known ieee (e ∷ es) = names ieee e.ieee || names ieee e.unique_id || is_known ieee es

-- `_async_discover_locks`: the locks that a discovery flow is started for.
unfoldable pub discover : List Entry → List OnestiLock → List OnestiLock
unfolding is_known
discover entries [] = []
discover entries (l ∷ ls) =
    let rest = discover entries ls in if is_known (lower l.ieee) entries then rest else l ∷ rest

-- The last eight characters of the title.
abbrev pub title_part : List ℕ → List ℕ
title_part ieee = drop (length ieee - 8) ieee

pub record Flow : Type 0 where
  pub flow_id : ℕ
  pub unique_id : List ℕ

-- A connection of a device: whether it is a Zigbee address, and its text.
pub record Connection : Type 0 where
  pub is_zigbee : Bool
  pub text : List ℕ

-- A device of this entry; it may be shared with other entries.
pub record OwnDevice : Type 0 where
  pub device_id : ℕ
  pub shared : Bool
  pub connections : List Connection

pub data Call : Type 0 where
  abort_flow : ℕ → Call
  remove_entry : ℕ → Call
  new_connections : ℕ → List Connection → Call
  update_entry : ℕ → OnestiLock → List ℕ → Call

unfoldable pub flow_calls : List ℕ → List Flow → List Call
unfolding same_text
flow_calls ieee [] = []
flow_calls ieee (f ∷ fs) =
    let rest = flow_calls ieee fs in
    if same_text f.unique_id ieee then abort_flow f.flow_id ∷ rest else rest

unfoldable pub ignored_calls : List ℕ → List Entry → List Call
unfolding same_text
ignored_calls ieee [] = []
ignored_calls ieee (e ∷ es) =
    let rest = ignored_calls ieee es in
    if e.ignored && is_text ieee e.unique_id then remove_entry e.entry_id ∷ rest else rest

unfoldable pub kept_connections : List ℕ → List Connection → List Connection
unfolding same_text
kept_connections ieee [] = []
kept_connections ieee (c ∷ cs) =
    let rest = kept_connections ieee cs in
    if not c.is_zigbee || same_text c.text (lower ieee) then c ∷ rest else rest

-- `_drop_replaced_address`; the kept connections are the old ones where there are as many.
unfoldable pub drop_replaced_address : List ℕ → List OwnDevice → List Call
unfolding kept_connections
drop_replaced_address ieee [] = []
drop_replaced_address ieee (d ∷ ds) =
    let rest = drop_replaced_address ieee ds in
    if d.shared || length (kept_connections ieee d.connections) == length d.connections
    then rest
    else new_connections d.device_id (kept_connections ieee d.connections) ∷ rest

-- Another entry that has the address as its own.
unfoldable pub held_by_another : ℕ → List ℕ → List Entry → Bool
unfolding same_text
held_by_another entry_id ieee [] = false
held_by_another entry_id ieee (e ∷ es) =
    not (e.entry_id == entry_id) && is_text ieee e.ieee || held_by_another entry_id ieee es

pub record Reconfigured : Type 0 where
  pub step : Step
  pub calls : List Call

abbrev pub shown : Step → Reconfigured
shown s = record { step = s; calls = [] }

module _ (entry : Entry) (entries : List Entry) (flows : List Flow) (devices : List OwnDevice) where
  abbrev pub moved_to : List OnestiLock → List ℕ → Option (List ℕ) → Reconfigured
  moved_to locks ieee none = shown (reconfigure_form locks entry.ieee true)
  moved_to locks ieee (some model) =
      let lock : OnestiLock = record { ieee = ieee; model = model } in
      record {
        step = entry_moved lock;
        calls =
            flow_calls ieee flows
            ++ (ignored_calls ieee entries
                ++ (drop_replaced_address ieee devices
                    ++ update_entry entry.entry_id lock (title_part ieee) ∷ []));
      }

  abbrev pub resubmitted : List OnestiLock → Option (List ℕ) → Reconfigured
  resubmitted locks none = shown (reconfigure_form locks entry.ieee false)
  resubmitted locks (some ieee) =
      if held_by_another entry.entry_id ieee entries
      then shown (aborted already_configured)
      else moved_to locks ieee (get_model ieee locks)

  abbrev pub reoffered : List OnestiLock → Option (List ℕ) → Reconfigured
  reoffered [] user_input = shown (aborted no_devices_found)
  reoffered (l ∷ ls) user_input = resubmitted (l ∷ ls) user_input

  -- `async_step_reconfigure`
  unfoldable pub step_reconfigure : Gateway → Option (List ℕ) → Reconfigured
  unfolding locks_on_offer get_model held_by_another flow_calls ignored_calls drop_replaced_address
  step_reconfigure g user_input =
      if is_zha_loaded g
      then reoffered (locks_on_offer (some entry.entry_id) true entries g) user_input
      else shown (aborted zha_not_found)
