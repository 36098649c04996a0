-- ===== src/Integration/Lifecycle.antt =====
-- __init__.py and coordinator.py: a config entry from its setup on, and whether lock events reach it.
-- A cluster is known by a number for its identity; the hooks that it offers are an answer of zigpy.
pub mod Availability
use onesti_lock.Base.{
  ℕ, Bool, true, false, not, List, [], ◌∷◌, ◌++◌, Option, none, some, ◌==◌, ◌&&◌, ◌||◌,
  if◌then◌else◌,
}
use onesti_lock.Integration.Coordinator.{Options, first_user_slot}
use onesti_lock.Integration.PinRules as PinRules
use onesti_lock.Integration.ZhaDevices.{Gateway, is_zha_loaded, model_in_zha, lock_in_zha}

-- What the coordinator knows of its events. `loss_logged` is the entry's place in _LOSS_LOGGED, which
-- outlives the coordinator.
pub record Watch : Type 0 where
  pub available : Bool
  pub listened_cluster : Option ℕ
  pub loss_logged : Bool

pub data Happening : Type 0 where
  logged_stopped logged_back : Happening
  listeners_notified : Happening
  issue_created issue_deleted : Happening
  subscribed unsubscribed : ℕ → Happening
  reload_scheduled refresh_scheduled : Happening

pub record Watched : Type 0 where
  pub watch : Watch
  pub happenings : List Happening

abbrev pub same_flag : Bool → Bool → Bool
same_flag true b = b
same_flag false b = not b

-- `_log_availability`
abbrev pub log_availability : Bool → Watch → Watched
log_availability true w =
    if w.loss_logged
    then record { watch = record w { loss_logged = false }; happenings = logged_back ∷ [] }
    else record { watch = w; happenings = [] }
log_availability false w =
    if w.loss_logged
    then record { watch = w; happenings = [] }
    else record { watch = record w { loss_logged = true }; happenings = logged_stopped ∷ [] }

-- `set_available`
unfoldable pub set_available : Bool → Bool → Watch → Watched
set_available available quiet w =
    let changed = not (same_flag available w.available) in
    let w' : Watch = record w { available = available } in
    let logged : Watched =
      if quiet then record { watch = w'; happenings = [] } else log_availability available w' in
    record {
      watch = logged.watch;
      happenings = logged.happenings ++ (if changed then listeners_notified ∷ [] else []);
    }

-- The setter of `listened_cluster`, with a cluster.
abbrev pub listen_to : ℕ → Watch → Watched
listen_to cluster w = set_available true false (record w { listened_cluster = some cluster })

-- The hooks of a cluster, as `_subscribe` asks for them.
pub record Cluster : Type 0 where
  pub identity : ℕ
  pub has_on_event : Bool
  pub has_add_listener : Bool
  pub has_remove_listener : Bool

-- `_subscribe`: whether one of the two hooks is there.
unfoldable pub can_subscribe : Cluster → Bool
can_subscribe c = c.has_on_event || c.has_add_listener && c.has_remove_listener

abbrev before : List Happening → Watched → Watched
before hs x = record x { happenings = hs ++ x.happenings }

abbrev and_then : Watched → List Happening → Watched
and_then x hs = record x { happenings = x.happenings ++ hs }

abbrev pub missing : Watch → Watched
missing w = before (issue_created ∷ []) (set_available false true w)

abbrev pub registered : Cluster → Watch → Watched
registered c w =
    if can_subscribe c
    then and_then (before (subscribed c.identity ∷ []) (listen_to c.identity w))
        (issue_deleted ∷ [])
    else missing w

-- `_start_event_listener` over `register_event_listener`
unfoldable pub start_event_listener : Option Cluster → Watch → Watched
unfolding set_available can_subscribe
start_event_listener none w = missing w
start_event_listener (some c) w = registered c w

-- The entry's own data.
pub record EntryData : Type 0 where
  pub ieee : List ℕ
  pub model : Option (List ℕ)

abbrev pub model_or_empty : Option (List ℕ) → List ℕ
model_or_empty none = []
model_or_empty (some m) = m

abbrev filled_with : List ℕ → EntryData → EntryData
filled_with [] d = d
filled_with (c ∷ cs) d = record d { model = some (c ∷ cs) }

abbrev model_missing : List ℕ → Gateway → EntryData → EntryData
model_missing [] g d = filled_with (model_in_zha d.ieee g) d
model_missing (c ∷ cs) g d = d

-- The model that setup fills in where none is stored and ZHA knows one.
unfoldable pub fill_model : Gateway → EntryData → EntryData
fill_model g d = model_missing (model_or_empty d.model) g d

pub record SetUp : Type 0 where
  pub entry : EntryData
  pub watch : Watch
  pub happenings : List Happening

-- `none` is ConfigEntryNotReady. The arguments are ZHA's gateway, whether one of its entries is
-- loaded, and the cluster that the transport finds.
abbrev pub started : Gateway → Bool → Option Cluster → Watch → Watched
started g zha_entry_loaded cluster w =
    if not (is_zha_loaded g) && not zha_entry_loaded
    then set_available false false w
    else and_then (start_event_listener cluster w) (refresh_scheduled ∷ [])

-- `async_setup_entry`, after the registry keys; the coordinator starts available where ZHA is up.
unfoldable pub setup_entry : Gateway → Bool → Option Cluster → Bool → EntryData → Option SetUp
unfolding start_event_listener fill_model
setup_entry g zha_entry_loaded cluster loss_logged d =
    if is_zha_loaded g && not (lock_in_zha d.ieee g)
    then none
    else (let x = started g zha_entry_loaded cluster (record {
      available = is_zha_loaded g;
      listened_cluster = none;
      loss_logged = loss_logged;
    }) in
        some (record { entry = fill_model g d; watch = x.watch; happenings = x.happenings }))

-- What a state change of a ZHA entry finds: this entry's state, that entry's, any entry's, and the
-- cluster that the transport finds now.
pub record ZhaChange : Type 0 where
  pub entry_loaded : Bool
  pub zha_loaded : Bool
  pub any_zha_loaded : Bool
  pub cluster : Option ℕ

abbrev pub is_cluster : ℕ → Option ℕ → Bool
is_cluster n none = false
is_cluster n (some m) = m == n

abbrev pub back : Option ℕ → Option ℕ → Watch → Watched
back none cluster w = record { watch = w; happenings = reload_scheduled ∷ [] }
back (some listened) cluster w =
    if is_cluster listened cluster
    then set_available true false w
    else record { watch = w; happenings = reload_scheduled ∷ [] }

-- `_on_zha_state_change` of `_watch_zha_entries`
unfoldable pub on_zha_state_change : ZhaChange → Watch → Watched
unfolding set_available
on_zha_state_change c w =
    if not c.entry_loaded
    then record { watch = w; happenings = [] }
    else if not c.zha_loaded
    then (if not c.any_zha_loaded
        then set_available false false w
        else record { watch = w; happenings = [] })
    else back w.listened_cluster c.cluster w

-- A sequence of state changes.
unfoldable pub zha_changes : List ZhaChange → Watch → Watched
unfolding on_zha_state_change
zha_changes [] w = record { watch = w; happenings = [] }
zha_changes (c ∷ cs) w =
    let x = on_zha_state_change c w in before x.happenings (zha_changes cs x.watch)

-- `_async_options_updated`: a reload exactly where the first user slot moved since setup.
unfoldable pub options_updated : Options → ℕ → List Happening
unfolding PinRules.first_user_slot
options_updated o setup_first_user_slot =
    if PinRules.first_user_slot o.reserved_slots == setup_first_user_slot
    then []
    else reload_scheduled ∷ []
