-- ===== src/Integration/Lifecycle/Availability.antt =====
-- Whether the entities say that lock events arrive, from setup on and through ZHA's reloads.
use onesti_lock.Base.{
  ℕ, Bool, true, false, not, List, [], ◌∷◌, ◌++◌, Option, none, some, ◌&&◌, ◌||◌, if◌then◌else◌,
  ◌≡◌, ◌⊎◌, ◌↔◌, inl, inr, refl, sym, ap, ◌∙◌, arith, Bool-cases,
}
use onesti_lock.Integration.ZhaDevices.{Gateway, is_zha_loaded, lock_in_zha}
use onesti_lock.Integration.Lifecycle.{
  Watch, Happening, logged_stopped, logged_back, listeners_notified, issue_created, issue_deleted,
  subscribed, unsubscribed, reload_scheduled, refresh_scheduled, Watched, set_available, Cluster,
  can_subscribe, missing, registered, start_event_listener, EntryData, SetUp, setup_entry, started,
  ZhaChange, back, is_cluster, on_zha_state_change, zha_changes,
}

abbrev pub is_some : Option ℕ → Bool
is_some none = false
is_some (some n) = true

abbrev pub cluster_of : Option Cluster → Option ℕ
cluster_of none = none
cluster_of (some c) = if can_subscribe c then some c.identity else none

-- The listener that a setup should end with.
abbrev pub listener_of : Gateway → Bool → Option Cluster → Option ℕ
listener_of g zha_entry_loaded cluster =
    if is_zha_loaded g || zha_entry_loaded then cluster_of cluster else none

-- The state after a line of the log, `none` for a line that must not come.
unfoldable pub logs : Bool → List Happening → Option Bool
logs b [] = some b
logs b (logged_stopped ∷ hs) = let rest = logs true hs in if b then none else rest
logs b (logged_back ∷ hs) = let rest = logs false hs in if b then rest else none
logs b (listeners_notified ∷ hs) = logs b hs
logs b (issue_created ∷ hs) = logs b hs
logs b (issue_deleted ∷ hs) = logs b hs
logs b (subscribed n ∷ hs) = logs b hs
logs b (unsubscribed n ∷ hs) = logs b hs
logs b (reload_scheduled ∷ hs) = logs b hs
logs b (refresh_scheduled ∷ hs) = logs b hs

logs_append :
    (b c : Bool) (hs more : List Happening) → logs b hs ≡ some c → logs b (hs ++ more) ≡ logs c more
unfolding logs
logs_append b c [] more h = ground arith
logs_append false c (logged_stopped ∷ hs) more h = logs_append true c hs more h
logs_append true c (logged_stopped ∷ hs) more h = cc
logs_append true c (logged_back ∷ hs) more h = logs_append false c hs more h
logs_append false c (logged_back ∷ hs) more h = cc
logs_append b c (listeners_notified ∷ hs) more h = logs_append b c hs more h
logs_append b c (issue_created ∷ hs) more h = logs_append b c hs more h
logs_append b c (issue_deleted ∷ hs) more h = logs_append b c hs more h
logs_append b c (subscribed n ∷ hs) more h = logs_append b c hs more h
logs_append b c (unsubscribed n ∷ hs) more h = logs_append b c hs more h
logs_append b c (reload_scheduled ∷ hs) more h = logs_append b c hs more h
logs_append b c (refresh_scheduled ∷ hs) more h = logs_append b c hs more h

abbrev pub LogsWell : Watch → Watched → Type 0
LogsWell w x = logs w.loss_logged x.happenings ≡ some x.watch.loss_logged

-- The same over the parts of a watch, each of its four flags decided.
set_available_cases :
    (b quiet available loss_logged : Bool) (l : Option ℕ)
    → let w : Watch = record {
      available = available;
      listened_cluster = l;
      loss_logged = loss_logged;
    } in
      LogsWell w (set_available b quiet w)
      × ((set_available b quiet w).watch.available ≡ b)
      × ((set_available b quiet w).watch.listened_cluster ≡ l)
unfolding set_available logs
set_available_cases true true true true l = (refl, refl, refl)
set_available_cases true true true false l = (refl, refl, refl)
set_available_cases true true false true l = (refl, refl, refl)
set_available_cases true true false false l = (refl, refl, refl)
set_available_cases true false true true l = (refl, refl, refl)
set_available_cases true false true false l = (refl, refl, refl)
set_available_cases true false false true l = (refl, refl, refl)
set_available_cases true false false false l = (refl, refl, refl)
set_available_cases false true true true l = (refl, refl, refl)
set_available_cases false true true false l = (refl, refl, refl)
set_available_cases false true false true l = (refl, refl, refl)
set_available_cases false true false false l = (refl, refl, refl)
set_available_cases false false true true l = (refl, refl, refl)
set_available_cases false false true false l = (refl, refl, refl)
set_available_cases false false false true l = (refl, refl, refl)
set_available_cases false false false false l = (refl, refl, refl)

set_available-logs :
    (b quiet : Bool) (w : Watch)
    → LogsWell w (set_available b quiet w)
      × ((set_available b quiet w).watch.available ≡ b)
      × ((set_available b quiet w).watch.listened_cluster ≡ w.listened_cluster)
set_available-logs b quiet w =
    set_available_cases b quiet w.available w.loss_logged w.listened_cluster

-- A listener is registered exactly where a cluster with a hook was found, and only then do the
-- entities count as available.
abbrev pub Listens : Option ℕ → Watch → Watched → Type 0
Listens l w x = LogsWell w x × (x.watch.available ≡ is_some l) × (x.watch.listened_cluster ≡ l)

missing-Listens : (w : Watch) → w.listened_cluster ≡ none → Listens none w (missing w)
missing-Listens w h =
    let (l, a, c) = set_available-logs false true w in (unfold logs in l, a, c ∙ h)

then_line :
    (w : Watch) (x : Watched) (h : Happening)
    → ((b : Bool) → logs b (h ∷ []) ≡ some b)
    → LogsWell w x
    → logs w.loss_logged (x.happenings ++ h ∷ []) ≡ some x.watch.loss_logged
then_line w x h same k =
    logs_append w.loss_logged x.watch.loss_logged x.happenings (h ∷ []) k ∙ same x.watch.loss_logged

registered-Listens :
    (c : Cluster) (w : Watch)
    → w.listened_cluster ≡ none
    → Listens (if can_subscribe c then some c.identity else none) w (registered c w)
registered-Listens c w h = elim (Bool-cases (can_subscribe c)) [
  | inl able ↦ rw able (
      let w' : Watch = record w { listened_cluster = some c.identity } in
      let (l, a, cl) = set_available-logs true false w' in
      let x = set_available true false w' in
      (unfold logs in then_line w' x issue_deleted (λ b. refl) l, a, cl))
  | inr unable ↦ rw unable (missing-Listens w h)
]

listener-Listens :
    (cluster : Option Cluster) (w : Watch)
    → w.listened_cluster ≡ none
    → Listens (cluster_of cluster) w (start_event_listener cluster w)
unfolding start_event_listener
listener-Listens none w h = missing-Listens w h
listener-Listens (some c) w h = registered-Listens c w h

refreshed-Listens :
    (cluster : Option Cluster) (w : Watch)
    → w.listened_cluster ≡ none
    → Listens (cluster_of cluster) w (started none true cluster w)
refreshed-Listens cluster w h =
    let (l, a, c) = listener-Listens cluster w h in
    let x = start_event_listener cluster w in
    (unfold logs in then_line w x refresh_scheduled (λ b. refl) l, a, c)

started-Listens :
    (g : Gateway) (loaded : Bool) (cluster : Option Cluster) (w : Watch)
    → w.listened_cluster ≡ none
    → Listens (listener_of g loaded cluster) w (started g loaded cluster w)
started-Listens none false cluster w h =
    let (l, a, c) = set_available-logs false false w in (l, a, c ∙ h)
started-Listens none true cluster w h = refreshed-Listens cluster w h
started-Listens (some devices) loaded cluster w h = refreshed-Listens cluster w h

abbrev pub SetsUp : Gateway → Bool → Option Cluster → Bool → Option SetUp → Type 0
SetsUp g loaded cluster loss_logged none = Unit {0}
SetsUp g loaded cluster loss_logged (some x) =
    (logs loss_logged x.happenings ≡ some x.watch.loss_logged)
    × (x.watch.available ≡ is_some (listener_of g loaded cluster))
    × (x.watch.listened_cluster ≡ listener_of g loaded cluster)

-- A setup is put off exactly where ZHA runs without the lock. Every other setup listens exactly where
-- ZHA runs or one of its entries is loaded and the lock's cluster was found with a hook, and then and
-- only then the entities are available; its log says that events stop or are back only after the
-- other was said.
pub setup_entry_listens :
    (g : Gateway) (loaded : Bool) (cluster : Option Cluster) (loss_logged : Bool) (d : EntryData)
    → SetsUp g loaded cluster loss_logged (setup_entry g loaded cluster loss_logged d)
      × ((setup_entry g loaded cluster loss_logged d ≡ none)
          ↔ ((is_zha_loaded g && not (lock_in_zha d.ieee g)) ≡ true))
unfolding setup_entry
setup_entry_listens g loaded cluster loss_logged d =
    elim (Bool-cases (is_zha_loaded g && not (lock_in_zha d.ieee g))) [
      | inl gone ↦ rw gone (tt, (λ h. refl, λ h. refl))
      | inr there ↦ rw there (
        started-Listens g loaded cluster
            (record {
              available = is_zha_loaded g;
              listened_cluster = none;
              loss_logged = loss_logged;
            })
            refl,
        (λ h. cc, λ h. cc),
      )
    ]

-- Entities that count as available are listening.
abbrev pub IsSound : Watch → Type 0
IsSound w = w.available ≡ true → is_some w.listened_cluster ≡ true

-- What a change of ZHA leaves: the listener as it was, and a sound watch with a well-formed log.
abbrev pub Changes : Watch → Watched → Type 0
Changes w x = LogsWell w x × (x.watch.listened_cluster ≡ w.listened_cluster) × IsSound x.watch

back-Changes :
    (l : Option ℕ) (cluster : Option ℕ) (w : Watch)
    → w.listened_cluster ≡ l
    → IsSound w
    → Changes w (back l cluster w)
unfolding logs
back-Changes none cluster w e h = (refl, refl, h)
back-Changes (some n) cluster w e h = elim (Bool-cases (is_cluster n cluster)) [
  | inl same ↦
      rw same (let (l, a, c) = set_available-logs true false w in (l, c, λ up. ap is_some (c ∙ e)))
  | inr other ↦ rw other (refl, refl, h)
]

unavailable-Changes : (w : Watch) → Changes w (set_available false false w)
unavailable-Changes w = let (l, a, c) = set_available-logs false false w in (l, c, λ up. cc)

change-Changes : (c : ZhaChange) (w : Watch) → IsSound w → Changes w (on_zha_state_change c w)
unfolding on_zha_state_change logs
change-Changes c w h = elim (Bool-cases (not c.entry_loaded)) [
  | inl unloaded ↦ rw unloaded (refl, refl, h)
  | inr loaded ↦ elim (Bool-cases (not c.zha_loaded)) [
    | inl down ↦ elim (Bool-cases (not c.any_zha_loaded)) [
      | inl none_left ↦ rw (loaded, down, none_left) (unavailable-Changes w)
      | inr one_left ↦ rw (loaded, down, one_left) (refl, refl, h)
    ]
    | inr up ↦ rw (loaded, up) (back-Changes w.listened_cluster c.cluster w refl h)
  ]
]

-- Through any sequence of state changes of ZHA, and whatever clusters it comes back with, the
-- listener stays on the cluster that setup chose, entities that count as available are listening,
-- and the log never says the same thing twice in a row.
pub zha_changes_sound : (cs : List ZhaChange) (w : Watch) → IsSound w → Changes w (zha_changes cs w)
unfolding zha_changes
zha_changes_sound [] w h = (unfold logs in refl, refl, h)
zha_changes_sound (c ∷ cs) w h =
    let x = on_zha_state_change c w in
    let (l, k, s) = change-Changes c w h in
    let (l', k', s') = zha_changes_sound cs x.watch s in
    (logs_append w.loss_logged x.watch.loss_logged x.happenings _ l ∙ l', k' ∙ k, s')

same_cluster : (n : ℕ) (o : Option ℕ) → is_cluster n o ≡ true → o ≡ some n
same_cluster n none h = cc
same_cluster n (some m) h = ground arith

-- When ZHA comes up under a loaded entry, either the entities are available and listening on the
-- cluster that ZHA has now, or a reload of the entry is under way.
pub zha_back_recovers :
    (c : ZhaChange) (w : Watch)
    → c.entry_loaded ≡ true
    → c.zha_loaded ≡ true
    → (((on_zha_state_change c w).watch.available ≡ true)
        × ((on_zha_state_change c w).watch.listened_cluster ≡ c.cluster)
        × (is_some c.cluster ≡ true))
      ⊎ ((on_zha_state_change c w).happenings ≡ reload_scheduled ∷ [])
unfolding on_zha_state_change
zha_back_recovers c w loaded up = rw (loaded, up) (recovers w.listened_cluster refl)
  where
    recovers :
        (l : Option ℕ)
        → w.listened_cluster ≡ l
        → (((back l c.cluster w).watch.available ≡ true)
            × ((back l c.cluster w).watch.listened_cluster ≡ c.cluster)
            × (is_some c.cluster ≡ true))
          ⊎ ((back l c.cluster w).happenings ≡ reload_scheduled ∷ [])
    recovers none e = inr refl
    recovers (some n) e = elim (Bool-cases (is_cluster n c.cluster)) [
      | inl same ↦ rw same (
          let (l, a, k) = set_available-logs true false w in
          let now : c.cluster ≡ some n = same_cluster n c.cluster same in
          inl (a, (k ∙ e) ∙ sym now, ap is_some now))
      | inr other ↦ rw other (inr refl)
    ]
