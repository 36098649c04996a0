-- ===== src/Integration/ConfigFlow/Moving.antt =====
-- An entry that is moved to another module takes an address that nobody else is left with.
use mathlib.Core.Path.{subst}
use mathlib.Core.List.{append_assoc}
use onesti_lock.Base.{
  ℕ, Bool, true, false, not, ◌&&◌, ◌||◌, List, [], ◌∷◌, ◌++◌, Option, none, some, ◌≡◌, inl, inr,
  refl, ap, sym, arith, All, All-imp, if◌then◌else◌, Bool-cases, ◌==◌,
}
use onesti_lock.Integration.Services.{lower, same_text}
use onesti_lock.Integration.ZhaDevices.{Gateway, OnestiLock, is_zha_loaded, iter_onesti_locks}
use onesti_lock.Integration.ConfigFlow.{
  Entry, is_text, get_model, locks_on_offer, entry_moved, Flow, Connection, OwnDevice, Call,
  abort_flow, remove_entry, new_connections, update_entry, title_part, flow_calls, ignored_calls,
  kept_connections, drop_replaced_address, held_by_another, Reconfigured, moved_to, resubmitted,
  reoffered, step_reconfigure,
}
use onesti_lock.Integration.ConfigFlow.Offer.{In, get_model-Offered}

unfoldable pub aborts : ℕ → List Call → Bool
aborts id [] = false
aborts id (abort_flow f ∷ cs) = f == id || aborts id cs
aborts id (remove_entry e ∷ cs) = aborts id cs
aborts id (new_connections d c ∷ cs) = aborts id cs
aborts id (update_entry e l t ∷ cs) = aborts id cs

unfoldable pub removes : ℕ → List Call → Bool
removes id [] = false
removes id (abort_flow f ∷ cs) = removes id cs
removes id (remove_entry e ∷ cs) = e == id || removes id cs
removes id (new_connections d c ∷ cs) = removes id cs
removes id (update_entry e l t ∷ cs) = removes id cs

aborts_append : (id : ℕ) (xs ys : List Call) → aborts id (xs ++ ys) ≡ (aborts id xs || aborts id ys)
unfolding aborts
aborts_append id [] ys = refl
aborts_append id (abort_flow f ∷ cs) ys = ground (arith, aborts_append id cs ys)
aborts_append id (remove_entry e ∷ cs) ys = aborts_append id cs ys
aborts_append id (new_connections d c ∷ cs) ys = aborts_append id cs ys
aborts_append id (update_entry e l t ∷ cs) ys = aborts_append id cs ys

removes_append :
    (id : ℕ) (xs ys : List Call) → removes id (xs ++ ys) ≡ (removes id xs || removes id ys)
unfolding removes
removes_append id [] ys = refl
removes_append id (abort_flow f ∷ cs) ys = removes_append id cs ys
removes_append id (remove_entry e ∷ cs) ys = ground (arith, removes_append id cs ys)
removes_append id (new_connections d c ∷ cs) ys = removes_append id cs ys
removes_append id (update_entry e l t ∷ cs) ys = removes_append id cs ys

-- Who is left with the address after the calls, beside the entry itself.
abbrev pub LetGo : ℕ → List ℕ → List Call → Entry → Type 0
LetGo entry_id ieee calls e =
    ((not e.ignored && not (e.entry_id == entry_id) && is_text ieee e.ieee) ≡ false)
    × ((not (e.ignored && is_text ieee e.unique_id) || removes e.entry_id calls) ≡ true)

abbrev pub FlowGone : List ℕ → List Call → Flow → Type 0
FlowGone ieee calls f = (not (same_text f.unique_id ieee) || aborts f.flow_id calls) ≡ true

flow_calls_step :
    (ieee : List ℕ) (f : Flow) (fs : List Flow) (b : Bool)
    → same_text f.unique_id ieee ≡ b
    → flow_calls ieee (f ∷ fs)
      ≡ (if b then abort_flow f.flow_id ∷ flow_calls ieee fs else flow_calls ieee fs)
unfolding flow_calls
flow_calls_step ieee f fs b h = rw h refl

flows_aborted : (ieee : List ℕ) (fs : List Flow) → All (FlowGone ieee (flow_calls ieee fs)) fs
unfolding aborts
flows_aborted ieee [] = tt
flows_aborted ieee (f ∷ fs) = elim (Bool-cases (same_text f.unique_id ieee)) [
  | inl same ↦
      subst (λ calls. All (FlowGone ieee calls) (f ∷ fs))
        (sym (flow_calls_step ieee f fs true same))
        (
          ground arith,
          All-imp (FlowGone ieee (flow_calls ieee fs))
              (FlowGone ieee (abort_flow f.flow_id ∷ flow_calls ieee fs)) (λ x h. ground arith) fs
              (flows_aborted ieee fs),
        )
  | inr other ↦
      subst (λ calls. All (FlowGone ieee calls) (f ∷ fs))
        (sym (flow_calls_step ieee f fs false other)) (ground arith, flows_aborted ieee fs)
]

ignored_calls_step :
    (ieee : List ℕ) (e : Entry) (es : List Entry) (b : Bool)
    → (e.ignored && is_text ieee e.unique_id) ≡ b
    → ignored_calls ieee (e ∷ es)
      ≡ (if b then remove_entry e.entry_id ∷ ignored_calls ieee es else ignored_calls ieee es)
unfolding ignored_calls
ignored_calls_step ieee e es b h = rw h refl

abbrev Unignored : List ℕ → List Call → Entry → Type 0
Unignored ieee calls e =
    (not (e.ignored && is_text ieee e.unique_id) || removes e.entry_id calls) ≡ true

ignored_removed :
    (ieee : List ℕ) (es : List Entry) → All (Unignored ieee (ignored_calls ieee es)) es
unfolding removes
ignored_removed ieee [] = tt
ignored_removed ieee (e ∷ es) = elim (Bool-cases (e.ignored && is_text ieee e.unique_id)) [
  | inl same ↦
      subst (λ calls. All (Unignored ieee calls) (e ∷ es))
        (sym (ignored_calls_step ieee e es true same))
        (
          ground arith,
          All-imp (Unignored ieee (ignored_calls ieee es))
              (Unignored ieee (remove_entry e.entry_id ∷ ignored_calls ieee es))
              (λ x h. ground arith) es (ignored_removed ieee es),
        )
  | inr other ↦
      subst (λ calls. All (Unignored ieee calls) (e ∷ es))
        (sym (ignored_calls_step ieee e es false other)) (ground arith, ignored_removed ieee es)
]

-- What the calls of a move come to.
abbrev pub AllGone : ℕ → List ℕ → List Entry → List Flow → List Call → Type 0
AllGone entry_id ieee entries flows calls =
    All (LetGo entry_id ieee calls) entries × All (FlowGone ieee calls) flows

let_go :
    (entry_id : ℕ) (ieee : List ℕ) (calls more : List Call) (es : List Entry)
    → held_by_another entry_id ieee es ≡ false
    → All (Unignored ieee calls) es
    → (before : List Call) → All (LetGo entry_id ieee (before ++ (calls ++ more))) es
unfolding held_by_another
let_go entry_id ieee calls more [] h u before = tt
let_go entry_id ieee calls more (e ∷ es) h u before = (
  (
    ground arith,
    ground (
      arith,
      u.0,
      removes_append e.entry_id before (calls ++ more),
      removes_append e.entry_id calls more,
    ),
  ),
  let_go entry_id ieee calls more es (ground arith) u.1 before,
)

module _ (entry : Entry) (entries : List Entry) (flows : List Flow) (devices : List OwnDevice)
    (g : Gateway) where
  abbrev pub Moved : Reconfigured → Type 0
  Moved x = elim x.step [
    | entry_moved l ↦
        In l (iter_onesti_locks g)
        × AllGone entry.entry_id l.ieee entries flows x.calls
        × ((first : List Call) × (x.calls
              ≡ first ++ update_entry entry.entry_id l (title_part l.ieee) ∷ []))
    | _ ↦ x.calls ≡ []
  ]

  Moved-gone :
      (locks : List OnestiLock) (ieee : List ℕ) (m : Option (List ℕ))
      → get_model ieee (locks_on_offer (some entry.entry_id) true entries g) ≡ m
      → held_by_another entry.entry_id ieee entries ≡ false
      → Moved (moved_to entry entries flows devices locks ieee m)
  Moved-gone locks ieee none h k = refl
  Moved-gone locks ieee (some model) h k =
      let l : OnestiLock = record { ieee = ieee; model = model } in
      let last =
        drop_replaced_address ieee devices
        ++ update_entry entry.entry_id l (title_part ieee) ∷ [] in
      let rest = ignored_calls ieee entries ++ last in
      (
        (get_model-Offered (some entry.entry_id) true entries g ieee model h).0,
        (
          let_go entry.entry_id ieee (ignored_calls ieee entries) last entries k
              (ignored_removed ieee entries) (flow_calls ieee flows),
          All-imp (FlowGone ieee (flow_calls ieee flows))
              (FlowGone ieee (flow_calls ieee flows ++ rest))
              (λ f p. ground (arith, aborts_append f.flow_id (flow_calls ieee flows) rest)) flows
              (flows_aborted ieee flows),
        ),
        (
          flow_calls ieee flows
              ++ (ignored_calls ieee entries ++ drop_replaced_address ieee devices),
          simp append_assoc,
        ),
      )

  resubmitted_gone :
      (locks : List OnestiLock) (user_input : Option (List ℕ))
      → locks_on_offer (some entry.entry_id) true entries g ≡ locks
      → Moved (resubmitted entry entries flows devices locks user_input)
  resubmitted_gone locks none h = refl
  resubmitted_gone locks (some ieee) h =
      elim (Bool-cases (held_by_another entry.entry_id ieee entries)) [
        | inl held ↦ rw held refl
        | inr free ↦
            rw free (Moved-gone locks ieee (get_model ieee locks) (ap (get_model ieee) h) free)
      ]

  reoffered_gone :
      (locks : List OnestiLock) (user_input : Option (List ℕ))
      → locks_on_offer (some entry.entry_id) true entries g ≡ locks
      → Moved (reoffered entry entries flows devices locks user_input)
  reoffered_gone [] user_input h = refl
  reoffered_gone (l ∷ ls) user_input h = resubmitted_gone (l ∷ ls) user_input h

  -- An entry is moved only to a lock that ZHA has now, with its model. When its update is called, last,
  -- no other entry has the address as its own, each that ignores it has been removed, and each flow
  -- that asks about it has been aborted. A step that does not move the entry calls nothing.
  pub step_reconfigure-Moved :
      (user_input : Option (List ℕ))
      → Moved (step_reconfigure entry entries flows devices g user_input)
  unfolding step_reconfigure
  step_reconfigure-Moved user_input = elim (Bool-cases (is_zha_loaded g)) [
    | inl up ↦
        rw up (reoffered_gone (locks_on_offer (some entry.entry_id) true entries g) user_input refl)
    | inr down ↦ rw down refl
  ]

-- Of the Zigbee addresses of a device only the new one is kept, and of its other connections all.
pub kept_connections_lem :
    (ieee : List ℕ) (cs : List Connection)
    → All
        (λ c. (not c.is_zigbee || same_text c.text (lower ieee)) ≡ true)
        (kept_connections ieee cs)
unfolding kept_connections
kept_connections_lem ieee [] = tt
kept_connections_lem ieee (c ∷ cs) =
    elim (Bool-cases (not c.is_zigbee || same_text c.text (lower ieee))) [
      | inl kept ↦ rw kept (kept, kept_connections_lem ieee cs)
      | inr gone ↦ rw gone (kept_connections_lem ieee cs)
    ]
