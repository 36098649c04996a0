-- ===== src/Integration/Coordinator/View.antt =====
-- The stored slots as a function of the slot number, and every operation as an update of it.
use onesti_lock.Base.{
  ℕ, ◌≤◌, true, false, List, [], ◌∷◌, Option, none, some, ◌≡◌, inl, inr, refl, ap, sym, ◌∙◌, arith,
  ◌==◌, if◌then◌else◌, le→ltb_false, Bool-cases, ==_iff,
}
use onesti_lock.Base.Dict.{find, put, remove, find-put, find-remove}
use onesti_lock.Integration.Zha.{is_delivered}
use onesti_lock.Integration.Coordinator.{
  Slot, default_slot, Options, World, Command, set_pin_code, clear_pin_code, Transport, loaded,
  load_slots, save_slots, saved, slot_of, update, write, first_user_slot, set_pin, clear_pin,
  clear_slot, set_slot_name, name_removed,
}
use onesti_lock.Integration.Coordinator.Saved.{IsCoherent, save_slots-IsCoherent, save_slots-loaded}

-- What the entry says of a slot.
abbrev pub view : Options → ℕ → Slot
view o k = slot_of k (loaded o)

slot_of-put :
    (key k : ℕ) (s : Slot) (d : List (ℕ × Slot))
    → slot_of k (put key s d) ≡ (if key == k then s else slot_of k d)
slot_of-put key k s d = ground (arith, find-put key k s d)

slot_of-remove :
    (key k : ℕ) (d : List (ℕ × Slot))
    → slot_of k (remove key d) ≡ (if key == k then default_slot else slot_of k d)
slot_of-remove key k d = ground (arith, find-remove key k d)

-- Only the slots of the entry's options change.
abbrev pub SameOptions : Options → Options → Type 0
SameOptions o o' = (o'.reserved_slots ≡ o.reserved_slots) × (o'.capabilities ≡ o.capabilities)

-- A world whose slots are this update of another world's, saved and passed on.
abbrev pub Updates : World → ℕ → Slot → World → Type 0
Updates w slot s w' =
    ((k : ℕ) → view w'.options k ≡ (if slot == k then s else view w.options k))
    × IsCoherent w'
    × SameOptions w.options w'.options

view-saved : (w : World) (k : ℕ) → view (saved w).0.options k ≡ slot_of k w.self.slots
view-saved w k = ap (slot_of k) (save_slots-loaded w)

saved_options : (w : World) → SameOptions w.options (saved w).0.options
unfolding save_slots
saved_options w = (refl, refl)

saved-Updates :
    (w : World) (slot : ℕ) (s : Slot) → Updates w slot s (saved (update slot s (load_slots w))).0
saved-Updates w slot s = (
  λ k. view-saved (update slot s (load_slots w)) k ∙ slot_of-put slot k s (loaded w.options),
  save_slots-IsCoherent (update slot s (load_slots w)),
  saved_options (update slot s (load_slots w)),
)

removed-Updates :
    (w : World) (slot : ℕ)
    → let v = load_slots w in
      Updates w slot default_slot
        (saved (record v { self = record v.self { slots = remove slot v.self.slots } })).0
removed-Updates w slot =
    let v = load_slots w in
    let v' : World = record v { self = record v.self { slots = remove slot v.self.slots } } in
    (
      λ k. view-saved v' k ∙ slot_of-remove slot k (loaded w.options),
      save_slots-IsCoherent v',
      saved_options v',
    )

-- A write to a slot that is not reserved, where the send is delivered.
write-Updates :
    (slot : ℕ) (c : Command) (s : World → Slot) (send : Transport) (w : World)
    → first_user_slot w ≤ slot
    → is_delivered (send c w).0 ≡ true
    → Updates
        (send c w).1
        slot
        (s (load_slots (send c w).1))
        (write slot c (λ v. update slot (s v) v) send w).world
write-Updates slot c s send w open_slot done =
    rw (le→ltb_false slot (first_user_slot w) open_slot, done)
      (saved-Updates (send c w).1 slot (s (load_slots (send c w).1)))

-- A PIN that was set on a slot that is not reserved, with a send that was delivered: the entry that
-- the send left names the slot and shows its PIN, every other slot is as in that entry, and both the
-- coordinator and the one of a reload hold what the entry says.
pub view-set_pin :
    (slot : ℕ) (name code : List ℕ) (send : Transport) (w : World)
    → first_user_slot w ≤ slot
    → is_delivered (send (set_pin_code slot code) w).0 ≡ true
    → Updates
        (send (set_pin_code slot code) w).1
        slot
        (record { name = name; has_pin = true })
        (set_pin slot name code send w).world
unfolding set_pin
view-set_pin slot name code send w open_slot done =
    write-Updates slot (set_pin_code slot code) (λ v. record { name = name; has_pin = true }) send w
      open_slot done

-- A PIN that was cleared the same way leaves the slot its name.
pub view-clear_pin :
    (slot : ℕ) (send : Transport) (w : World)
    → first_user_slot w ≤ slot
    → is_delivered (send (clear_pin_code slot) w).0 ≡ true
    → Updates
        (send (clear_pin_code slot) w).1
        slot
        (record {
          name = (view (send (clear_pin_code slot) w).1.options slot).name;
          has_pin = false;
        })
        (clear_pin slot send w).world
unfolding clear_pin
view-clear_pin slot send w open_slot done =
    write-Updates slot (clear_pin_code slot)
      (λ v. record (slot_of slot v.self.slots) { has_pin = false }) send w open_slot done

-- A slot that was cleared the same way is vacant.
pub view-clear_slot :
    (slot : ℕ) (send : Transport) (w : World)
    → first_user_slot w ≤ slot
    → is_delivered (send (clear_pin_code slot) w).0 ≡ true
    → Updates (send (clear_pin_code slot) w).1 slot default_slot (clear_slot slot send w).world
unfolding clear_slot
view-clear_slot slot send w open_slot done =
    write-Updates slot (clear_pin_code slot) (λ v. default_slot) send w open_slot done

view-name_removed :
    (slot k : ℕ) (w : World) (o : Option Slot)
    → find slot (loaded w.options) ≡ o
    → view (name_removed slot o (load_slots w)).0.options k ≡ (
        if slot == k
        then record { name = []; has_pin = (view w.options slot).has_pin }
        else view w.options k)
view-name_removed slot k w none e = elim (Bool-cases (slot == k)) [
  | inr other ↦ rw other refl
  | inl same ↦ let here : k ≡ slot = sym ((==_iff slot k).0 same) in rw (same, here, e) refl
]
view-name_removed slot k w (some s) e = elim (Bool-cases s.has_pin) [
  | inl kept ↦ rw (e, kept) ((saved-Updates w slot (record { name = []; has_pin = true })).0 k)
  | inr none_left ↦ rw (e, none_left) ((removed-Updates w slot).0 k)
]

-- Naming a slot, any slot, changes its name and nothing else of the view; an empty name takes the
-- name away, also where the record of the slot goes with it.
pub view-set_slot_name :
    (slot : ℕ) (name : List ℕ) (w : World) (k : ℕ)
    → view (set_slot_name slot name w).0.options k ≡ (
        if slot == k
        then record { name = name; has_pin = (view w.options slot).has_pin }
        else view w.options k)
unfolding set_slot_name
view-set_slot_name slot (c ∷ cs) w k =
    (saved-Updates w slot (record (slot_of slot (loaded w.options)) { name = c ∷ cs })).0 k
view-set_slot_name slot [] w k = view-name_removed slot k w (find slot (loaded w.options)) refl
