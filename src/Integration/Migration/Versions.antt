-- ===== src/Integration/Migration/Versions.antt =====
-- What the version steps keep, and that they are done once.
use onesti_lock.Base.{
  ℕ, ◌≤◌, ◌<◌, List, [], ◌∷◌, none, some, ltb, le→ltb_false, lt→ltb, ◌≡◌, refl, ap, arith, map,
  Bool-cases, inl, inr,
}
use onesti_lock.Integration.Coordinator.{Stored}
use onesti_lock.Integration.ZhaDevices.{Gateway}
use onesti_lock.Integration.Migration.{
  OldSlot, OldEntry, drop_fields, to_minor_2, to_minor_3, migrate_entry,
}

-- The slots of an entry as far as the integration reads them.
abbrev pub read_slot : ℕ × OldSlot → ℕ × Stored
read_slot (key, slot) = (key, slot.kept)

read_slots_kept :
    (slots : List (ℕ × OldSlot)) → map read_slot (map drop_fields slots) ≡ map read_slot slots
read_slots_kept [] = refl
read_slots_kept ((key, slot) ∷ slots) = ap (λ l. (key, slot.kept) ∷ l) (read_slots_kept slots)

-- A migration from a version that this release knows.
abbrev pub Migrates : Gateway → OldEntry → OldEntry → Type 0
Migrates g e e' =
    (3 ≤ e'.minor_version) × (map read_slot e'.slots ≡ map read_slot e.slots) × (e'.ieee ≡ e.ieee)

minor_2_kept : (e : OldEntry) → map read_slot (to_minor_2 e).slots ≡ map read_slot e.slots
unfolding to_minor_2
minor_2_kept e = elim (Bool-cases (ltb e.minor_version 2)) [
  | inl old ↦ rw old (read_slots_kept e.slots)
  | inr new ↦ rw new refl
]

minor_2_version : (e : OldEntry) → e.version ≤ 2 → (to_minor_2 e).version ≤ 2
unfolding to_minor_2
minor_2_version e h = ground arith

minor_3_version : (g : Gateway) (e : OldEntry) → e.version ≤ 2 → (to_minor_3 g e).version ≤ 2
unfolding to_minor_3
minor_3_version g e h = ground arith

minor_3_reached : (g : Gateway) (e : OldEntry) → 3 ≤ (to_minor_3 g e).minor_version
unfolding to_minor_3
minor_3_reached g e = ground arith

minor_3_kept : (g : Gateway) (e : OldEntry) → (to_minor_3 g e).slots ≡ e.slots
unfolding to_minor_3
minor_3_kept g e = ground arith

same_ieee : (g : Gateway) (e : OldEntry) → (to_minor_3 g (to_minor_2 e)).ieee ≡ e.ieee
unfolding to_minor_3 to_minor_2
same_ieee g e = ground arith

-- An entry that is up to date is left alone.
up_to_date :
    (g : Gateway) (e : OldEntry) → e.version ≤ 2 → 3 ≤ e.minor_version → migrate_entry g e ≡ some e
unfolding migrate_entry to_minor_2 to_minor_3
up_to_date g e h k =
    rw (le→ltb_false 2 e.version h) (
      rw (le→ltb_false e.minor_version 2 (omega arith))
        (rw (le→ltb_false e.minor_version 3 k) refl))

-- An entry of version 2 or older is always migrated, to minor version 3 or later. Its address, and the
-- name and the PIN flag of every stored slot, stay as they are, and a second migration, whatever ZHA
-- answers by then, changes nothing.
pub migrate_entry_once :
    (g g' : Gateway) (e : OldEntry)
    → e.version ≤ 2
    → (e' : OldEntry) × (migrate_entry g e ≡ some e')
      × Migrates g e e'
      × (migrate_entry g' e' ≡ some e')
migrate_entry_once g g' e h =
    let e' = to_minor_3 g (to_minor_2 e) in
    (
      e',
      unfold migrate_entry in rw (le→ltb_false 2 e.version h) refl,
      (
        minor_3_reached g (to_minor_2 e),
        rw (minor_3_kept g (to_minor_2 e)) (minor_2_kept e),
        same_ieee g e,
      ),
      up_to_date g' e' (minor_3_version g (to_minor_2 e) (minor_2_version e h))
          (minor_3_reached g (to_minor_2 e)),
    )

pub migrate_entry_newer : (g : Gateway) (e : OldEntry) → 2 < e.version → migrate_entry g e ≡ none
unfolding migrate_entry
migrate_entry_newer g e h = rw (lt→ltb 2 e.version h)
