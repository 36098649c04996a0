-- ===== src/Integration/Migration/Entities.antt =====
-- The rewriting of the entity keys, over a registry that answers by its rows.
use mathlib.Core.Path.{subst}
use mathlib.Core.List.{append-nil}
use onesti_lock.Base.{
  ℕ, false, List, [], ◌∷◌, ◌++◌, ◌≡◌, refl, sym, ap, ◌∙◌, Bool-cases, inl, inr, All, All-imp, map,
  if◌then◌else◌,
}
use onesti_lock.Integration.Services.{lower}
use onesti_lock.Integration.Migration.{
  Entity, EntityCall, remove_entity, new_unique_id, starts_with, prefix_of, moved_id, Taken,
  migrate_entities,
}
use onesti_lock.Integration.Migration.Registry.{
  has_key, dropped, rekeyed, called, after, IsRegistry, IsDistinct, IsFree, Accepted, IsPlaced,
  after-append, Accepted-append, dropped-IsDistinct, dropped-IsPlaced, rekeyed-IsPlaced,
  rekeyed-IsDistinct,
}

-- The row that a call is on.
abbrev pub row_of : EntityCall → ℕ
row_of (remove_entity e) = e
row_of (new_unique_id e place u) = e

-- The rows whose unique id starts with the address, in any case.
abbrev pub old_rows : List ℕ → List Entity → List ℕ
old_rows ieee [] = []
old_rows ieee (e ∷ es) =
    if starts_with (prefix_of ieee) (lower e.unique_id)
    then e.entity_id ∷ old_rows ieee es
    else old_rows ieee es

-- The rows that are to be migrated are of the domains and platforms that the registry has them in.
abbrev pub AllPlaced : List Entity → List Entity → Type 0
AllPlaced rows = All (λ e. IsPlaced e.entity_id e.place rows)

-- One call for each old row, in their order, none of which raises; and the keys stay apart.
abbrev pub IsMigration : List ℕ → List Entity → List Entity → List EntityCall → Type 0
IsMigration ieee rows es calls =
    Accepted rows calls × IsDistinct (after calls rows) × (map row_of calls ≡ old_rows ieee es)

row_of-append :
    (made : List EntityCall) (c : EntityCall) (ys : List ℕ)
    → map row_of (made ++ c ∷ []) ++ ys ≡ map row_of made ++ row_of c ∷ ys
row_of-append [] c ys = refl
row_of-append (x ∷ made) c ys = ap (λ l. row_of x ∷ l) (row_of-append made c ys)

-- What the rest of the calls is shown of, where `made` was called before them.
abbrev Reached : List ℕ → List Entity → List EntityCall → List Entity → List EntityCall → Type 0
Reached ieee rows made es calls =
    Accepted rows calls
    × IsDistinct (after calls rows)
    × (map row_of calls ≡ map row_of made ++ old_rows ieee es)

module _ (taken : Taken) (entry_id ieee : List ℕ) (rows : List Entity)
    (law : IsRegistry rows taken) where
  -- What is shown of the calls on these rows, whatever was called before.
  abbrev Reaches : List Entity → Type 0
  Reaches es =
      (made : List EntityCall)
      → Accepted rows made
      → IsDistinct (after made rows)
      → AllPlaced (after made rows) es
      → Reached ieee rows made es (migrate_entities taken entry_id ieee made es)

  called_on :
      (e : Entity) (es : List Entity)
      → Reaches es
      → (made : List EntityCall) → Accepted rows made
      → (c : EntityCall) → IsFree (after made rows) c
      → IsDistinct (called c (after made rows))
      → AllPlaced (called c (after made rows)) es
      → row_of c ≡ e.entity_id
      → Accepted rows (migrate_entities taken entry_id ieee (made ++ c ∷ []) es)
        × IsDistinct (after (migrate_entities taken entry_id ieee (made ++ c ∷ []) es) rows)
        × (map row_of (migrate_entities taken entry_id ieee (made ++ c ∷ []) es)
            ≡ map row_of made ++ e.entity_id ∷ old_rows ieee es)
  called_on e es rest made accepted c free distinct placed same =
      let now = after-append made c rows in
      let (a, d, m) =
        rest (made ++ c ∷ []) (Accepted-append made c rows accepted free)
          (subst IsDistinct (sym now) distinct) (subst (λ r. AllPlaced r es) (sym now) placed) in
      (
        a,
        d,
        m
            ∙ (row_of-append made c (old_rows ieee es)
                ∙ ap (λ n. map row_of made ++ n ∷ old_rows ieee es) same),
      )

  reach :
      (es : List Entity) (made : List EntityCall)
      → Accepted rows made
      → IsDistinct (after made rows)
      → AllPlaced (after made rows) es
      → Reached ieee rows made es (migrate_entities taken entry_id ieee made es)
  unfolding migrate_entities
  reach [] made accepted distinct placed = (accepted, distinct, sym (append-nil (map row_of made)))
  reach (e ∷ es) made accepted distinct placed =
      elim (Bool-cases (starts_with (prefix_of ieee) (lower e.unique_id))) [
        | inr other ↦ rw other (reach es made accepted distinct placed.1)
        | inl old ↦ elim (Bool-cases (taken made e.place (moved_id entry_id ieee e.unique_id))) [
          | inl there ↦
              rw (old, there)
                (called_on e es (λ m a d p. reach es m a d p) made accepted
                  (remove_entity e.entity_id) tt
                  (dropped-IsDistinct e.entity_id (after made rows) distinct)
                  (All-imp (λ x. IsPlaced x.entity_id x.place (after made rows))
                    (λ x. IsPlaced x.entity_id x.place (dropped e.entity_id (after made rows)))
                    (λ x h. dropped-IsPlaced e.entity_id x.entity_id x.place (after made rows) h) es
                    placed.1)
                  refl)
          | inr open_key ↦
              let u = moved_id entry_id ieee e.unique_id in
              let free : has_key e.place u (after made rows) ≡ false =
                sym (law.taken_now made e.place u) ∙ open_key in
              rw (old, open_key)
                (called_on e es (λ m a d p. reach es m a d p) made accepted
                  (new_unique_id e.entity_id e.place u) free
                  (rekeyed-IsDistinct e.entity_id e.place u (after made rows) placed.0 free
                    distinct)
                  (All-imp (λ x. IsPlaced x.entity_id x.place (after made rows))
                    (λ x. IsPlaced x.entity_id x.place (rekeyed e.entity_id u (after made rows)))
                    (λ x h. rekeyed-IsPlaced e.entity_id x.entity_id x.place u (after made rows) h)
                    es placed.1)
                  refl)
        ]
      ]

-- Over a registry that answers by its rows, of which no two have one key, and which has the rows to be
-- migrated in the domains and platforms that they say: each of these that still has the address in its
-- key gets one call, in their order, and no other row gets one; no call raises for a key that is taken;
-- and after the calls no two rows have one key.
pub migrate_entities-IsMigration :
    (taken : Taken) (entry_id ieee : List ℕ) (rows es : List Entity)
    → IsRegistry rows taken
    → IsDistinct rows
    → AllPlaced rows es
    → IsMigration ieee rows es (migrate_entities taken entry_id ieee [] es)
unfolding after
migrate_entities-IsMigration taken entry_id ieee rows es law distinct placed =
    reach taken entry_id ieee rows law es [] tt distinct placed
