-- ===== src/Integration/Migration/Keys.antt =====
-- What becomes of the registry keys: one device carries the entry's id, what other integrations wrote
-- stays, and no key is given out twice.
use mathlib.Core.Path.{subst}
use onesti_lock.Base.{
  ℕ, Bool, true, false, List, [], ◌∷◌, ◌++◌, Option, none, some, ◌≡◌, ◌≢◌, inl, inr, refl, sym, ap,
  ◌∙◌, arith, if◌then◌else◌, Bool-cases, ◌==◌, ==_iff,
}
use onesti_lock.Integration.Services.{lower, same_text}
use onesti_lock.Integration.Migration.{
  Identifier, Device, DeviceCall, new_identifiers, remove_entry, is_stale, has_stale, without_stale,
  own_identifier, is_own_identifier, has_own, find_owner, migrate_devices, device_calls,
}

pub same_text_refl : (a : List ℕ) → same_text a a ≡ true
unfolding same_text
same_text_refl [] = refl
same_text_refl (c ∷ cs) = ground (arith, same_text_refl cs)

-- The identifiers that are not this integration's.
unfoldable pub others : List Identifier → List Identifier
others [] = []
others (i ∷ is) = let rest = others is in if i.is_own then rest else i ∷ rest

stale_own : (ieee : List ℕ) (i : Identifier) → is_stale ieee i ≡ true → i.is_own ≡ true
unfolding is_stale
stale_own ieee i h = ground arith

others_step :
    (i : Identifier) (is : List Identifier) (b : Bool)
    → i.is_own ≡ b
    → others (i ∷ is) ≡ (if b then others is else i ∷ others is)
unfolding others
others_step i is b h = rw h refl

others-without_stale :
    (ieee : List ℕ) (is : List Identifier) → others (without_stale ieee is) ≡ others is
unfolding without_stale
others-without_stale ieee [] = unfold others in refl
others-without_stale ieee (i ∷ is) = elim (Bool-cases (is_stale ieee i)) [
  | inl stale ↦
      rw stale (others-without_stale ieee is ∙ sym (others_step i is true (stale_own ieee i stale)))
  | inr kept ↦ rw kept (
      others_step i (without_stale ieee is) i.is_own refl
      ∙ ap (λ rest. if i.is_own then rest else i ∷ rest) (others-without_stale ieee is)
      ∙ sym (others_step i is i.is_own refl))
]

others_own :
    (entry_id : List ℕ) (is : List Identifier)
    → others (is ++ own_identifier entry_id ∷ []) ≡ others is
unfolding others
others_own entry_id [] = refl
others_own entry_id (i ∷ is) =
    ap (λ rest. if i.is_own then rest else i ∷ rest) (others_own entry_id is)

has_own_last :
    (entry_id : List ℕ) (is : List Identifier)
    → has_own entry_id (is ++ own_identifier entry_id ∷ []) ≡ true
unfolding has_own is_own_identifier
has_own_last entry_id [] = rw (same_text_refl entry_id) refl
has_own_last entry_id (i ∷ is) = rw (has_own_last entry_id is) (ground arith)

none_stale :
    (entry_id ieee : List ℕ) (is : List Identifier)
    → same_text (lower entry_id) (lower ieee) ≡ false
    → has_stale ieee (without_stale ieee is ++ own_identifier entry_id ∷ []) ≡ false
unfolding has_stale without_stale
none_stale entry_id ieee [] h = unfold is_stale in rw h refl
none_stale entry_id ieee (i ∷ is) h = elim (Bool-cases (is_stale ieee i)) [
  | inl stale ↦ rw stale (none_stale entry_id ieee is h)
  | inr kept ↦ rw kept (rw kept (none_stale entry_id ieee is h))
]

module _ (entry_id ieee : List ℕ) where
  -- The identifiers that a device is left with: the entry's id, what others wrote, and no address.
  pub record IsMoved (d : Device) (is : List Identifier) : Type 0 where
    pub others_kept : others is ≡ others d.identifiers
    pub own : has_own entry_id is ≡ true
    pub moved : has_stale ieee is ≡ false

  abbrev pub Owns : Option ℕ → ℕ → Type 0
  Owns none id = Unit {0}
  Owns (some owner) id = id ≡ owner

  -- A pass over the entry's devices: those without the address are not touched, one keeps or takes
  -- the entry's id, and the others with the address lose the entry.
  pub data Pass : Option ℕ → List Device → List DeviceCall → Type 0 where
    done : {owner : Option ℕ} → Pass owner [] []
    untouched :
        {owner : Option ℕ} {ds : List Device} {cs : List DeviceCall} (d : Device)
        → has_stale ieee d.identifiers ≡ false
        → Pass owner ds cs
        → Pass owner (d ∷ ds) cs
    updated :
        {owner : Option ℕ} {ds : List Device} {cs : List DeviceCall} (d : Device)
        (is : List Identifier)
        → has_stale ieee d.identifiers ≡ true
        → Owns owner d.id
        → IsMoved d is
        → Pass (some d.id) ds cs
        → Pass owner (d ∷ ds) (new_identifiers d.id is ∷ cs)
    removed :
        {owner : Option ℕ} {ds : List Device} {cs : List DeviceCall} (d : Device) (o : ℕ)
        → has_stale ieee d.identifiers ≡ true
        → owner ≡ some o
        → o ≢ d.id
        → Pass owner ds cs
        → Pass owner (d ∷ ds) (remove_entry d.id ∷ cs)

  module _ (apart : same_text (lower entry_id) (lower ieee) ≡ false) where
    IsMoved-all :
        (d : Device) → IsMoved d (without_stale ieee d.identifiers ++ own_identifier entry_id ∷ [])
    IsMoved-all d = record {
      others_kept =
          others_own entry_id (without_stale ieee d.identifiers)
          ∙ others-without_stale ieee d.identifiers;
      own = has_own_last entry_id (without_stale ieee d.identifiers);
      moved = none_stale entry_id ieee d.identifiers apart;
    }

    migrate_devices-Pass :
        (owner : Option ℕ) (ds : List Device)
        → Pass owner ds (migrate_devices entry_id ieee owner ds)
    unfolding migrate_devices
    migrate_devices-Pass owner [] = done
    migrate_devices-Pass none (d ∷ ds) = elim (Bool-cases (has_stale ieee d.identifiers)) [
      | inl stale ↦
          rw stale (updated d _ stale tt (IsMoved-all d) (migrate_devices-Pass (some d.id) ds))
      | inr fresh ↦ rw fresh (untouched d fresh (migrate_devices-Pass none ds))
    ]
    migrate_devices-Pass (some o) (d ∷ ds) = elim (Bool-cases (has_stale ieee d.identifiers)) [
      | inr fresh ↦ rw fresh (untouched d fresh (migrate_devices-Pass (some o) ds))
      | inl stale ↦ elim (Bool-cases (o == d.id)) [
        | inl same ↦
            let e : o ≡ d.id = (==_iff o d.id).0 same in
            rw (stale, same)
              (updated d _ stale (sym e) (IsMoved-all d) (
                subst (λ x. Pass (some x) ds (migrate_devices entry_id ieee (some o) ds)) e
                  (migrate_devices-Pass (some o) ds)))
        | inr other ↦
            rw (stale, other)
              (removed d o stale refl (λ e. ground arith) (migrate_devices-Pass (some o) ds))
      ]
    ]

    -- The registry calls of a migration are one pass over the entry's devices: those without the
    -- address are not touched; the device that has the entry's id, or else the first with the address,
    -- gets the id in place of the address and keeps what other integrations wrote; every other
    -- device with the address loses the entry. That needs an entry id that is not the address.
    pub device_calls-Pass :
        (ds : List Device) → Pass (find_owner entry_id ds) ds (device_calls entry_id ieee ds)
    device_calls-Pass ds = migrate_devices-Pass (find_owner entry_id ds) ds
