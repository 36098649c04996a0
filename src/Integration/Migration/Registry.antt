-- ===== src/Integration/Migration/Registry.antt =====
-- The entity registry as its documentation has it: rows with an id each, of which no two have one key
-- of a domain and platform; removing a row frees its key, and giving it a new unique id frees its old.
use onesti_lock.Base.{
  ℕ, Bool, true, false, not, ◌&&◌, ◌||◌, List, [], ◌∷◌, ◌++◌, ◌≡◌, refl, arith, Bool-cases, inl,
  inr, ◌==◌, if◌then◌else◌, All,
}
use onesti_lock.Integration.Services.{same_text}
use onesti_lock.Integration.Services.Meant.{same_text-eq, same_text_self}
use onesti_lock.Integration.Migration.{Entity, EntityCall, remove_entity, new_unique_id, Taken}

-- Whether a row has the key.
unfoldable pub has_key : ℕ → List ℕ → List Entity → Bool
has_key place unique_id [] = false
has_key place unique_id (r ∷ rows) =
    r.place == place && same_text r.unique_id unique_id || has_key place unique_id rows

unfoldable pub dropped : ℕ → List Entity → List Entity
dropped e [] = []
dropped e (r ∷ rows) = let rest = dropped e rows in if r.entity_id == e then rows else r ∷ rest

unfoldable pub rekeyed : ℕ → List ℕ → List Entity → List Entity
rekeyed e u [] = []
rekeyed e u (r ∷ rows) =
    let rest = rekeyed e u rows in
    if r.entity_id == e then record r { unique_id = u } ∷ rows else r ∷ rest

abbrev pub called : EntityCall → List Entity → List Entity
called (remove_entity e) rows = dropped e rows
called (new_unique_id e place u) rows = rekeyed e u rows

-- The rows after the calls.
unfoldable pub after : List EntityCall → List Entity → List Entity
after [] rows = rows
after (c ∷ cs) rows = after cs (called c rows)

-- Documented of the registry: a key is taken exactly where a row has it now.
pub record IsRegistry (rows : List Entity) (taken : Taken) : Type 0 where
  pub taken_now :
      (made : List EntityCall) (place : ℕ) (unique_id : List ℕ)
      → taken made place unique_id ≡ has_key place unique_id (after made rows)

-- No two rows have one key.
abbrev pub IsDistinct : List Entity → Type 0
IsDistinct [] = Unit {0}
IsDistinct (r ∷ rows) = (has_key r.place r.unique_id rows ≡ false) × IsDistinct rows

-- A call does not raise: the key that a row moves to is free.
abbrev pub IsFree : List Entity → EntityCall → Type 0
IsFree rows (remove_entity e) = Unit {0}
IsFree rows (new_unique_id e place u) = has_key place u rows ≡ false

-- No call raises.
abbrev pub Accepted : List Entity → List EntityCall → Type 0
Accepted rows [] = Unit {0}
Accepted rows (c ∷ cs) = IsFree rows c × Accepted (called c rows) cs

-- The rows with this id are of this domain and platform.
abbrev pub IsPlaced : ℕ → ℕ → List Entity → Type 0
IsPlaced e place = All (λ r. (not (r.entity_id == e) || r.place == place) ≡ true)

pub after-append :
    (cs : List EntityCall) (c : EntityCall) (rows : List Entity)
    → after (cs ++ c ∷ []) rows ≡ called c (after cs rows)
unfolding after
after-append [] c rows = refl
after-append (x ∷ cs) c rows = after-append cs c (called x rows)

pub Accepted-append :
    (cs : List EntityCall) (c : EntityCall) (rows : List Entity)
    → Accepted rows cs
    → IsFree (after cs rows) c
    → Accepted rows (cs ++ c ∷ [])
unfolding after
Accepted-append [] c rows h free = (free, tt)
Accepted-append (x ∷ cs) c rows h free = (h.0, Accepted-append cs c (called x rows) h.1 free)

has_key-dropped :
    (p : ℕ) (u : List ℕ) (e : ℕ) (rows : List Entity)
    → has_key p u rows ≡ false
    → has_key p u (dropped e rows) ≡ false
unfolding has_key dropped
has_key-dropped p u e [] h = refl
has_key-dropped p u e (r ∷ rows) h = ground (arith, has_key-dropped p u e rows)

pub dropped-IsDistinct :
    (e : ℕ) (rows : List Entity) → IsDistinct rows → IsDistinct (dropped e rows)
unfolding dropped
dropped-IsDistinct e [] h = tt
dropped-IsDistinct e (r ∷ rows) h = elim (Bool-cases (r.entity_id == e)) [
  | inl this ↦ rw this h.1
  | inr other ↦
      rw other (has_key-dropped r.place r.unique_id e rows h.0, dropped-IsDistinct e rows h.1)
]

pub dropped-IsPlaced :
    (e x place : ℕ) (rows : List Entity) → IsPlaced x place rows → IsPlaced x place (dropped e rows)
unfolding dropped
dropped-IsPlaced e x place [] h = tt
dropped-IsPlaced e x place (r ∷ rows) h = elim (Bool-cases (r.entity_id == e)) [
  | inl this ↦ rw this h.1
  | inr other ↦ rw other (h.0, dropped-IsPlaced e x place rows h.1)
]

pub rekeyed-IsPlaced :
    (e x place : ℕ) (u : List ℕ) (rows : List Entity)
    → IsPlaced x place rows
    → IsPlaced x place (rekeyed e u rows)
unfolding rekeyed
rekeyed-IsPlaced e x place u [] h = tt
rekeyed-IsPlaced e x place u (r ∷ rows) h = elim (Bool-cases (r.entity_id == e)) [
  | inl this ↦ rw this h
  | inr other ↦ rw other (h.0, rekeyed-IsPlaced e x place u rows h.1)
]

-- A key that is free stays free where a row moves to another one.
has_key-rekeyed :
    (p : ℕ) (v : List ℕ) (e place : ℕ) (u : List ℕ) (rows : List Entity)
    → IsPlaced e place rows
    → has_key p v rows ≡ false
    → (place == p && same_text u v) ≡ false
    → has_key p v (rekeyed e u rows) ≡ false
unfolding has_key rekeyed
has_key-rekeyed p v e place u [] h free apart = refl
has_key-rekeyed p v e place u (r ∷ rows) h free apart =
    ground (arith, h.0, has_key-rekeyed p v e place u rows h.1)

same_text_sym : (a b : List ℕ) → same_text a b ≡ false → same_text b a ≡ false
same_text_sym a b h = elim (Bool-cases (same_text b a)) [
  | inr no_match ↦ no_match
  | inl match ↦ let e : b ≡ a = same_text-eq b a match in cc (e, same_text_self b)
]

has_key-step :
    (p : ℕ) (u : List ℕ) (r : Entity) (rows : List Entity)
    → has_key p u (r ∷ rows) ≡ false
    → ((r.place == p && same_text r.unique_id u) ≡ false) × (has_key p u rows ≡ false)
unfolding has_key
has_key-step p u r rows h = ground arith

-- A row of its id is of its domain and platform.
placed_row :
    (e place : ℕ) (r : Entity) (rows : List Entity)
    → IsPlaced e place (r ∷ rows)
    → r.entity_id == e ≡ true
    → r.place ≡ place
placed_row e place r rows h this = ground (arith, h.0)

apart_back :
    (p q : ℕ) (a b : List ℕ) → (p == q && same_text a b) ≡ false → (q == p && same_text b a) ≡ false
apart_back p q a b h = ground (arith, same_text_sym a b)

pub rekeyed-IsDistinct :
    (e place : ℕ) (u : List ℕ) (rows : List Entity)
    → IsPlaced e place rows
    → has_key place u rows ≡ false
    → IsDistinct rows
    → IsDistinct (rekeyed e u rows)
unfolding rekeyed has_key
rekeyed-IsDistinct e place u [] h free d = tt
rekeyed-IsDistinct e place u (r ∷ rows) h free d = elim (Bool-cases (r.entity_id == e)) [
  | inl this ↦
      rw this (rw (placed_row e place r rows h this) (has_key-step place u r rows free).1, d.1)
  | inr other ↦ rw other (
    has_key-rekeyed r.place r.unique_id e place u rows h.1 d.0
        (apart_back r.place place r.unique_id u (has_key-step place u r rows free).0),
    rekeyed-IsDistinct e place u rows h.1 (has_key-step place u r rows free).1 d.1,
  )
]
