-- ===== src/Integration/Services/Meant.antt =====
-- A call never reaches a lock that it did not mean.
use onesti_lock.Base.{
  ℕ, true, ok, List, [], ◌∷◌, Option, none, some, ◌≡◌, inl, inr, refl, ap, sym, ◌∙◌, arith, ◌==◌,
  ==_iff, Bool-cases,
}
use onesti_lock.Integration.Services.{
  Lock, Target, lower, same_text, find_by_ieee, find_by_entry, get_coordinator,
}

pub same_text-eq : (a b : List ℕ) → same_text a b ≡ true → a ≡ b
unfolding same_text
same_text-eq [] [] h = refl
same_text-eq (a ∷ xs) [] h = cc h
same_text-eq [] (b ∷ ys) h = cc h
same_text-eq (a ∷ xs) (b ∷ ys) h =
    ground (arith, λ (t : same_text xs ys ≡ true). same_text-eq xs ys t)

pub same_text_self : (t : List ℕ) → same_text t t ≡ true
unfolding same_text
same_text_self [] = refl
same_text_self (x ∷ xs) = ground (arith, same_text_self xs)

find_by_ieee_found :
    (ieee : List ℕ) (locks : List Lock) (l : Lock)
    → find_by_ieee ieee locks ≡ some l
    → lower l.ieee ≡ lower ieee
unfolding find_by_ieee
find_by_ieee_found ieee [] l h = cc h
find_by_ieee_found ieee (k ∷ ks) l h = elim (Bool-cases (same_text (lower k.ieee) (lower ieee))) [
  | inl same ↦
      let here : k ≡ l = cc (rw same at h) in
      ap (λ x. lower x.ieee) (sym here) ∙ same_text-eq (lower k.ieee) (lower ieee) same
  | inr other ↦ find_by_ieee_found ieee ks l (rw other at h)
]

find_by_entry_found :
    (entry_id : ℕ) (locks : List Lock) (l : Lock)
    → find_by_entry entry_id locks ≡ some l
    → l.entry_id ≡ entry_id
unfolding find_by_entry
find_by_entry_found entry_id [] l h = cc h
find_by_entry_found entry_id (k ∷ ks) l h = elim (Bool-cases (k.entry_id == entry_id)) [
  | inl same ↦
      let here : k ≡ l = cc (rw same at h) in
      ap (λ x. x.entry_id) (sym here) ∙ (==_iff k.entry_id entry_id).0 same
  | inr other ↦ find_by_entry_found entry_id ks l (rw other at h)
]

-- The lock of an address whatever its case; no address, and an empty one, mean the only lock there is.
abbrev pub MeansAddress : Option (List ℕ) → List Lock → Lock → Type 0
MeansAddress none locks l = locks ≡ l ∷ []
MeansAddress (some []) locks l = locks ≡ l ∷ []
MeansAddress (some (c ∷ cs)) locks l = lower l.ieee ≡ lower (c ∷ cs)

-- A device id that is not empty decides, by the entry that the registry has for it; then the address.
abbrev pub MeansDevice : Option (List ℕ) → Target → List Lock → Lock → Type 0
MeansDevice none t locks l = MeansAddress t.ieee locks l
MeansDevice (some []) t locks l = MeansAddress t.ieee locks l
MeansDevice (some (c ∷ cs)) t locks l = t.device_entry ≡ some l.entry_id

abbrev pub Means : Target → List Lock → Lock → Type 0
Means t locks l = MeansDevice t.device_id t locks l

-- A lock that a call reaches is the one that the call means: the one of its device id, else of its
-- address in any case, else the only one. An empty device id or address is as if it was not given.
pub get_coordinator-Means :
    (t : Target) (locks : List Lock) (l : Lock) → get_coordinator t locks ≡ ok l → Means t locks l
unfolding get_coordinator
get_coordinator-Means t locks l h = by_device_id t.device_id t.device_entry t.ieee h
  where
    by_address :
        (entry : Option ℕ) (ieee : Option (List ℕ))
        → get_coordinator (record { device_id = none; device_entry = entry; ieee = ieee }) locks
          ≡ ok l
        → MeansAddress ieee locks l
    by_address entry none e = ground arith
    by_address entry (some []) e = ground arith
    by_address entry (some (c ∷ cs)) e = ground (
      arith,
      e,
      λ (f : find_by_ieee (c ∷ cs) locks ≡ some l). find_by_ieee_found (c ∷ cs) locks l f,
    )

    by_device_id :
        (device_id : Option (List ℕ)) (entry : Option ℕ) (ieee : Option (List ℕ))
        → get_coordinator
            (record { device_id = device_id; device_entry = entry; ieee = ieee })
            locks
          ≡ ok l
        → Means (record { device_id = device_id; device_entry = entry; ieee = ieee }) locks l
    by_device_id none entry ieee e = by_address entry ieee e
    by_device_id (some []) entry ieee e = by_address entry ieee e
    by_device_id (some (c ∷ cs)) none ieee e = cc e
    by_device_id (some (c ∷ cs)) (some entry_id) ieee e = ground (
      arith,
      e,
      λ (f : find_by_entry entry_id locks ≡ some l). find_by_entry_found entry_id locks l f,
    )
