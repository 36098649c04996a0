-- ===== src/Integration/ConfigFlow/Offer.antt =====
-- What the config flow offers is in ZHA and free, and so is the lock of every entry that it makes.
use mathlib.Core.Path.{subst}
use onesti_lock.Base.{
  ℕ, Bool, false, List, [], ◌∷◌, Option, none, some, ◌≡◌, ◌⊎◌, inl, inr, refl, ap, arith, All,
  if◌then◌else◌, Bool-cases,
}
use onesti_lock.Integration.Services.{same_text}
use onesti_lock.Integration.Services.Meant.{same_text-eq}
use onesti_lock.Integration.ZhaDevices.{Gateway, OnestiLock, is_zha_loaded, iter_onesti_locks}
use onesti_lock.Integration.ConfigFlow.{
  Entry, is_text, takes, is_taken, put_lock, get_model, offer_each, locks_on_offer, UniqueIds, Step,
  entry_created, chosen, submitted, offered, step_user,
}

abbrev pub In : OnestiLock → List OnestiLock → Type 0
In l [] = ⊥
In l (m ∷ ms) = (l ≡ m) ⊎ In l ms

module _ (P : OnestiLock → Type 0) where
  put_lock-All :
      (l : OnestiLock) (locks : List OnestiLock) → P l → All P locks → All P (put_lock l locks)
  unfolding put_lock
  put_lock-All l [] p h = (p, tt)
  put_lock-All l (m ∷ ms) p h = elim (Bool-cases (same_text m.ieee l.ieee)) [
    | inl same ↦ rw same (p, h.1)
    | inr other ↦ rw other (h.0, put_lock-All l ms p h.1)
  ]

  offer_each-All :
      (taken : List ℕ → Bool) (ls locks : List OnestiLock)
      → ((l : OnestiLock) → In l ls → taken l.ieee ≡ false → P l)
      → All P locks
      → All P (offer_each taken ls locks)
  unfolding offer_each
  offer_each-All taken [] locks each h = h
  offer_each-All taken (l ∷ ls) locks each h = elim (Bool-cases (taken l.ieee)) [
    | inl there ↦ rw there (offer_each-All taken ls locks (λ m i f. each m (inr i) f) h)
    | inr free ↦ rw free (
        offer_each-All taken ls (put_lock l locks) (λ m i f. each m (inr i) f)
          (put_lock-All l locks (each l (inl refl) free) h))
  ]

  get_model-All :
      (ieee model : List ℕ) (locks : List OnestiLock)
      → All P locks
      → get_model ieee locks ≡ some model
      → P (record { ieee = ieee; model = model })
  unfolding get_model
  get_model-All ieee model [] h g = cc
  get_model-All ieee model (m ∷ ms) h g = elim (Bool-cases (same_text m.ieee ieee)) [
    | inl same ↦
        let e : m.ieee ≡ ieee = same_text-eq m.ieee ieee same in
        let f : m.model ≡ model = cc (rw same at g) in
        let whole : m ≡ record { ieee = ieee; model = model } =
          λ i. record { ieee = e i; model = f i } in
        subst P whole h.0
    | inr other ↦ get_model-All ieee model ms h.1 (rw other at g)
  ]

-- What is on offer: a lock of ZHA that the entries leave free.
abbrev pub Offered : Option ℕ → Bool → List Entry → Gateway → OnestiLock → Type 0
Offered skip ignored entries g l =
    In l (iter_onesti_locks g) × (is_taken skip ignored l.ieee entries ≡ false)

pub locks_on_offer-Offered :
    (skip : Option ℕ) (ignored : Bool) (entries : List Entry) (g : Gateway)
    → All (Offered skip ignored entries g) (locks_on_offer skip ignored entries g)
unfolding locks_on_offer
locks_on_offer-Offered skip ignored entries g =
    offer_each-All (Offered skip ignored entries g) (λ ieee. is_taken skip ignored ieee entries)
      (iter_onesti_locks g) [] (λ l i f. (i, f)) tt

pub get_model-Offered :
    (skip : Option ℕ) (ignored : Bool) (entries : List Entry) (g : Gateway) (ieee model : List ℕ)
    → get_model ieee (locks_on_offer skip ignored entries g) ≡ some model
    → Offered skip ignored entries g (record { ieee = ieee; model = model })
get_model-Offered skip ignored entries g ieee model h =
    get_model-All (Offered skip ignored entries g) ieee model
      (locks_on_offer skip ignored entries g) (locks_on_offer-Offered skip ignored entries g) h

-- An entry that holds an address: as its own, or as the lock that it ignores.
abbrev pub holds : List ℕ → Entry → Bool
holds ieee e = if e.ignored then is_text ieee e.unique_id else is_text ieee e.ieee

pub nobody_holds :
    (ieee : List ℕ) (entries : List Entry)
    → is_taken none false ieee entries ≡ false
    → All (λ e. holds ieee e ≡ false) entries
unfolding is_taken takes
nobody_holds ieee [] h = tt
nobody_holds ieee (e ∷ es) h = (ground arith, nobody_holds ieee es (ground arith))

-- What the user step made an entry of.
abbrev pub Created : UniqueIds → List Entry → Gateway → Option (List ℕ) → Step → Type 0
Created ids entries g user_input (entry_created l) =
    (user_input ≡ some l.ieee)
    × In l (iter_onesti_locks g)
    × All (λ e. holds l.ieee e ≡ false) entries
    × (ids.in_progress l.ieee ≡ false)
    × (ids.configured l.ieee ≡ false)
Created ids entries g user_input _ = Unit {0}

module _ (ids : UniqueIds) (entries : List Entry) (g : Gateway) where
  chosen-Created :
      (ieee : List ℕ) (locks : List OnestiLock) (m : Option (List ℕ))
      → get_model ieee (locks_on_offer none false entries g) ≡ m
      → ids.in_progress ieee ≡ false
      → ids.configured ieee ≡ false
      → Created ids entries g (some ieee) (chosen locks ieee m)
  chosen-Created ieee locks none h p c = tt
  chosen-Created ieee locks (some model) h p c =
      let (listed, free) = get_model-Offered none false entries g ieee model h in
      (refl, listed, nobody_holds ieee entries free, p, c)

  submitted-Created :
      (locks : List OnestiLock) (user_input : Option (List ℕ))
      → locks_on_offer none false entries g ≡ locks
      → Created ids entries g user_input (submitted ids locks user_input)
  submitted-Created locks none h = tt
  submitted-Created locks (some ieee) h = elim (Bool-cases (ids.in_progress ieee)) [
    | inl there ↦ rw there tt
    | inr free ↦ elim (Bool-cases (ids.configured ieee)) [
      | inl there ↦ rw (free, there) tt
      | inr open_id ↦
          rw (free, open_id)
            (chosen-Created ieee locks (get_model ieee locks) (ap (get_model ieee) h) free open_id)
    ]
  ]

  offered-Created :
      (locks : List OnestiLock) (user_input : Option (List ℕ))
      → locks_on_offer none false entries g ≡ locks
      → Created ids entries g user_input (offered ids locks user_input)
  offered-Created [] user_input h = tt
  offered-Created (l ∷ ls) user_input h = submitted-Created (l ∷ ls) user_input h

  -- The user step makes an entry only of the lock that was chosen, with the model that ZHA has for
  -- it now, where no entry holds its address, ignored ones included, and where Home Assistant
  -- knows no other flow and no entry with its unique id.
  pub step_user-Created :
      (user_input : Option (List ℕ))
      → Created ids entries g user_input (step_user ids entries g user_input)
  unfolding step_user
  step_user-Created user_input = elim (Bool-cases (is_zha_loaded g)) [
    | inl up ↦ rw up (offered-Created (locks_on_offer none false entries g) user_input refl)
    | inr down ↦ rw down tt
  ]
