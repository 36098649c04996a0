-- ===== src/Release/Steps.antt =====
-- The steps of `run` that write: what each of them leaves when it ends well.
use onesti_lock.Base.{
  not, if◌then◌else◌, ℕ, Bool, true, false, Result, ok, err, List, [], ◌∷◌, Option, none, some, ◌≡◌,
  refl, ap, ◌∙◌, ◌⊎◌, inl, inr, All, All-append, Bool-cases, guard-eq_ok, >>=-eq_ok,
}
use onesti_lock.Integration.Services.{same_text}
use onesti_lock.Integration.Services.Meant.{same_text-eq}
use onesti_lock.Release.{Halt, Candidate, Asset, Release, World}
use onesti_lock.Release.Guards.{tag_sha, reads_back, arrived, zip_assets}
use onesti_lock.Release.Publish.{
  Write, create_release, upload_asset, publish_release, Ran, continued, ◌>>=◌, given, read, write,
  tag_ensured, ensure_tag, ensure_draft, upload_ended, asset_ensured, found,
}

-- What holds of a part of the flow holds of it after a call that only reads.
pub read_then :
    {A : Type 0} {B : Type 0} (P : Ran B → Type 0) (r : Result Halt A) (f : A → Ran B)
    → ((e : Halt) → P (read (err e)))
    → ((a : A) → r ≡ ok a → P (f a))
    → P (read r >>= f)
read_then P (ok a) f bad good = good a refl
read_then P (err e) f bad good = bad e

-- What holds of both branches holds of a test between them.
pub either_branch :
    {A : Type 0} (P : A → Type 0) (b : Bool) (x y : A)
    → (b ≡ true → P x)
    → (b ≡ false → P y)
    → P (if b then x else y)
either_branch P true x y f g = f refl
either_branch P false x y f g = g refl

-- A part that raises nothing has run both of its parts.
pub continued_ok :
    {A : Type 0} {B : Type 0} (writes : List Write) (r : Result Halt A) (f : A → Ran B) {b : B}
    → (continued writes r f).outcome ≡ ok b
    → (a : A) × (r ≡ ok a) × ((f a).outcome ≡ ok b)
continued_ok writes (ok a) f h = (a, refl, h)
continued_ok writes (err e) f h = cc h

abbrev pub is_publish : Write → Bool
is_publish (publish_release id latest) = true
is_publish _ = false

-- A release is public once its draft flag is taken off, or where it is made without one.
abbrev pub goes_public : Write → Bool
goes_public (create_release d) = not d.draft
goes_public x = is_publish x

-- Nothing among the writes makes a release public.
abbrev pub Unpublished : List Write → Type 0
Unpublished = All (λ x. goes_public x ≡ false)

pub continued-Unpublished :
    {A : Type 0} {B : Type 0} (writes : List Write) (r : Result Halt A) (f : A → Ran B)
    → Unpublished writes
    → ((a : A) → Unpublished (f a).writes)
    → Unpublished (continued writes r f).writes
continued-Unpublished writes (ok a) f h k =
    All-append (λ x. goes_public x ≡ false) writes (f a).writes h (k a)
continued-Unpublished writes (err e) f h k = h

pub write-Unpublished :
    {A : Type 0} (dry_run : Bool) (x : Write) (answer : Result Halt A)
    → goes_public x ≡ false
    → Unpublished (write dry_run x answer).writes
write-Unpublished true x answer h = tt
write-Unpublished false x answer h = (h, tt)

module _ (w : World) (c : Candidate) where
  -- The tag points at the candidate, or there was none and it is made there.
  abbrev pub Tagged : Type 0
  Tagged = (tag_sha w ≡ ok (some c.sha)) ⊎ (tag_sha w ≡ ok none) × (w.created_ref ≡ ok tt)

  -- The draft is the one that was found, or the one that GitHub made.
  abbrev pub IsDraft : Option Release → Release → Type 0
  IsDraft found r = (found ≡ some r) ⊎ (found ≡ none) × (w.created_release ≡ ok r)

module _ (w : World) (sha256 : List ℕ → List ℕ) (file : List ℕ) where
  -- The first asset with the name of the ZIP reads back with the digest of the ZIP.
  abbrev pub HoldsZip : List Asset → Type 0
  HoldsZip assets =
      (a : Asset) × (more : List Asset) × (loaded : List ℕ) × (assets ≡ a ∷ more)
      × (a.content ≡ ok loaded)
      × (sha256 loaded ≡ sha256 file)

  -- The release had the ZIP, or has it when it is read again after the upload.
  abbrev pub CarriesZip : Release → Type 0
  CarriesZip r =
      HoldsZip (zip_assets r.assets)
      ⊎ (updated : Release) × (w.updated ≡ ok updated) × HoldsZip (zip_assets updated.assets)

module _ (w : World) (c : Candidate) (dry_run : Bool) where
  tag_ensured-Unpublished : (t : Option (List ℕ)) → Unpublished (tag_ensured w c dry_run t).writes
  tag_ensured-Unpublished none = elim (Bool-cases dry_run) [
    | inl dry ↦ rw dry tt
    | inr wet ↦ rw wet (refl, tt)
  ]
  tag_ensured-Unpublished (some sha) = elim (Bool-cases (same_text sha c.sha)) [
    | inl same ↦ rw same tt
    | inr other ↦ rw other tt
  ]

  pub ensure_tag-Unpublished : Unpublished (ensure_tag w c dry_run).writes
  unfolding ensure_tag
  ensure_tag-Unpublished =
      continued-Unpublished [] (tag_sha w) (tag_ensured w c dry_run) tt tag_ensured-Unpublished

  pub ensure_draft-Unpublished :
      (r : Option Release) (body : List ℕ) → Unpublished (ensure_draft w c dry_run r body).writes
  unfolding ensure_draft
  ensure_draft-Unpublished (some r) body = tt
  ensure_draft-Unpublished none body = elim (Bool-cases dry_run) [
    | inl dry ↦ rw dry tt
    | inr wet ↦ rw wet (
        continued-Unpublished (create_release _ ∷ []) w.created_release (λ r. given (some r))
          (refl, tt) (λ r. tt))
  ]

  module _ (wet : dry_run ≡ false) where
    tagged_from :
        (t : Option (List ℕ))
        → tag_sha w ≡ ok t
        → (tag_ensured w c dry_run t).outcome ≡ ok tt
        → Tagged w c
    tagged_from none h k = inr (h, rw wet at k)
    tagged_from (some sha) h k = elim (Bool-cases (same_text sha c.sha)) [
      | inl same ↦ inl (h ∙ ap (λ x. ok (some x)) (same_text-eq sha c.sha same))
      | inr other ↦ cc (rw other at k)
    ]

    pub ensure_tag-Tagged : (ensure_tag w c dry_run).outcome ≡ ok tt → Tagged w c
    unfolding ensure_tag
    ensure_tag-Tagged h =
        let (t, found, k) = continued_ok [] (tag_sha w) (tag_ensured w c dry_run) h in
        tagged_from t found k

    pub ensure_draft-IsDraft :
        (found : Option Release) (body : List ℕ) (made : Option Release)
        → (ensure_draft w c dry_run found body).outcome ≡ ok made
        → (r : Release) × (made ≡ some r) × IsDraft w c found r
    unfolding ensure_draft
    ensure_draft-IsDraft (some r) body made h = (r, cc h, inl refl)
    ensure_draft-IsDraft none body made h =
        let k = rw wet at h in
        let (r, answer, last) =
          continued_ok (create_release _ ∷ []) w.created_release (λ r. given (some r)) k in
        (r, cc last, inr (refl, answer))

  module _ (sha256 : List ℕ → List ℕ) (file : List ℕ) where
    reads_back-HoldsZip :
        (a : Asset) (more : List Asset)
        → reads_back sha256 (sha256 file) a ≡ ok tt
        → HoldsZip w sha256 file (a ∷ more)
    reads_back-HoldsZip a more h =
        let (loaded, read_it, same) = >>=-eq_ok a.content _ h in
        let digests = guard-eq_ok (same_text (sha256 loaded) (sha256 file)) _ same in
        (a, more, loaded, refl, read_it, same_text-eq (sha256 loaded) (sha256 file) digests)

    arrived-HoldsZip :
        (assets : List Asset)
        → arrived sha256 (sha256 file) assets ≡ ok tt
        → HoldsZip w sha256 file assets
    arrived-HoldsZip [] h = cc h
    arrived-HoldsZip (a ∷ more) h = reads_back-HoldsZip a more h

    pub asset_ensured-Unpublished :
        (id : ℕ) (assets : List Asset)
        → Unpublished (asset_ensured w c dry_run sha256 (sha256 file) id file assets).writes
    asset_ensured-Unpublished id (a ∷ more) = tt
    asset_ensured-Unpublished id [] = elim (Bool-cases dry_run) [
      | inl dry ↦ rw dry tt
      | inr wet ↦ rw wet (
          continued-Unpublished (upload_asset id file ∷ [])
            (upload_ended (write false (upload_asset id file) w.uploaded)).outcome _ (refl, tt)
            (λ _. continued-Unpublished [] w.updated _ tt (λ updated. tt)))
    ]

    pub asset_ensured-CarriesZip :
        (r : Release) (assets : List Asset)
        → dry_run ≡ false
        → zip_assets r.assets ≡ assets
        → (asset_ensured w c dry_run sha256 (sha256 file) r.id file assets).outcome ≡ ok tt
        → CarriesZip w sha256 file r
    asset_ensured-CarriesZip r (a ∷ more) wet named h =
        inl (rw named (reads_back-HoldsZip a more h))
    asset_ensured-CarriesZip r [] wet named h =
        let k = rw wet at h in
        let (u, ended, rest) =
          continued_ok (upload_asset r.id file ∷ [])
            (upload_ended (write false (upload_asset r.id file) w.uploaded)).outcome _ k in
        let (updated, again, last) = continued_ok [] w.updated _ rest in
        inr (updated, again, arrived-HoldsZip (zip_assets updated.assets) last)
