-- ===== src/Release/Proved.antt =====
-- What a check of a published version shows, when it passes.
use onesti_lock.Base.{
  true≢false, ℕ, Bool, true, false, Result, ok, err, List, [], ◌∷◌, Option, none, some, not, ◌≡◌,
  ◌≢◌, refl, sym, ap, ◌∙◌, ok-injective, >>=-eq_ok,
}
use onesti_lock.Release.{Halt, failure, crash, stop, Candidate, Asset, Release, World}
use onesti_lock.Release.Zip.{Import, Packed, build_zip}
use onesti_lock.Release.Guards.{tag_sha, find_release, zip_assets, verify_attestation}
use onesti_lock.Release.Published.{
  Info, Check, CheckName, content_check, tag_check, passed, not_passed, attestation_of,
  holds_together, content_checked, asset_checked, tag_checked, check_published, predates_zip,
}
use onesti_lock.Release.Publish.{Ran, Options, Outcome, noop, proved, found, run, worse}
use onesti_lock.Release.Steps.{continued_ok, either_branch}

-- Each check passed.
abbrev AllPass : List Check → Type 0
AllPass checks = worse true checks ≡ false

not_passed_fails :
    (name other : CheckName) (blocking : Bool)
    → worse true (passed name ∷ not_passed other blocking ∷ []) ≢ false
unfolding worse
not_passed_fails name other true h = cc h
not_passed_fails name other false h = cc h

attestation_passes :
    (r : Result Halt (Unit {0})) (x : Check)
    → attestation_of r ≡ ok x
    → AllPass (passed tag_check ∷ passed content_check ∷ x ∷ [])
    → r ≡ ok tt
unfolding worse
attestation_passes (ok _) x h k = refl
attestation_passes (err stop) x h k = absurd (
    true≢false (
      ap (λ y. worse true (passed tag_check ∷ passed content_check ∷ y ∷ [])) (ok-injective h) ∙ k))
attestation_passes (err failure) x h k = cc h
attestation_passes (err crash) x h k = cc h

module _ (parse : List ℕ → Option (List Import)) (zip : List Packed → List ℕ)
    (sha256 : List ℕ → List ℕ) (infolist : List ℕ → Result Halt (List Info)) (w : World) where
  -- The asset of a release reads back as the files of a build of a commit, and is attested for it.
  abbrev pub IsShipped : List ℕ → List Asset → Type 0
  IsShipped sha assets =
      (a : Asset) × (more : List Asset) × (built loaded : List ℕ) × (assets ≡ a ∷ more)
      × (a.content ≡ ok loaded)
      × (build_zip parse zip w sha ≡ ok built)
      × (holds_together parse zip sha256 infolist w built loaded ≡ ok true)
      × (verify_attestation w sha loaded (sha256 loaded) ≡ ok tt)

  content_passes :
      (sha loaded : List ℕ) (predates same : Bool) (checks : List Check)
      → content_checked parse zip sha256 infolist w sha loaded predates same ≡ ok checks
      → AllPass checks
      → (same ≡ true) × (verify_attestation w sha loaded (sha256 loaded) ≡ ok tt)
  content_passes sha loaded predates false checks h k = absurd (
      not_passed_fails tag_check content_check (not predates)
        (ap (worse true) (ok-injective h) ∙ k))
  content_passes sha loaded predates true checks h k =
      let (x, attested, rest) =
        >>=-eq_ok (attestation_of (verify_attestation w sha loaded (sha256 loaded))) _ h in
      (
        refl,
        attestation_passes (verify_attestation w sha loaded (sha256 loaded)) x attested
            (ap (worse true) (ok-injective rest) ∙ k),
      )

  asset_passes :
      (sha : List ℕ) (predates : Bool) (assets : List Asset) (checks : List Check)
      → asset_checked parse zip sha256 infolist w sha predates assets ≡ ok checks
      → AllPass checks
      → IsShipped sha assets
  asset_passes sha predates [] checks h k = absurd (
      not_passed_fails tag_check content_check (not predates)
        (ap (worse true) (ok-injective h) ∙ k))
  asset_passes sha predates (a ∷ more) checks h k =
      let (built, is_built, h1) = >>=-eq_ok (build_zip parse zip w sha) _ h in
      let (loaded, read_back, h2) = >>=-eq_ok a.content _ h1 in
      let (same, holds, h3) =
        >>=-eq_ok (holds_together parse zip sha256 infolist w built loaded) _ h2 in
      let (together, attested) = content_passes sha loaded predates same checks h3 k in
      (a, more, built, loaded, refl, read_back, is_built, holds ∙ ap ok together, attested)

  tag_passes :
      (c : Candidate) (r : Release) (t : Option (List ℕ)) (checks : List Check)
      → tag_checked parse zip sha256 infolist w c r t ≡ ok checks
      → AllPass checks
      → (sha : List ℕ) × (t ≡ some sha) × IsShipped sha (zip_assets r.assets)
  unfolding worse
  tag_passes c r none checks h k = absurd (true≢false (ap (worse true) (ok-injective h) ∙ k))
  tag_passes c r (some sha) checks h k =
      let (predates, known, h1) = >>=-eq_ok (predates_zip c) _ h in
      (sha, refl, asset_passes sha predates (zip_assets r.assets) checks h1 k)

  -- A release of the candidate is out, and what it ships is of the commit that its tag points at.
  abbrev pub IsProved : Candidate → Type 0
  IsProved c =
      (r : Release) × (sha : List ℕ) × (find_release w c ≡ ok (some r))
      × (r.draft ≡ false)
      × (tag_sha w ≡ ok (some sha))
      × IsShipped sha (zip_assets r.assets)

  released :
      (c : Candidate) (r : Release) (checks : List Check)
      → find_release w c ≡ ok (some r)
      → r.draft ≡ false
      → check_published parse zip sha256 infolist w c r ≡ ok checks
      → AllPass checks
      → IsProved c
  unfolding check_published
  released c r checks there out h k =
      let (t, tagged, h1) = >>=-eq_ok (tag_sha w) _ h in
      let (sha, is_sha, shipped) = tag_passes c r t checks h1 k in
      (r, sha, there, out, tagged ∙ ap ok is_sha, shipped)

module _ (parse : List ℕ → Option (List Import)) (zip : List Packed → List ℕ)
    (sha256 : List ℕ → List ℕ) (infolist : List ℕ → Result Halt (List Info)) (w : World)
    (o : Options) (c : Candidate) where
  proved_noop :
      (checks : List Check) (x : Outcome)
      → o.strict ≡ true
      → (proved parse zip sha256 infolist w o c checks).outcome ≡ ok x
      → (x ≡ noop) × AllPass checks
  proved_noop checks x strict =
      either_branch (λ (y : Ran Outcome). y.outcome ≡ ok x → (x ≡ noop) × AllPass checks)
        (worse o.strict checks) _ _ (λ _ h. cc h)
        (λ fine h. (sym (ok-injective h), ap (λ b. worse b checks) (sym strict) ∙ fine))

  found-IsProved :
      (t : Option Release) (x : Outcome)
      → o.strict ≡ true
      → find_release w c ≡ ok t
      → (found parse zip sha256 infolist w o c t).outcome ≡ ok x
      → (x ≡ noop) × IsProved parse zip sha256 infolist w c
  found-IsProved none x strict there =
      either_branch
        (λ (y : Ran Outcome).
          y.outcome ≡ ok x → (x ≡ noop) × IsProved parse zip sha256 infolist w c)
        o.strict _ _ (λ _ h. cc h) (λ loose. absurd (true≢false (sym strict ∙ loose)))
  found-IsProved (some r) x strict there =
      either_branch
        (λ (y : Ran Outcome).
          y.outcome ≡ ok x → (x ≡ noop) × IsProved parse zip sha256 infolist w c)
        r.draft _ _
        (λ draft.
          either_branch
            (λ (y : Ran Outcome).
              y.outcome ≡ ok x → (x ≡ noop) × IsProved parse zip sha256 infolist w c)
            o.strict _ _ (λ _ h. cc h) (λ loose. absurd (true≢false (sym strict ∙ loose))))
        (λ out h.
          let (checks, checked, rest) =
            continued_ok [] (check_published parse zip sha256 infolist w c r) _ h in
          let (is_noop, fine) = proved_noop checks x strict rest in
          (is_noop, released parse zip sha256 infolist w c r checks there out checked fine))

  -- A strict run that ends well has done nothing, and has proved the release: one with the tag of the
  -- candidate is out, its asset reads back as the files of a build of the commit that the tag points
  -- at, and the attestation covers it for that commit.
  pub run_verified :
      (x : Outcome)
      → o.strict ≡ true
      → (run parse zip sha256 infolist w o c).outcome ≡ ok x
      → (x ≡ noop) × IsProved parse zip sha256 infolist w c
  unfolding run
  run_verified x strict h =
      let (t, there, rest) = continued_ok [] (find_release w c) _ h in
      found-IsProved t x strict there rest
