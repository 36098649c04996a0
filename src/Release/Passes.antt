-- ===== src/Release/Passes.antt =====
-- A published version that is byte-identical and attested passes the check.
use onesti_lock.Base.{
  if◌then◌else◌, true≢false, ℕ, Bool, true, false, Result, ok, List, [], ◌∷◌, Option, some, ◌≡◌,
  refl, sym, ap, ◌∙◌,
}
use onesti_lock.Integration.Services.{same_text}
use onesti_lock.Integration.Services.Meant.{same_text_self}
use onesti_lock.Release.{version_numbers, Halt, Candidate, Asset, Release, World}
use onesti_lock.Release.Zip.{Import, Packed, build_zip}
use onesti_lock.Release.Guards.{tag_sha, find_release, zip_assets, verify_attestation}
use onesti_lock.Release.Published.{
  Info, content_check, attestation_check, tag_check, passed, holds_together, check_published,
  predates_zip,
}
use onesti_lock.Release.Publish.{given, Options, noop, run, worse}

-- The second branch of a test that fails.
second_branch : {A : Type 0} (b : Bool) (x y : A) → b ≡ false → (if b then x else y) ≡ y
second_branch true x y h = absurd (true≢false h)
second_branch false x y h = refl

module _ (parse : List ℕ → Option (List Import)) (zip : List Packed → List ℕ)
    (sha256 : List ℕ → List ℕ) (infolist : List ℕ → Result Halt (List Info)) (w : World)
    (o : Options) (c : Candidate) where
  identical_holds :
      (built file : List ℕ)
      → sha256 file ≡ sha256 built
      → holds_together parse zip sha256 infolist w built file ≡ ok true
  identical_holds built file h =
      rw (ap (λ d. same_text (sha256 file) d) (sym h) ∙ same_text_self (sha256 file)) refl

  checks_pass :
      (r : Release) (a : Asset) (more : List Asset) (file built numbers : List ℕ)
      → tag_sha w ≡ ok (some c.sha)
      → version_numbers c.version ≡ some numbers
      → zip_assets r.assets ≡ a ∷ more
      → a.content ≡ ok file
      → build_zip parse zip w c.sha ≡ ok built
      → sha256 file ≡ sha256 built
      → verify_attestation w c.sha file (sha256 file) ≡ ok tt
      → check_published parse zip sha256 infolist w c r
        ≡ ok (passed tag_check ∷ passed content_check ∷ passed attestation_check ∷ [])
  unfolding check_published predates_zip
  checks_pass r a more file built numbers tagged version assets content is_built digest attested =
      rw tagged (
        rw version (
          rw assets
            (rw is_built (rw content (rw (identical_holds built file digest) (rw attested refl))))))

  -- `run` is content with a release that is out: where its asset reads back as a file with the digest
  -- of a build of the candidate, the attestation covers the file for the candidate, the tag points
  -- at the candidate, and the version of the candidate is three numbers,
  -- it ends well whatever its options are, and writes nothing.
  pub run_passes :
      (r : Release) (a : Asset) (more : List Asset) (file built numbers : List ℕ)
      → find_release w c ≡ ok (some r)
      → r.draft ≡ false
      → tag_sha w ≡ ok (some c.sha)
      → version_numbers c.version ≡ some numbers
      → zip_assets r.assets ≡ a ∷ more
      → a.content ≡ ok file
      → build_zip parse zip w c.sha ≡ ok built
      → sha256 file ≡ sha256 built
      → verify_attestation w c.sha file (sha256 file) ≡ ok tt
      → run parse zip sha256 infolist w o c ≡ given noop
  unfolding run worse
  run_passes r a more file built numbers there out tagged version assets content is_built digest
        attested =
      rw there (
        second_branch r.draft _ _ out
        ∙ rw
            (checks_pass r a more file built numbers tagged version assets content is_built digest
              attested)
            refl)
