-- ===== src/Release/Bound.antt =====
-- What `run` has made sure of when it publishes.
use onesti_lock.Base.{
  ℕ, Bool, false, Result, ok, err, List, [], ◌∷◌, ◌++◌, Option, none, some, not, ◌≡◌, refl, sym, ap,
  ◌∙◌, ◌⊎◌, inl, inr, guard, guard-eq_ok, ok-injective, >>=-eq_ok,
}
use onesti_lock.Integration.Services.{same_text}
use onesti_lock.Integration.Services.Meant.{same_text-eq}
use onesti_lock.Release.{Halt, Candidate, Release, World, stop}
use onesti_lock.Release.Zip.{Import, Packed, build_zip}
use onesti_lock.Release.Guards.{
  find_release, require_main_branch, draft_on_candidate, right_zip, should_be_latest,
}
use onesti_lock.Release.Published.{Info, check_published}
use onesti_lock.Release.Publish.{
  Write, publish_release, Ran, continued, ◌>>=◌, given, Options, Outcome, published, planned,
  ensure_tag, prepared, published_as, decided, attested_zip, new_release, found, run, worse,
}
use onesti_lock.Release.Steps.{
  read_then, either_branch, Unpublished, continued-Unpublished, ensure_tag-Unpublished,
}
use onesti_lock.Release.Prepared.{prepared-Unpublished, IsReady, prepared-IsReady}

-- A fresh build of the candidate, and the ZIP that goes out has its digest.
abbrev pub IsBuild : (List ℕ → List ℕ) → Result Halt (List ℕ) → List ℕ → Type 0
IsBuild sha256 built file =
    (expected : List ℕ) × (built ≡ ok expected) × (sha256 file ≡ sha256 expected)

right_zip-IsBuild :
    (sha256 : List ℕ → List ℕ) (path : Option (List ℕ)) (built : Result Halt (List ℕ))
    (file : List ℕ)
    → right_zip sha256 path built ≡ ok file
    → IsBuild sha256 built file
right_zip-IsBuild sha256 none built file h = (file, h, refl)
right_zip-IsBuild sha256 (some f) built file h =
    let (expected, made, rest) = >>=-eq_ok built _ h in
    let (u, same, last) = >>=-eq_ok (guard (same_text (sha256 f) (sha256 expected)) stop) _ rest in
    (
      expected,
      made,
      ap sha256 (sym (ok-injective last))
          ∙ same_text-eq (sha256 f) (sha256 expected)
              (guard-eq_ok (same_text (sha256 f) (sha256 expected)) stop same),
    )

-- Whether a release is out, and no draft.
abbrev pub is_out : Option Release → Bool
is_out none = false
is_out (some r) = not r.draft

module _ (parse : List ℕ → Option (List Import)) (zip : List Packed → List ℕ)
    (sha256 : List ℕ → List ℕ) (infolist : List ℕ → Result Halt (List Info)) (w : World)
    (o : Options) (c : Candidate) where
  -- What is so of a release that goes out: the ZIP, its digest, the tag and the draft are of one commit.
  abbrev pub Ships : Option Release → List ℕ → ℕ → Bool → Type 0
  Ships drafted file id latest =
      (find_release w c ≡ ok drafted)
      × (is_out drafted ≡ false)
      × (o.plan_only ≡ false)
      × (require_main_branch w c o.trial ≡ ok tt)
      × (draft_on_candidate c drafted ≡ ok tt)
      × IsBuild sha256 (build_zip parse zip w c.sha) file
      × (attested_zip parse zip sha256 infolist w o c file ≡ ok tt)
      × (should_be_latest w c ≡ ok latest)
      × IsReady parse zip sha256 infolist w o c drafted file id

  -- Nothing is made public; or that is the last thing that is written, and the release ships.
  abbrev pub Guarded : Ran Outcome → Type 0
  Guarded x =
      Unpublished x.writes
      ⊎ (drafted : Option Release) × (file : List ℕ) × (id : ℕ) × (latest : Bool) × (before : List
          Write)
        × (x.writes ≡ before ++ publish_release id latest ∷ [])
        × Unpublished before
        × Ships drafted file id latest

  published_writes :
      (id : ℕ) (latest : Bool) (answer : Result Halt (Unit {0}))
      → (continued (publish_release id latest ∷ []) answer (λ _. given published)).writes
        ≡ publish_release id latest ∷ []
  published_writes id latest (ok _) = refl
  published_writes id latest (err e) = refl

  last_call :
      (drafted : Option Release) (file : List ℕ) (latest : Bool)
      → o.plan_only ≡ false
      → (before : List Write) (r : Result Halt ℕ) → Unpublished before
      → ((id : ℕ) → r ≡ ok id → Ships drafted file id latest)
      → Guarded (continued before r (published_as parse zip sha256 infolist w o c latest))
  last_call drafted file latest wet before (err e) quiet ships = inl quiet
  last_call drafted file latest wet before (ok id) quiet ships = inr (
    drafted,
    file,
    id,
    latest,
    before,
    rw wet (ap (λ l. before ++ l) (published_writes id latest w.published)),
    quiet,
    ships id refl,
  )

  decided-Guarded :
      (drafted : Option Release) (file body : List ℕ) (latest : Bool)
      → ((id : ℕ)
          → o.plan_only ≡ false
          → IsReady parse zip sha256 infolist w o c drafted file id
          → Ships drafted file id latest)
      → Guarded (decided parse zip sha256 infolist w o c drafted file body latest)
  decided-Guarded drafted file body latest ships =
      either_branch Guarded o.plan_only (ensure_tag w c o.plan_only >>= λ _. given planned)
        (prepared parse zip sha256 infolist w o c drafted file body
          >>= published_as parse zip sha256 infolist w o c latest)
        (λ dry. inl (
          continued-Unpublished (ensure_tag w c o.plan_only).writes
            (ensure_tag w c o.plan_only).outcome _ (ensure_tag-Unpublished w c o.plan_only)
            (λ _. tt)))
        (λ wet.
          last_call drafted file latest wet
            (prepared parse zip sha256 infolist w o c drafted file body).writes
            (prepared parse zip sha256 infolist w o c drafted file body).outcome
            (prepared-Unpublished parse zip sha256 infolist w o c drafted file body)
            (λ id ended.
              ships id wet
                (prepared-IsReady parse zip sha256 infolist w o c drafted file body id wet ended)))

  new_release-Guarded :
      (drafted : Option Release)
      → find_release w c ≡ ok drafted
      → is_out drafted ≡ false
      → Guarded (new_release parse zip sha256 infolist w o c drafted)
  new_release-Guarded drafted there open_still =
      read_then Guarded (require_main_branch w c o.trial) _ (λ e. inl tt)
        (λ u main.
          read_then Guarded (draft_on_candidate c drafted) _ (λ e. inl tt)
            (λ v own.
              read_then Guarded (right_zip sha256 o.zip_path (build_zip parse zip w c.sha)) _
                (λ e. inl tt)
                (λ file built.
                  read_then Guarded (attested_zip parse zip sha256 infolist w o c file) _
                    (λ e. inl tt)
                    (λ x attested.
                      read_then Guarded (w.body (sha256 file)) _ (λ e. inl tt)
                        (λ body told.
                          read_then Guarded (should_be_latest w c) _ (λ e. inl tt)
                            (λ latest newest.
                              decided-Guarded drafted file body latest (λ id wet ready. (
                                there,
                                open_still,
                                wet,
                                main,
                                own,
                                right_zip-IsBuild sha256 o.zip_path (build_zip parse zip w c.sha)
                                    file built,
                                attested,
                                newest,
                                ready,
                              ))))))))

  found-Guarded :
      (drafted : Option Release)
      → find_release w c ≡ ok drafted
      → Guarded (found parse zip sha256 infolist w o c drafted)
  found-Guarded none there =
      either_branch Guarded o.strict _ _ (λ strict. inl tt)
        (λ _. new_release-Guarded none there refl)
  found-Guarded (some r) there =
      either_branch Guarded r.draft _ _
        (λ draft.
          either_branch Guarded o.strict _ _ (λ strict. inl tt)
            (λ _. new_release-Guarded (some r) there (ap not draft)))
        (λ out.
          read_then Guarded (check_published parse zip sha256 infolist w c r) _ (λ e. inl tt)
            (λ checks _.
              either_branch Guarded (worse o.strict checks) _ _ (λ _. inl tt) (λ _. inl tt)))

  -- Whatever git and GitHub answer, either nothing that `run` writes makes a release public, or the
  -- last thing that it writes does, and nothing before it: a release that it makes is a draft. Then this is no dry run and no check, the release
  -- was not out, the candidate passed the main-branch guard, a draft that was there is of the candidate,
  -- the ZIP has the digest of a fresh build of the commit and passed the attestation check where one is
  -- required, `latest` is what should_be_latest says, the tag is on the commit or was made there, and
  -- the published release is the draft, with an asset that reads back with the digest of the ZIP.
  pub run-Guarded : Guarded (run parse zip sha256 infolist w o c)
  unfolding run
  run-Guarded =
      read_then Guarded (find_release w c) _ (λ e. inl tt) (λ r there. found-Guarded r there)
