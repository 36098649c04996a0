-- ===== src/Release/Retried.antt =====
-- Runs of the flow that write less: a dry run, a retry, and a tag that points elsewhere.
use onesti_lock.Base.{
  true≢false, ℕ, Bool, true, false, Result, ok, err, List, [], ◌∷◌, Option, none, some, not, ◌≡◌,
  ◌≢◌, refl, sym, ap, ◌∙◌, All, ok-injective,
}
use onesti_lock.Integration.Services.{same_text}
use onesti_lock.Integration.Services.Meant.{same_text-eq, same_text_self}
use onesti_lock.Release.{Halt, stop, Candidate, Asset, Release, World}
use onesti_lock.Release.Zip.{Import, Packed, build_zip}
use onesti_lock.Release.Guards.{
  tag_sha, find_release, require_main_branch, draft_on_candidate, right_zip, zip_assets,
  should_be_latest, reads_back,
}
use onesti_lock.Release.Published.{Info, check_published}
use onesti_lock.Release.Publish.{
  Write, publish_release, Ran, continued, ◌>>=◌, given, read, write, Options, Outcome, published,
  tag_ensured, ensure_tag, ensure_draft, ensure_asset, prepared, published_as, decided,
  attested_zip, new_release, found, run, worse,
}
use onesti_lock.Release.Bound.{is_out}
use onesti_lock.Release.Steps.{read_then, either_branch, is_publish}

-- Only a publishing is written.
abbrev pub OnlyPublishes : List Write → Type 0
OnlyPublishes = All (λ x. is_publish x ≡ true)

-- Nothing is written, and no release goes out.
abbrev pub Untouched : Ran Outcome → Type 0
Untouched x = (x.writes ≡ []) × (x.outcome ≢ ok published)

not_true : (b : Bool) → b ≢ true → b ≡ false
not_true true h = absurd (h refl)
not_true false h = refl

abbrev Silent : {A : Type 0} → Ran A → Type 0
Silent x = x.writes ≡ []

continued-Silent :
    {A : Type 0} {B : Type 0} (writes : List Write) (r : Result Halt A) (f : A → Ran B)
    → writes ≡ []
    → ((a : A) → (f a).writes ≡ [])
    → (continued writes r f).writes ≡ []
continued-Silent writes (ok a) f h k = rw h (k a)
continued-Silent writes (err e) f h k = h

module _ (w : World) (c : Candidate) where
  ensure_tag_there :
      (dry_run : Bool)
      → tag_sha w ≡ ok (some c.sha)
      → same_text c.sha c.sha ≡ true
      → ensure_tag w c dry_run ≡ given tt
  unfolding ensure_tag
  ensure_tag_there dry_run there same = rw there (rw same refl)

  ensure_tag_foreign :
      (dry_run : Bool) (sha : List ℕ)
      → tag_sha w ≡ ok (some sha)
      → same_text sha c.sha ≡ false
      → ensure_tag w c dry_run ≡ read (err stop)
  unfolding ensure_tag
  ensure_tag_foreign dry_run sha there other = rw there (rw other refl)

  ensure_tag_dry : (dry_run : Bool) → dry_run ≡ true → (ensure_tag w c dry_run).writes ≡ []
  unfolding ensure_tag
  ensure_tag_dry dry_run dry =
      read_then Silent (tag_sha w) (tag_ensured w c dry_run) (λ e. refl) (λ t _. tagged t)
    where
      tagged : (t : Option (List ℕ)) → Silent (tag_ensured w c dry_run t)
      tagged none =
          either_branch Silent dry_run _ _ (λ _. refl) (λ wet. absurd (true≢false (sym dry ∙ wet)))
      tagged (some sha) = either_branch Silent (same_text sha c.sha) _ _ (λ _. refl) (λ _. refl)

module _ (parse : List ℕ → Option (List Import)) (zip : List Packed → List ℕ)
    (sha256 : List ℕ → List ℕ) (infolist : List ℕ → Result Halt (List Info)) (w : World)
    (o : Options) (c : Candidate) where
  -- What is so of `decided` and of a part that halts is so of a run over a draft.
  new_release_lifts :
      (P : Ran Outcome → Type 0)
      → ((e : Halt) → P (read (err e)))
      → (drafted : Option Release)
      → ((file body : List ℕ) (latest : Bool)
          → P (decided parse zip sha256 infolist w o c drafted file body latest))
      → P (new_release parse zip sha256 infolist w o c drafted)
  new_release_lifts P halts drafted goes =
      read_then P (require_main_branch w c o.trial) _ halts (λ u _.
        read_then P (draft_on_candidate c drafted) _ halts (λ v _.
          read_then P (right_zip sha256 o.zip_path (build_zip parse zip w c.sha)) _ halts (λ file _.
            read_then P (attested_zip parse zip sha256 infolist w o c file) _ halts (λ x _.
              read_then P (w.body (sha256 file)) _ halts (λ body _.
                read_then P (should_be_latest w c) _ halts (λ latest _. goes file body latest))))))

  run_lifts :
      (P : Ran Outcome → Type 0)
      → ((e : Halt) → P (read (err e)))
      → P (given Outcome.noop)
      → ((drafted : Option Release)
          → find_release w c ≡ ok drafted
          → is_out drafted ≡ false
          → (file body : List ℕ) (latest : Bool)
          → P (decided parse zip sha256 infolist w o c drafted file body latest))
      → P (run parse zip sha256 infolist w o c)
  unfolding run
  run_lifts P halts done goes =
      read_then P (find_release w c) _ halts (λ drafted there. started drafted there)
    where
      started :
          (drafted : Option Release)
          → find_release w c ≡ ok drafted
          → P (found parse zip sha256 infolist w o c drafted)
      started none there =
          either_branch P o.strict _ _ (λ _. halts stop)
            (λ _. new_release_lifts P halts none (goes none there refl))
      started (some r) there =
          either_branch P r.draft _ _
            (λ draft.
              either_branch P o.strict _ _ (λ _. halts stop)
                (λ _. new_release_lifts P halts (some r) (goes (some r) there (ap not draft))))
            (λ out.
              read_then P (check_published parse zip sha256 infolist w c r) _ halts (λ checks _.
                either_branch P (worse o.strict checks) _ _ (λ _. halts stop) (λ _. done)))

  -- A dry run writes nothing to GitHub, whatever it and git answer.
  pub run_dry : o.plan_only ≡ true → (run parse zip sha256 infolist w o c).writes ≡ []
  run_dry dry =
      run_lifts Silent (λ e. refl) refl
        (λ drafted there open_still file body latest.
          either_branch Silent o.plan_only _ _
            (λ _.
              continued-Silent (ensure_tag w c o.plan_only).writes
                (ensure_tag w c o.plan_only).outcome _ (ensure_tag_dry w c o.plan_only dry)
                (λ _. refl))
            (λ wet. absurd (true≢false (sym dry ∙ wet))))

  prepared_retried :
      (r : Release) (a : Asset) (more : List Asset) (file body : List ℕ)
      → tag_sha w ≡ ok (some c.sha)
      → zip_assets r.assets ≡ a ∷ more
      → prepared parse zip sha256 infolist w o c (some r) file body
        ≡ (read (reads_back sha256 (sha256 file) a) >>= λ _. given r.id)
  unfolding prepared ensure_draft ensure_asset
  prepared_retried r a more file body tagged carries =
      rw (ensure_tag_there w c o.plan_only tagged (same_text_self c.sha)) (rw carries refl)

  published_only :
      (latest dry_run : Bool) (id : ℕ) (answer : Result Halt (Unit {0}))
      → OnlyPublishes
          (write dry_run (publish_release id latest) answer >>= λ _. given published).writes
  published_only latest true id answer = tt
  published_only latest false id (ok _) = (refl, tt)
  published_only latest false id (err e) = (refl, tt)

  -- A run that finds the tag on the candidate, and a release with an asset under the name of the ZIP,
  -- makes no tag and no draft and uploads nothing: all that it writes, if anything, is the publishing.
  pub run_retried :
      (r : Release) (a : Asset) (more : List Asset)
      → tag_sha w ≡ ok (some c.sha)
      → find_release w c ≡ ok (some r)
      → zip_assets r.assets ≡ a ∷ more
      → OnlyPublishes (run parse zip sha256 infolist w o c).writes
  run_retried r a more tagged there carries =
      run_lifts (λ x. OnlyPublishes x.writes) (λ e. tt) tt goes
    where
      goes :
          (drafted : Option Release)
          → find_release w c ≡ ok drafted
          → is_out drafted ≡ false
          → (file body : List ℕ) (latest : Bool)
          → OnlyPublishes (decided parse zip sha256 infolist w o c drafted file body latest).writes
      goes drafted found_it open_still file body latest =
          either_branch (λ (x : Ran Outcome). OnlyPublishes x.writes) o.plan_only _ _
            (λ _. rw (ensure_tag_there w c o.plan_only tagged (same_text_self c.sha)) tt)
            (λ _. rw (ok-injective (sym found_it ∙ there)) (
              rw (prepared_retried r a more file body tagged carries) (
                read_then
                  (λ x.
                    OnlyPublishes
                      (x >>= published_as parse zip sha256 infolist w o c latest).writes)
                  (reads_back sha256 (sha256 file) a) (λ _. given r.id) (λ e. tt)
                  (λ _ _. published_only latest o.plan_only r.id w.published))))

  -- Where the tag points at another commit, `run` writes nothing to GitHub and publishes nothing: the tag
  -- is not moved.
  pub run_foreign_tag :
      (sha : List ℕ)
      → tag_sha w ≡ ok (some sha)
      → sha ≢ c.sha
      → Untouched (run parse zip sha256 infolist w o c)
  unfolding prepared
  run_foreign_tag sha tagged other =
      run_lifts Untouched halted (refl, λ h. cc h)
        (λ drafted there open_still file body latest.
          either_branch Untouched o.plan_only _ _ (λ _. rw foreign (halted stop))
            (λ _. rw foreign (halted stop)))
    where
      halted : (e : Halt) → Untouched (read (err e))
      halted e = (refl, λ h. cc h)

      differs : same_text sha c.sha ≡ false
      differs = not_true (same_text sha c.sha) (λ same. other (same_text-eq sha c.sha same))

      foreign : ensure_tag w c o.plan_only ≡ read (err stop)
      foreign = ensure_tag_foreign w c o.plan_only sha tagged differs
