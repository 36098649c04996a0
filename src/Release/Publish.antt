-- ===== src/Release/Publish.antt =====
-- `run`: the flow that publishes a version, or proves one that is out. Printing and the outcome file of
-- the workflow are left out.
use onesti_lock.Base.{
  ℕ, Bool, true, false, Result, ok, err, List, [], ◌∷◌, ◌++◌, Option, none, some, not, ◌&&◌, ◌||◌,
  if◌then◌else◌,
}
use onesti_lock.Integration.Services.{same_text}
use onesti_lock.Release.{
  Halt, failure, stop, crash, Candidate, tag, trial_version, Asset, Release, World,
}
use onesti_lock.Release.Zip.{Import, Packed, build_zip}
use onesti_lock.Release.Guards.{
  tag_sha, find_release, require_main_branch, verify_attestation, require_draft_on_candidate,
  should_be_latest, zip_assets, reads_back, arrived, right_zip, draft_on_candidate,
}
use onesti_lock.Release.Published.{Info, Check, check_published}

pub record Draft : Type 0 where
  pub tag_name : List ℕ
  pub target_commitish : List ℕ
  pub name : List ℕ
  pub body : List ℕ
  pub draft : Bool
  pub prerelease : Bool

-- A request that is no GET, as it is sent.
pub data Write : Type 0 where
  create_ref : List ℕ → List ℕ → Write
  create_release : Draft → Write
  upload_asset : ℕ → List ℕ → Write
  publish_release : ℕ → Bool → Write

-- What a part of the flow gives or raises, and the writes that it has sent by then.
pub record Ran (A : Type 0) : Type 0 where
  pub outcome : Result Halt A
  pub writes : List Write

abbrev pub continued : {A : Type 0} {B : Type 0} → List Write → Result Halt A → (A → Ran B) → Ran B
continued writes (ok a) f =
    let x = f a in record { outcome = x.outcome; writes = writes ++ x.writes }
continued writes (err e) f = record { outcome = err e; writes = writes }

infixl 5 ◌>>=◌
abbrev pub ◌>>=◌ : {A : Type 0} {B : Type 0} → Ran A → (A → Ran B) → Ran B
m >>= f = continued m.writes m.outcome f

abbrev pub given : {A : Type 0} → A → Ran A
given a = record { outcome = ok a; writes = [] }

-- What only reads.
abbrev pub read : {A : Type 0} → Result Halt A → Ran A
read r = record { outcome = r; writes = [] }

-- `Gh.api` with another method than GET: a dry run raises before anything is sent.
abbrev pub write : {A : Type 0} → Bool → Write → Result Halt A → Ran A
write true what answer = record { outcome = err failure; writes = [] }
write false what answer = record { outcome = answer; writes = what ∷ [] }

-- How the flow is called; a plan and a check are dry runs.
pub record Options : Type 0 where
  pub zip_path : Option (List ℕ)
  pub plan_only : Bool
  pub require_attestation : Bool
  pub strict : Bool
  pub trial : Bool

pub data Outcome : Type 0 where
  noop planned published : Outcome

-- `except Failure`: the upload may have arrived.
abbrev pub upload_ended : Ran (Unit {0}) → Ran (Unit {0})
upload_ended x = record { outcome = unless_failure x.outcome; writes = x.writes }
  where
    unless_failure : Result Halt (Unit {0}) → Result Halt (Unit {0})
    unless_failure (err failure) = ok tt
    unless_failure o = o

module _ (w : World) (c : Candidate) (dry_run : Bool) where
  abbrev pub tag_ensured : Option (List ℕ) → Ran (Unit {0})
  tag_ensured none =
      if dry_run then given tt else write dry_run (create_ref (tag c) c.sha) w.created_ref
  tag_ensured (some sha) = if same_text sha c.sha then given tt else read (err stop)

  -- `ensure_tag`
  unfoldable pub ensure_tag : Ran (Unit {0})
  unfolding same_text tag_sha
  ensure_tag = read (tag_sha w) >>= tag_ensured

  -- `ensure_draft`; none is the draft that a dry run does not make.
  unfoldable pub ensure_draft : Option Release → List ℕ → Ran (Option Release)
  unfolding same_text
  ensure_draft (some r) body = given (some r)
  ensure_draft none body =
      if dry_run
      then given none
      else (write dry_run
            (create_release record {
              tag_name = tag c;
              target_commitish = c.sha;
              name = tag c;
              body = body;
              draft = true;
              prerelease = same_text c.version trial_version;
            })
            w.created_release
          >>= λ r. given (some r))

  module _ (sha256 : List ℕ → List ℕ) (digest : List ℕ) where
    abbrev pub asset_ensured : ℕ → List ℕ → List Asset → Ran (Unit {0})
    asset_ensured id zip (a ∷ more) = read (reads_back sha256 digest a)
    asset_ensured id zip [] =
        if dry_run
        then given tt
        else (upload_ended (write dry_run (upload_asset id zip) w.uploaded) >>= λ _.
            read w.updated >>= λ updated. read (arrived sha256 digest (zip_assets updated.assets)))

    -- `ensure_asset`
    unfoldable pub ensure_asset : Release → List ℕ → Ran (Unit {0})
    unfolding zip_assets same_text
    ensure_asset r zip = asset_ensured r.id zip (zip_assets r.assets)

unfoldable pub worse : Bool → List Check → Bool
worse strict [] = false
worse strict (x ∷ checks) = not x.ok && (x.blocking || strict) || worse strict checks

module _ (parse : List ℕ → Option (List Import)) (zip : List Packed → List ℕ)
    (sha256 : List ℕ → List ℕ) (infolist : List ℕ → Result Halt (List Info)) (w : World)
    (o : Options) (c : Candidate) where
  -- What is there to upload and to publish; `assert release is not None`.
  abbrev pub draft_made : List ℕ → Option Release → Ran ℕ
  draft_made file none = read (err crash)
  draft_made file (some r) =
      ensure_asset w c o.plan_only sha256 (sha256 file) r file >>= λ _. given r.id

  -- All that goes before the last call: the id of the release that it publishes.
  unfoldable pub prepared : Option Release → List ℕ → List ℕ → Ran ℕ
  unfolding ensure_tag ensure_draft ensure_asset
  prepared r file body =
      ensure_tag w c o.plan_only >>= λ _. ensure_draft w c o.plan_only r body >>= draft_made file

  abbrev pub published_as : Bool → ℕ → Ran Outcome
  published_as latest id =
      write o.plan_only (publish_release id latest) w.published >>= λ _. given published

  abbrev pub decided : Option Release → List ℕ → List ℕ → Bool → Ran Outcome
  decided r file body latest =
      if o.plan_only
      then (ensure_tag w c o.plan_only >>= λ _. given planned)
      else (prepared r file body >>= published_as latest)

  abbrev pub attested_zip : List ℕ → Result Halt (Unit {0})
  attested_zip file =
      if o.require_attestation then verify_attestation w c.sha file (sha256 file) else ok tt

  abbrev pub new_release : Option Release → Ran Outcome
  new_release r = read (require_main_branch w c o.trial) >>= λ _.
      read (draft_on_candidate c r) >>= λ _.
      read (right_zip sha256 o.zip_path (build_zip parse zip w c.sha)) >>= λ file.
      read (attested_zip file) >>= λ _.
      read (w.body (sha256 file)) >>= λ body. read (should_be_latest w c) >>= decided r file body

  abbrev pub proved : List Check → Ran Outcome
  proved checks = if worse o.strict checks then read (err stop) else given noop

  abbrev pub found : Option Release → Ran Outcome
  found none = if o.strict then read (err stop) else new_release none
  found (some r) =
      if r.draft
      then (if o.strict then read (err stop) else new_release (some r))
      else read (check_published parse zip sha256 infolist w c r) >>= proved

  -- `run`
  unfoldable pub run : Ran Outcome
  unfolding find_release require_main_branch require_draft_on_candidate build_zip verify_attestation
      should_be_latest ensure_tag prepared check_published worse same_text
  run = read (find_release w c) >>= found
