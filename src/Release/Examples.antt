-- ===== src/Release/Examples.antt =====
-- Examples of a release: a first run, a retry, a dry run, a check, and a tag that is elsewhere.
use onesti_lock.Base.{
  [], ℕ, Bool, true, false, Result, ok, List, ◌∷◌, ◌++◌, Option, none, some, ◌≡◌, refl, replicate,
  All,
}
use onesti_lock.Release.{Halt, Candidate, Asset, Release, Row, World, commit_ref, asset_name}
use onesti_lock.Release.Zip.{Import, Packed, build_zip}
use onesti_lock.Release.Published.{Info}
use onesti_lock.Release.Publish.{given, Options, noop, published, run}
use onesti_lock.Release.Bound.{Guarded, run-Guarded}
use onesti_lock.Release.Retried.{OnlyPublishes, Untouched, run_retried, run_foreign_tag}
use onesti_lock.Release.Passes.{run_passes}
use onesti_lock.Release.Proved.{IsProved, run_verified}
use onesti_lock.Release.Main.{Git, publish, main, main_reads_only}
use onesti_lock.Release.Contents.{IsInstallable, build_zip-IsInstallable}

abbrev sha : List ℕ
sha = replicate 40 b'a'

abbrev candidate : Candidate
candidate = record { repo = b'r' ∷ []; sha = sha; version = b'1' ∷ b'.' ∷ b'4' ∷ b'.' ∷ b'0' ∷ [] }

abbrev no_imports : List ℕ → Option (List Import)
no_imports text = some []

abbrev joined : List Packed → List ℕ
joined [] = []
joined (f ∷ files) = f.content ++ joined files

abbrev as_digest : List ℕ → List ℕ
as_digest text = text

abbrev one_file : List ℕ → Result Halt (List Info)
one_file text = ok (record { filename = b'a' ∷ []; is_dir = false; content = text } ∷ [])

abbrev code : List ℕ
code = 1 ∷ 2 ∷ 3 ∷ []

abbrev module_row : Row
module_row = record {
  mode = b'1' ∷ b'0' ∷ b'0' ∷ b'6' ∷ b'4' ∷ b'4' ∷ [];
  is_blob = true;
  blob = b'b' ∷ [];
  path = b'a' ∷ b'.' ∷ b'p' ∷ b'y' ∷ [];
}

abbrev ble_row : Row
ble_row = record module_row { path = b'b' ∷ b'l' ∷ b'e' ∷ b'/' ∷ b'x' ∷ [] }

abbrev asset : Asset
asset = record { name = asset_name; content = ok code }

abbrev made_release : Bool → List Asset → Release
made_release draft assets = record {
  id = 7;
  tag_name = b'v' ∷ candidate.version;
  draft = draft;
  body = [];
  target_commitish = sha;
  assets = assets;
}

-- A repository without a tag and without a release.
abbrev world : World
world = record {
  tree = λ s. ok (ble_row ∷ module_row ∷ []);
  blob_content = λ b. ok code;
  ref = ok none;
  tag_object = λ s. ok s;
  releases = ok [];
  default_branch = ok (b'm' ∷ []);
  compare = λ main. ok (some (b'b' ∷ b'e' ∷ b'h' ∷ b'i' ∷ b'n' ∷ b'd' ∷ []));
  latest = ok (some (b'v' ∷ b'1' ∷ b'.' ∷ b'3' ∷ b'.' ∷ b'9' ∷ []));
  attested = λ s f. ok ((some f ∷ []) ∷ []);
  body = λ d. ok d;
  created_ref = ok tt;
  created_release = ok (made_release true []);
  uploaded = ok tt;
  updated = ok (made_release true (asset ∷ []));
  published = ok tt;
}

-- The tag and a release with the ZIP are there.
abbrev tagged_world : Bool → World
tagged_world draft = record world {
  ref = ok (some (commit_ref sha));
  releases = ok (made_release draft (asset ∷ []) ∷ []);
}

abbrev publish_options : Options
publish_options = record {
  zip_path = none;
  plan_only = false;
  require_attestation = true;
  strict = false;
  trial = false;
}

-- A first run goes through to the end.
first_run :
    (run no_imports joined as_digest one_file world publish_options candidate).outcome
    ≡ ok published
unfolding run
first_run = refl

run-Guarded_example :
    Guarded no_imports joined as_digest one_file world publish_options candidate
      (run no_imports joined as_digest one_file world publish_options candidate)
run-Guarded_example =
    run-Guarded no_imports joined as_digest one_file world publish_options candidate

abbrev git : Git
git = record { rev_parse = ok sha; manifest_version = λ s. ok (some candidate.version) }

main_reads_only_example :
    (main no_imports joined as_digest one_file world git candidate.repo
      (publish false true)
      none).writes
    ≡ []
main_reads_only_example =
    main_reads_only no_imports joined as_digest one_file world git candidate.repo
      (publish false true) none refl

run_retried_example :
    OnlyPublishes
      (run no_imports joined as_digest one_file
        (tagged_world true)
        publish_options
        candidate).writes
unfolding run
run_retried_example =
    run_retried no_imports joined as_digest one_file (tagged_world true) publish_options candidate
      (made_release true (asset ∷ [])) asset [] refl refl refl

run_foreign_tag_example : Untouched (
    run no_imports joined as_digest one_file
      (record world { ref = ok (some (commit_ref [])) })
      publish_options
      candidate)
unfolding run
run_foreign_tag_example =
    run_foreign_tag no_imports joined as_digest one_file
      (record world { ref = ok (some (commit_ref [])) }) publish_options candidate [] refl
      (λ h. cc h)

abbrev verify_options : Options
verify_options = record publish_options { plan_only = true; strict = true }

run_verified_example :
    (noop ≡ noop) × IsProved no_imports joined as_digest one_file (tagged_world false) candidate
unfolding run
run_verified_example =
    run_verified no_imports joined as_digest one_file (tagged_world false) verify_options candidate
      noop refl refl

build_zip-IsInstallable_example :
    (files : List Packed) × (code ≡ joined files) × All (IsInstallable no_imports) files
unfolding build_zip
build_zip-IsInstallable_example = build_zip-IsInstallable no_imports joined world sha code refl

run_passes_example :
    run no_imports joined as_digest one_file (tagged_world false) verify_options candidate
    ≡ given noop
unfolding run
run_passes_example =
    run_passes no_imports joined as_digest one_file (tagged_world false) verify_options candidate
      (made_release false (asset ∷ [])) asset [] code code (1 ∷ 4 ∷ 0 ∷ []) refl refl refl refl refl
      refl refl refl refl
