-- ===== src/Release/Main.antt =====
-- `read_candidate` and `main`: from the arguments to the exit code.
use onesti_lock.Base.{
  ℕ, Bool, true, false, Result, ok, err, List, [], Option, none, some, ◌≡◌, refl, if◌then◌else◌,
}
use onesti_lock.Base.Raising as Raising
use onesti_lock.Release.{Halt, failure, stop, Candidate, World, is_sha, version_numbers}
use onesti_lock.Release.Zip.{Import, Packed}
use onesti_lock.Release.Published.{Info}
use onesti_lock.Release.Publish.{Ran, ◌>>=◌, read, Options, Outcome, run}
use onesti_lock.Release.Steps.{read_then}
use onesti_lock.Release.Retried.{run_dry}

-- What git answers for a ref: its commit, and the version in the manifest of a commit, where that is
-- a text.
pub record Git : Type 0 where
  pub rev_parse : Result Halt (List ℕ)
  pub manifest_version : List ℕ → Result Halt (Option (List ℕ))

abbrev given_sha : List ℕ → Result Halt (List ℕ)
given_sha sha = if is_sha sha then ok sha else err failure

-- `full_sha`
unfoldable pub full_sha : Git → Result Halt (List ℕ)
unfolding is_sha
full_sha g = Raising.◌>>=◌ g.rev_parse given_sha

abbrev matching : List ℕ → Option (List ℕ) → Result Halt (List ℕ)
matching version none = err failure
matching version (some numbers) = ok version

abbrev valid_version : Option (List ℕ) → Result Halt (List ℕ)
valid_version none = err failure
valid_version (some version) = matching version (version_numbers version)

-- `read_version`
unfoldable pub read_version : Git → List ℕ → Result Halt (List ℕ)
unfolding version_numbers
read_version g sha = Raising.◌>>=◌ (g.manifest_version sha) valid_version

-- `read_candidate`
unfoldable pub read_candidate : Git → List ℕ → Result Halt Candidate
unfolding full_sha read_version
read_candidate g repo = Raising.◌>>=◌ (full_sha g) (λ sha.
    Raising.◌>>=◌ (read_version g sha)
      (λ version. ok (record { repo = repo; sha = sha; version = version })))

-- The commands that run the flow; `build` only builds the ZIP.
pub data Command : Type 0 where
  plan : Bool → Command
  verify : Command
  publish : Bool → Bool → Command

-- The options of a call: `plan` and `publish` take the mark of a trial release, `publish` that of a dry
-- run too.
abbrev pub plan_only : Command → Bool
plan_only (plan trial) = true
plan_only verify = true
plan_only (publish trial dry_run) = dry_run

abbrev require_attestation : Command → Bool
require_attestation (plan trial) = false
require_attestation _ = true

abbrev is_trial : Command → Bool
is_trial (plan trial) = trial
is_trial verify = false
is_trial (publish trial dry_run) = trial

abbrev is_strict : Command → Bool
is_strict verify = true
is_strict _ = false

unfoldable pub options_of : Command → Option (List ℕ) → Options
options_of command zip_path = record {
  zip_path = zip_path;
  plan_only = plan_only command;
  require_attestation = require_attestation command;
  strict = is_strict command;
  trial = is_trial command;
}

-- The exit code; an exception that is neither ends Python with 1.
unfoldable pub exit_code : {A : Type 0} → Result Halt A → ℕ
exit_code (ok _) = 0
exit_code (err stop) = 2
exit_code (err _) = 1

module _ (parse : List ℕ → Option (List Import)) (zip : List Packed → List ℕ)
    (sha256 : List ℕ → List ℕ) (infolist : List ℕ → Result Halt (List Info)) where
  -- `main`, for the commands that run the flow.
  unfoldable pub main : World → Git → List ℕ → Command → Option (List ℕ) → Ran Outcome
  unfolding options_of read_candidate run
  main w g repo command zip_path =
      read (read_candidate g repo) >>= run parse zip sha256 infolist w (options_of command zip_path)

  -- `plan`, `verify` and a dry run of `publish` write nothing to GitHub, whatever it and git answer.
  pub main_reads_only :
      (w : World) (g : Git) (repo : List ℕ) (command : Command) (zip_path : Option (List ℕ))
      → plan_only command ≡ true
      → (main w g repo command zip_path).writes ≡ []
  unfolding main options_of
  main_reads_only w g repo command zip_path dry =
      read_then (λ (x : Ran Outcome). x.writes ≡ []) (read_candidate g repo) _ (λ e. refl)
        (λ c _. run_dry parse zip sha256 infolist w (options_of command zip_path) c dry)
