-- ===== src/Release/Guards.antt =====
-- What is read before anything is written: the candidate, the tag, the release, the main branch, the
-- attestation, and whether the version is the latest.
use onesti_lock.Base.{
  ℕ, Bool, true, false, Result, ok, err, ◌>>=◌, ◌>>◌, guard, List, [], ◌∷◌, Option, none, some, not,
  ◌==◌, ◌||◌, if◌then◌else◌,
}
use onesti_lock.Integration.Services.{same_text}
use onesti_lock.Release.{
  Halt, failure, stop, crash, Candidate, tag, trial_version, asset_name, is_sha, version_numbers,
  tuple_below, Ref, commit_ref, tag_ref, other_ref, Asset, Release, World,
}

abbrev dereferenced : World → Option Ref → Result Halt (Option (List ℕ))
dereferenced w none = ok none
dereferenced w (some (commit_ref sha)) = ok (some sha)
dereferenced w (some (tag_ref object)) = w.tag_object object >>= λ sha. ok (some sha)
dereferenced w (some other_ref) = err stop

-- `tag_sha`
unfoldable pub tag_sha : World → Result Halt (Option (List ℕ))
tag_sha w = w.ref >>= dereferenced w

unfoldable pub tagged_as : List ℕ → List Release → List Release
unfolding same_text
tagged_as name [] = []
tagged_as name (r ∷ rs) =
    let rest = tagged_as name rs in if same_text r.tag_name name then r ∷ rest else rest

abbrev pub only_one : List Release → Result Halt (Option Release)
only_one [] = ok none
only_one (r ∷ []) = ok (some r)
only_one (r ∷ r' ∷ rs) = err stop

-- `find_release`
unfoldable pub find_release : World → Candidate → Result Halt (Option Release)
unfolding tagged_as
find_release w c = w.releases >>= λ releases. only_one (tagged_as (tag c) releases)

abbrev identical : List ℕ
identical = b'i' ∷ b'd' ∷ b'e' ∷ b'n' ∷ b't' ∷ b'i' ∷ b'c' ∷ b'a' ∷ b'l' ∷ []

abbrev behind : List ℕ
behind = b'b' ∷ b'e' ∷ b'h' ∷ b'i' ∷ b'n' ∷ b'd' ∷ []

-- The status of the comparison with the main branch; `none` is a commit that GitHub does not know.
abbrev pub on_main : Option (List ℕ) → Bool
on_main none = false
on_main (some status) = same_text status identical || same_text status behind

-- `require_main_branch`
unfoldable pub require_main_branch : World → Candidate → Bool → Result Halt (Unit {0})
unfolding same_text
require_main_branch w c trial =
    if trial
    then guard (same_text c.version trial_version) stop
    else w.default_branch >>= λ main. w.compare main >>= λ answer. guard (on_main answer) stop

abbrev is_digest : List ℕ → Option (List ℕ) → Bool
is_digest digest none = false
is_digest digest (some d) = same_text d digest

unfoldable subject_covers : List ℕ → List (Option (List ℕ)) → Bool
unfolding same_text
subject_covers digest [] = false
subject_covers digest (d ∷ ds) = is_digest digest d || subject_covers digest ds

-- Whether a digest is among those of the subjects of any attestation.
unfoldable pub covers : List ℕ → List (List (Option (List ℕ))) → Bool
unfolding subject_covers
covers digest [] = false
covers digest (a ∷ more) = subject_covers digest a || covers digest more

-- `verify_attestation` of a file for a commit; an answer without attestations covers nothing.
unfoldable pub verify_attestation : World → List ℕ → List ℕ → List ℕ → Result Halt (Unit {0})
unfolding covers
verify_attestation w sha zip digest =
    w.attested sha zip >>= λ answer. guard (covers digest answer) stop

-- `require_draft_on_candidate`
unfoldable pub require_draft_on_candidate : Candidate → Release → Result Halt (Unit {0})
unfolding is_sha same_text
require_draft_on_candidate c r =
    guard (not (is_sha r.target_commitish) || same_text r.target_commitish c.sha) stop

unfoldable without_v : List ℕ → List ℕ
without_v [] = []
without_v (x ∷ xs) = let rest = without_v xs in if x == b'v' then rest else x ∷ xs

-- The version of a candidate has matched; int() would raise on another one.
abbrev higher : Option (List ℕ) → Option (List ℕ) → Result Halt Bool
higher mine none = ok true
higher none (some theirs) = err crash
higher (some mine) (some theirs) = ok (tuple_below theirs mine)

abbrev above : List ℕ → Option (List ℕ) → Result Halt Bool
above version none = ok true
above version (some name) = higher (version_numbers version) (version_numbers (without_v name))

-- `should_be_latest`
unfoldable pub should_be_latest : World → Candidate → Result Halt Bool
unfolding same_text version_numbers tuple_below without_v
should_be_latest w c =
    if same_text c.version trial_version then ok false else w.latest >>= above c.version

-- The assets of a release that have the name of the ZIP.
unfoldable pub zip_assets : List Asset → List Asset
unfolding same_text
zip_assets [] = []
zip_assets (a ∷ more) =
    let rest = zip_assets more in if same_text a.name asset_name then a ∷ rest else rest

abbrev pub draft_on_candidate : Candidate → Option Release → Result Halt (Unit {0})
draft_on_candidate c none = ok tt
draft_on_candidate c (some r) = require_draft_on_candidate c r

module _ (sha256 : List ℕ → List ℕ) where
  -- The ZIP of the candidate: a fresh build, or one that was handed over and has the same digest.
  abbrev pub right_zip : Option (List ℕ) → Result Halt (List ℕ) → Result Halt (List ℕ)
  right_zip none built = built
  right_zip (some file) built =
      built >>= λ expected. guard (same_text (sha256 file) (sha256 expected)) stop >> ok file

  -- The asset reads back with the digest.
  abbrev pub reads_back : List ℕ → Asset → Result Halt (Unit {0})
  reads_back digest a = a.content >>= λ loaded. guard (same_text (sha256 loaded) digest) stop

  abbrev pub arrived : List ℕ → List Asset → Result Halt (Unit {0})
  arrived digest [] = err failure
  arrived digest (a ∷ more) = reads_back digest a
