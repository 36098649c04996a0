-- ===== src/Release/Published.antt =====
-- `check_published`: a version that is out, against its own tag. The messages of the checks are left
-- out; reading an archive is a parameter.
use onesti_lock.Base.{
  ℕ, Bool, true, false, Result, ok, err, ◌>>=◌, List, [], ◌∷◌, Option, none, some, not, ◌&&◌,
  if◌then◌else◌,
}
use onesti_lock.Integration.Services.{same_text}
use onesti_lock.Release.{
  Halt, stop, crash, Candidate, version_numbers, tuple_below, first_zip_version, Asset, Release,
  World,
}
use onesti_lock.Release.Zip.{Import, Packed, build_zip}
use onesti_lock.Release.Guards.{tag_sha, verify_attestation, zip_assets}

-- An entry of an archive.
pub record Info : Type 0 where
  pub filename : List ℕ
  pub is_dir : Bool
  pub content : List ℕ

abbrev first_of : Option (List ℕ) → Bool → List ℕ → Option (List ℕ)
first_of (some later) here content = some later
first_of none true content = some content
first_of none false content = none

-- `_unpack`, as what it has under a name: the last entry of that name that is no directory.
unfoldable pub unpacked : List ℕ → List Info → Option (List ℕ)
unfolding same_text
unpacked name [] = none
unpacked name (i ∷ infos) =
    first_of (unpacked name infos) (same_text i.filename name && not i.is_dir) i.content

abbrev same_content : Option (List ℕ) → Option (List ℕ) → Bool
same_content none none = true
same_content (some a) (some b) = same_text a b
same_content _ _ = false

unfoldable agree_on : List Info → List Info → List Info → Bool
unfolding unpacked
agree_on [] a b = true
agree_on (i ∷ infos) a b =
    same_content (unpacked i.filename a) (unpacked i.filename b) && agree_on infos a b

-- `reference == shipped`, of the two dicts.
unfoldable pub same_files : List Info → List Info → Bool
unfolding agree_on
same_files a b = agree_on a a b && agree_on b a b

pub data CheckName : Type 0 where
  tag_check content_check attestation_check : CheckName

pub record Check : Type 0 where
  pub name : CheckName
  pub ok : Bool
  pub blocking : Bool

abbrev pub passed : CheckName → Check
passed name = record { name = name; ok = true; blocking = false }

abbrev pub not_passed : CheckName → Bool → Check
not_passed name blocking = record { name = name; ok = false; blocking = blocking }

-- `except Stop`: only a Stop is a check that did not pass.
abbrev pub attestation_of : Result Halt (Unit {0}) → Result Halt Check
attestation_of (ok _) = ok (passed attestation_check)
attestation_of (err stop) = ok (not_passed attestation_check false)
attestation_of (err e) = err e

abbrev below_first_zip : Option (List ℕ) → Result Halt Bool
below_first_zip none = err crash
below_first_zip (some numbers) = ok (tuple_below numbers first_zip_version)

unfoldable pub predates_zip : Candidate → Result Halt Bool
unfolding version_numbers tuple_below
predates_zip c = below_first_zip (version_numbers c.version)

module _ (parse : List ℕ → Option (List Import)) (zip : List Packed → List ℕ)
    (sha256 : List ℕ → List ℕ) (infolist : List ℕ → Result Halt (List Info)) (w : World) where
  -- Whether the published file has the files of a build: the same bytes, or the same files.
  abbrev pub holds_together : List ℕ → List ℕ → Result Halt Bool
  holds_together built shipped =
      if same_text (sha256 shipped) (sha256 built)
      then ok true
      else (infolist built >>= λ reference.
          infolist shipped >>= λ files. ok (same_files reference files))

  abbrev pub content_checked : List ℕ → List ℕ → Bool → Bool → Result Halt (List Check)
  content_checked sha shipped predates false =
      ok (passed tag_check ∷ not_passed content_check (not predates) ∷ [])
  content_checked sha shipped predates true = do
    attestation ← attestation_of (verify_attestation w sha shipped (sha256 shipped))
    ok (passed tag_check ∷ passed content_check ∷ attestation ∷ [])

  abbrev pub asset_checked : List ℕ → Bool → List Asset → Result Halt (List Check)
  asset_checked sha predates [] =
      ok (passed tag_check ∷ not_passed content_check (not predates) ∷ [])
  asset_checked sha predates (a ∷ more) = do
    built ← build_zip parse zip w sha
    shipped ← a.content
    same ← holds_together built shipped
    content_checked sha shipped predates same

  abbrev pub tag_checked : Candidate → Release → Option (List ℕ) → Result Halt (List Check)
  tag_checked c r none = ok (not_passed tag_check false ∷ [])
  tag_checked c r (some sha) = do
    predates ← predates_zip c
    asset_checked sha predates (zip_assets r.assets)

  -- `check_published`
  unfoldable pub check_published : Candidate → Release → Result Halt (List Check)
  unfolding same_files predates_zip zip_assets verify_attestation same_text build_zip tag_sha
  check_published c r = tag_sha w >>= tag_checked c r
