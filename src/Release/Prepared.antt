-- ===== src/Release/Prepared.antt =====
-- What goes before the last call of `run`: it publishes nothing, and what it leaves is ready.
use onesti_lock.Base.{ℕ, false, Result, ok, List, Option, none, some, ◌≡◌, refl}
use onesti_lock.Release.{Halt, Candidate, Release, World}
use onesti_lock.Release.Zip.{Import, Packed}
use onesti_lock.Release.Guards.{zip_assets}
use onesti_lock.Release.Published.{Info}
use onesti_lock.Release.Publish.{
  Options, ensure_tag, ensure_draft, asset_ensured, ensure_asset, draft_made, prepared,
}
use onesti_lock.Release.Steps.{
  continued_ok, Unpublished, continued-Unpublished, ensure_tag-Unpublished,
  ensure_draft-Unpublished, asset_ensured-Unpublished, Tagged, IsDraft, CarriesZip,
  ensure_tag-Tagged, ensure_draft-IsDraft, asset_ensured-CarriesZip,
}

module _ (parse : List ℕ → Option (List Import)) (zip : List Packed → List ℕ)
    (sha256 : List ℕ → List ℕ) (infolist : List ℕ → Result Halt (List Info)) (w : World)
    (o : Options) (c : Candidate) where
  pub prepared-Unpublished :
      (r : Option Release) (file body : List ℕ)
      → Unpublished (prepared parse zip sha256 infolist w o c r file body).writes
  unfolding prepared ensure_asset
  prepared-Unpublished r file body =
      continued-Unpublished (ensure_tag w c o.plan_only).writes (ensure_tag w c o.plan_only).outcome
        _ (ensure_tag-Unpublished w c o.plan_only)
        (λ _.
          continued-Unpublished (ensure_draft w c o.plan_only r body).writes
            (ensure_draft w c o.plan_only r body).outcome _
            (ensure_draft-Unpublished w c o.plan_only r body) uploads)
    where
      uploads :
          (made : Option Release)
          → Unpublished (draft_made parse zip sha256 infolist w o c file made).writes
      uploads none = tt
      uploads (some d) =
          continued-Unpublished
            (asset_ensured w c o.plan_only sha256 (sha256 file) d.id file
              (zip_assets d.assets)).writes
            (asset_ensured w c o.plan_only sha256 (sha256 file) d.id file
              (zip_assets d.assets)).outcome
            _ (asset_ensured-Unpublished w c o.plan_only sha256 file d.id (zip_assets d.assets))
            (λ _. tt)

  -- The release with this id is a draft of the candidate, its tag points there, and it carries the ZIP.
  abbrev pub IsReady : Option Release → List ℕ → ℕ → Type 0
  IsReady drafted file id =
      Tagged w c × (r : Release) × IsDraft w c drafted r × CarriesZip w sha256 file r × (r.id ≡ id)

  pub prepared-IsReady :
      (r : Option Release) (file body : List ℕ) (id : ℕ)
      → o.plan_only ≡ false
      → (prepared parse zip sha256 infolist w o c r file body).outcome ≡ ok id
      → IsReady r file id
  unfolding prepared ensure_asset
  prepared-IsReady r file body id wet h =
      let (u, tagged, rest) =
        continued_ok (ensure_tag w c o.plan_only).writes (ensure_tag w c o.plan_only).outcome _ h in
      let (made, drafted, rest') =
        continued_ok (ensure_draft w c o.plan_only r body).writes
          (ensure_draft w c o.plan_only r body).outcome _ rest in
      let (d, is_made, is_draft) = ensure_draft-IsDraft w c o.plan_only wet r body made drafted in
      let upload = rw is_made at rest' in
      let (v, carried, last) =
        continued_ok
          (asset_ensured w c o.plan_only sha256 (sha256 file) d.id file
            (zip_assets d.assets)).writes
          (asset_ensured w c o.plan_only sha256 (sha256 file) d.id file
            (zip_assets d.assets)).outcome
          _ upload in
      (
        ensure_tag-Tagged w c o.plan_only wet tagged,
        d,
        is_draft,
        asset_ensured-CarriesZip w c o.plan_only sha256 file d (zip_assets d.assets) wet refl
            carried,
        cc last,
      )
