-- ===== src/Release/Contents.antt =====
-- What is in a ZIP that is built: which files, and what they import.
use onesti_lock.Base.{
  true≢false, ℕ, Bool, true, false, ok, List, [], ◌∷◌, Option, none, some, not, ◌≡◌, ◌≢◌, ◌++◌,
  arith, refl, sym, ap, ◌∙◌, ◌⊎◌, inl, inr, All, ok-injective, >>=-eq_ok, guard-eq_ok, guard, ◌||◌,
  if◌then◌else◌, Bool-cases,
}
use onesti_lock.Integration.Services.{same_text}
use onesti_lock.Integration.Services.Meant.{same_text_self}
use onesti_lock.Release.{failure, Row, World}
use onesti_lock.Release.Zip.{
  Import, Packed, ble_directory, bluetooth_file, starts_with, is_excluded, can_pack, packed_rows,
  text_below, insert_row, sort_rows, some_rows, component_files, reaches_excluded, ends_with,
  py_suffix, reaches, row_reaches, packed_imports_excluded, pack_rows, build_zip,
}

-- A row that is no file of the excluded paths.
abbrev IsIncluded : Row → Type 0
IsIncluded r = is_excluded r.path ≡ false

packed_rows-IsIncluded : (rows kept : List Row) → packed_rows rows ≡ ok kept → All IsIncluded kept
unfolding packed_rows
packed_rows-IsIncluded [] kept h = none_kept kept (ok-injective h)
  where
    none_kept : (kept : List Row) → ◌≡◌ {A = List Row} [] kept → All IsIncluded kept
    none_kept [] e = tt
    none_kept (r ∷ rs) e = cc e
packed_rows-IsIncluded (r ∷ rows) kept h =
    let (u, blob, h1) = >>=-eq_ok (guard r.is_blob failure) _ h in
    let (v, packable, h2) = >>=-eq_ok (guard (can_pack r.mode) failure) _ h1 in
    let (rest, others, h3) = >>=-eq_ok (packed_rows rows) _ h2 in
    one (Bool-cases (is_excluded r.path)) rest (packed_rows-IsIncluded rows rest others)
      (ok-injective h3)
  where
    one :
        (is_excluded r.path ≡ true) ⊎ (is_excluded r.path ≡ false)
        → (rest : List Row) → All IsIncluded rest
        → (if is_excluded r.path then rest else r ∷ rest) ≡ kept
        → All IsIncluded kept
    one (inl out) rest fine e = rw (sym (rw out at e)) fine
    one (inr there) rest fine e = rw (sym (rw there at e)) (there, fine)

insert_row-IsIncluded :
    (r : Row) (rows : List Row)
    → IsIncluded r
    → All IsIncluded rows
    → All IsIncluded (insert_row r rows)
unfolding insert_row
insert_row-IsIncluded r [] h k = (h, tt)
insert_row-IsIncluded r (s ∷ rows) h k = elim (Bool-cases (text_below s.path r.path)) [
  | inl below ↦ rw below (k.0, insert_row-IsIncluded r rows h k.1)
  | inr above ↦ rw above (h, k)
]

sort_rows-IsIncluded : (rows : List Row) → All IsIncluded rows → All IsIncluded (sort_rows rows)
unfolding sort_rows
sort_rows-IsIncluded [] h = tt
sort_rows-IsIncluded (r ∷ rows) h =
    insert_row-IsIncluded r (sort_rows rows) h.0 (sort_rows-IsIncluded rows h.1)

some_rows-IsIncluded :
    (packed rows : List Row)
    → some_rows packed ≡ ok rows
    → All IsIncluded packed
    → All IsIncluded rows
some_rows-IsIncluded [] rows h k = cc h
some_rows-IsIncluded (r ∷ packed) rows h k =
    rw (sym (ok-injective h)) (sort_rows-IsIncluded (r ∷ packed) k)

component_files-IsIncluded :
    (w : World) (sha : List ℕ) (rows : List Row)
    → component_files w sha ≡ ok rows
    → All IsIncluded rows
unfolding component_files
component_files-IsIncluded w sha rows h =
    let (tracked, listed, h1) = >>=-eq_ok (w.tree sha) _ h in
    let (packed, kept, h2) = >>=-eq_ok (packed_rows tracked) _ h1 in
    some_rows-IsIncluded packed rows h2 (packed_rows-IsIncluded tracked packed kept)

module _ (parse : List ℕ → Option (List Import)) where
  -- No Python, or it parses and imports nothing that is left out.
  abbrev pub IsSelfContained : Packed → Type 0
  IsSelfContained f =
      (ends_with py_suffix f.name ≡ false)
      ⊎ (imports : List Import) × (parse f.content ≡ some imports)
        × (reaches_excluded imports ≡ false)

  -- A file that may be installed on its own: it is not under ble/, it is not bluetooth.py, and it
  -- imports neither.
  abbrev pub IsInstallable : Packed → Type 0
  IsInstallable f =
      ((rest : List ℕ) → f.name ≢ ble_directory ++ rest)
      × (f.name ≢ bluetooth_file)
      × IsSelfContained f

starts_with-append : (p rest : List ℕ) → starts_with (p ++ rest) p ≡ true
unfolding starts_with
starts_with-append [] [] = refl
starts_with-append [] (c ∷ rest) = refl
starts_with-append (x ∷ p) rest = ground (arith, starts_with-append p rest)

neither : (a b : Bool) → (a || b) ≡ false → (a ≡ false) × (b ≡ false)
neither true b h = cc h
neither false b h = (refl, h)

included :
    (name : List ℕ)
    → is_excluded name ≡ false
    → ((rest : List ℕ) → name ≢ ble_directory ++ rest) × (name ≢ bluetooth_file)
unfolding is_excluded
included name h =
    let (first, last) =
      neither (same_text name ble_directory || starts_with name ble_directory)
        (same_text name bluetooth_file) h in
    let (exact, under) =
      neither (same_text name ble_directory) (starts_with name ble_directory) first in
    (
      λ rest e. true≢false (
          sym (starts_with-append ble_directory rest)
          ∙ (ap (λ n. starts_with n ble_directory) (sym e) ∙ under)),
      λ e. true≢false (
          sym (same_text_self bluetooth_file)
          ∙ (ap (λ n. same_text n bluetooth_file) (sym e) ∙ last)),
    )

module _ (parse : List ℕ → Option (List Import)) (zip : List Packed → List ℕ) (w : World) where
  parsed_clean :
      (content : List ℕ) (answer : Option (List Import))
      → parse content ≡ answer
      → reaches parse zip w answer ≡ ok false
      → (imports : List Import) × (parse content ≡ some imports)
        × (reaches_excluded imports ≡ false)
  parsed_clean content none h k = cc k
  parsed_clean content (some imports) h k = (imports, h, ok-injective k)

  row_clean :
      (r : Row) (content : List ℕ)
      → row_reaches parse zip w r ≡ ok false
      → w.blob_content r.blob ≡ ok content
      → IsSelfContained parse (record { mode = r.mode; name = r.path; content = content })
  row_clean r content h k = elim (Bool-cases (ends_with py_suffix r.path)) [
    | inl py ↦
        let (read_in, same, h1) = >>=-eq_ok (w.blob_content r.blob) _ (rw py at h) in
        let answer = rw (ok-injective (sym same ∙ k)) at h1 in
        inr (parsed_clean content (parse content) refl answer)
    | inr other ↦ inl other
  ]

  pack_rows-IsInstallable :
      (rows : List Row) (files : List Packed)
      → All IsIncluded rows
      → packed_imports_excluded parse zip w rows ≡ ok false
      → pack_rows parse zip w rows ≡ ok files
      → All (IsInstallable parse) files
  unfolding packed_imports_excluded pack_rows
  pack_rows-IsInstallable [] files h k p = rw (sym (ok-injective p)) tt
  pack_rows-IsInstallable (r ∷ rows) files h k p =
      let (here, reached, k1) = >>=-eq_ok (row_reaches parse zip w r) _ k in
      let (more, others, k2) = >>=-eq_ok (packed_imports_excluded parse zip w rows) _ k1 in
      let (clean, all_clean) = neither here more (ok-injective k2) in
      let (content, read_in, p1) = >>=-eq_ok (w.blob_content r.blob) _ p in
      let (rest, packed, p2) = >>=-eq_ok (pack_rows parse zip w rows) _ p1 in
      rw (sym (ok-injective p2)) (
        (
          (included r.path h.0).0,
          (included r.path h.0).1,
          row_clean r content (reached ∙ ap ok clean) read_in,
        ),
        pack_rows-IsInstallable rows rest h.1 (others ∙ ap ok all_clean) packed,
      )

  cleared : (b : Bool) → not b ≡ true → b ≡ false
  cleared true h = cc h
  cleared false h = refl

  -- A ZIP that is built packs no file under ble/ and no bluetooth.py, and each Python file in it parses and has
  -- no relative import of an excluded module.
  pub build_zip-IsInstallable :
      (sha zipped : List ℕ)
      → build_zip parse zip w sha ≡ ok zipped
      → (files : List Packed) × (zipped ≡ zip files) × All (IsInstallable parse) files
  unfolding build_zip
  build_zip-IsInstallable sha zipped h =
      let (rows, listed, h1) = >>=-eq_ok (component_files w sha) _ h in
      let (reaching, reached, h2) = >>=-eq_ok (packed_imports_excluded parse zip w rows) _ h1 in
      let (u, clean, h3) = >>=-eq_ok (guard (not reaching) failure) _ h2 in
      let (files, packed, h4) = >>=-eq_ok (pack_rows parse zip w rows) _ h3 in
      (
        files,
        sym (ok-injective h4),
        pack_rows-IsInstallable rows files (component_files-IsIncluded w sha rows listed)
            (reached ∙ ap ok (cleared reaching (guard-eq_ok (not reaching) failure clean))) packed,
      )
