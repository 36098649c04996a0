-- ===== src/Release/Zip.antt =====
-- Building the ZIP of a commit: `component_files`, `packed_imports_excluded` and `build_zip`. Python's
-- parser, the zipfile library and its compression are parameters.
use onesti_lock.Base.{
  ℕ, Bool, true, false, Result, ok, err, ◌>>=◌, ◌>>◌, guard, List, [], ◌∷◌, Option, none, some, ltb,
  not, ◌==◌, ◌&&◌, ◌||◌, if◌then◌else◌,
}
use onesti_lock.Integration.Services.{same_text}
use onesti_lock.Release.{Halt, failure, Row, World}

abbrev pub ble_directory : List ℕ
ble_directory = b'b' ∷ b'l' ∷ b'e' ∷ b'/' ∷ []

abbrev bluetooth : List ℕ
bluetooth = b'b' ∷ b'l' ∷ b'u' ∷ b'e' ∷ b't' ∷ b'o' ∷ b'o' ∷ b't' ∷ b'h' ∷ []

abbrev pub py_suffix : List ℕ
py_suffix = b'.' ∷ b'p' ∷ b'y' ∷ []

abbrev pub bluetooth_file : List ℕ
bluetooth_file =
    b'b' ∷ b'l' ∷ b'u' ∷ b'e' ∷ b't' ∷ b'o' ∷ b'o' ∷ b't' ∷ b'h' ∷ b'.' ∷ b'p' ∷ b'y' ∷ []

-- `ZIP_PERMISSIONS`
abbrev plain_mode : List ℕ
plain_mode = b'1' ∷ b'0' ∷ b'0' ∷ b'6' ∷ b'4' ∷ b'4' ∷ []

abbrev executable_mode : List ℕ
executable_mode = b'1' ∷ b'0' ∷ b'0' ∷ b'7' ∷ b'5' ∷ b'5' ∷ []

unfoldable pub starts_with : List ℕ → List ℕ → Bool
starts_with text [] = true
starts_with [] (p ∷ ps) = false
starts_with (c ∷ cs) (p ∷ ps) = c == p && starts_with cs ps

unfoldable pub ends_with : List ℕ → List ℕ → Bool
unfolding same_text
ends_with suffix [] = same_text [] suffix
ends_with suffix (c ∷ cs) = same_text (c ∷ cs) suffix || ends_with suffix cs

-- `is_excluded`: the directory, which is never a file itself, and the one file of `ZIP_EXCLUDE`.
unfoldable pub is_excluded : List ℕ → Bool
unfolding same_text starts_with
is_excluded name =
    same_text name ble_directory || starts_with name ble_directory || same_text name bluetooth_file

unfoldable pub can_pack : List ℕ → Bool
unfolding same_text
can_pack mode = same_text mode plain_mode || same_text mode executable_mode

-- The rows that are packed, in the order of git.
unfoldable pub packed_rows : List Row → Result Halt (List Row)
unfolding is_excluded can_pack
packed_rows [] = ok []
packed_rows (r ∷ rows) = do
  guard r.is_blob failure
  guard (can_pack r.mode) failure
  rest ← packed_rows rows
  ok (if is_excluded r.path then rest else r ∷ rest)

-- `<` on texts.
unfoldable pub text_below : List ℕ → List ℕ → Bool
text_below xs [] = false
text_below [] (y ∷ ys) = true
text_below (x ∷ xs) (y ∷ ys) = ltb x y || x == y && text_below xs ys

-- `sorted(files, key=...)`, which is stable.
unfoldable pub insert_row : Row → List Row → List Row
unfolding text_below
insert_row r [] = r ∷ []
insert_row r (s ∷ rows) =
    let rest = insert_row r rows in if text_below s.path r.path then s ∷ rest else r ∷ s ∷ rows

unfoldable pub sort_rows : List Row → List Row
unfolding insert_row
sort_rows [] = []
sort_rows (r ∷ rows) = insert_row r (sort_rows rows)

abbrev pub some_rows : List Row → Result Halt (List Row)
some_rows [] = err failure
some_rows (r ∷ rows) = ok (sort_rows (r ∷ rows))

-- `component_files`
unfoldable pub component_files : World → List ℕ → Result Halt (List Row)
unfolding packed_rows sort_rows
component_files w sha = do rows ← w.tree sha; packed ← packed_rows rows; some_rows packed

-- An import: whether it is relative, the first part of its module, and its names.
pub record Import : Type 0 where
  pub relative : Bool
  pub module_head : List ℕ
  pub names : List (List ℕ)

abbrev ble : List ℕ
ble = b'b' ∷ b'l' ∷ b'e' ∷ []

-- `excluded_modules`
abbrev is_excluded_module : List ℕ → Bool
is_excluded_module name = same_text name ble || same_text name bluetooth

unfoldable any_excluded : List (List ℕ) → Bool
unfolding same_text
any_excluded [] = false
any_excluded (n ∷ names) = is_excluded_module n || any_excluded names

unfoldable pub reaches_excluded : List Import → Bool
unfolding any_excluded
reaches_excluded [] = false
reaches_excluded (i ∷ imports) =
    i.relative && any_excluded (i.module_head ∷ i.names) || reaches_excluded imports

-- What a file is packed as.
pub record Packed : Type 0 where
  pub mode : List ℕ
  pub name : List ℕ
  pub content : List ℕ

module _ (parse : List ℕ → Option (List Import)) (zip : List Packed → List ℕ) (w : World) where
  -- What the parser makes of a file; a file that does not parse is refused.
  abbrev pub reaches : Option (List Import) → Result Halt Bool
  reaches none = err failure
  reaches (some imports) = ok (reaches_excluded imports)

  abbrev pub row_reaches : Row → Result Halt Bool
  row_reaches r =
      if ends_with py_suffix r.path
      then (w.blob_content r.blob >>= λ content. reaches (parse content))
      else ok false

  -- `packed_imports_excluded`, as whether it names anything.
  unfoldable pub packed_imports_excluded : List Row → Result Halt Bool
  unfolding ends_with reaches_excluded
  packed_imports_excluded [] = ok false
  packed_imports_excluded (r ∷ rows) = do
    here ← row_reaches r
    rest ← packed_imports_excluded rows
    ok (here || rest)

  unfoldable pub pack_rows : List Row → Result Halt (List Packed)
  pack_rows [] = ok []
  pack_rows (r ∷ rows) = do
    content ← w.blob_content r.blob
    rest ← pack_rows rows
    ok (record { mode = r.mode; name = r.path; content = content } ∷ rest)

  -- `build_zip`, as the content of the file that it writes.
  unfoldable pub build_zip : List ℕ → Result Halt (List ℕ)
  unfolding component_files packed_imports_excluded pack_rows
  build_zip sha = do
    files ← component_files w sha
    reaching ← packed_imports_excluded files
    guard (not reaching) failure
    packed ← pack_rows files
    ok (zip packed)
