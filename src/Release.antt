-- ===== src/Release.antt =====
-- scripts/release_publish.py: shipping a version. A text is its code points, a digit is an ASCII one.
-- What git and GitHub answer to each call is an input; what is written to GitHub is a list of writes.
pub mod Zip
pub mod Guards
pub mod Published
pub mod Publish
pub mod Steps
pub mod Bound
pub mod Retried
pub mod Proved
pub mod Passes
pub mod Prepared
pub mod Contents
pub mod Main
mod Examples
use onesti_lock.Base.{
  ℕ, ◌+◌, ◌*◌, ◌-◌, Bool, true, false, Result, List, [], ◌∷◌, ◌++◌, Option, none, some, ltb, leb,
  ◌==◌, ◌&&◌, ◌||◌, if◌then◌else◌, length,
}

-- Failure and Stop, and any other exception.
pub data Halt : Type 0 where
  failure stop crash : Halt

pub record Candidate : Type 0 where
  pub repo : List ℕ
  pub sha : List ℕ
  pub version : List ℕ

-- `Candidate.tag`
abbrev pub tag : Candidate → List ℕ
tag c = b'v' ∷ c.version

abbrev pub trial_version : List ℕ
trial_version = b'0' ∷ b'.' ∷ b'0' ∷ b'.' ∷ b'0' ∷ []

abbrev pub asset_name : List ℕ
asset_name =
    b'o' ∷ b'n' ∷ b'e' ∷ b's' ∷ b't' ∷ b'i' ∷ b'_' ∷ b'l' ∷ b'o' ∷ b'c' ∷ b'k' ∷ b'.' ∷ b'z' ∷ b'i'
    ∷ b'p' ∷ []

abbrev is_between : ℕ → ℕ → ℕ → Bool
is_between low high c = leb low c && leb c high

abbrev is_hex : ℕ → Bool
is_hex c = is_between b'0' b'9' c || is_between b'a' b'f' c

unfoldable all_hex : List ℕ → Bool
all_hex [] = true
all_hex (c ∷ cs) = is_hex c && all_hex cs

-- The newline that `$` looks past.
unfoldable without_final_newline : List ℕ → List ℕ
without_final_newline [] = []
without_final_newline (c ∷ []) = if c == 10 then [] else c ∷ []
without_final_newline (c ∷ d ∷ cs) = c ∷ without_final_newline (d ∷ cs)

-- `SHA_RE.match`
unfoldable pub is_sha : List ℕ → Bool
unfolding all_hex without_final_newline
is_sha text = let t = without_final_newline text in all_hex t && length t == 40

abbrev digits_value : ℕ → List ℕ → List ℕ → Option (ℕ × List ℕ)
digits_value n [] rest = some (n, rest)
digits_value n (d ∷ ds) rest = digits_value (n * 10 + (d - b'0')) ds rest

-- The digits at the front of a text, and what follows them.
unfoldable digits : List ℕ → List ℕ × List ℕ
digits [] = ([], [])
digits (c ∷ cs) =
    let (ds, rest) = digits cs in if is_between b'0' b'9' c then (c ∷ ds, rest) else ([], c ∷ cs)

-- One `\d+`, and its number.
abbrev number_of : List ℕ × List ℕ → Option (ℕ × List ℕ)
number_of ([], rest) = none
number_of (d ∷ ds, rest) = digits_value 0 (d ∷ ds) rest

abbrev after_dot : List ℕ → Option (List ℕ)
after_dot [] = none
after_dot (c ∷ cs) = if c == b'.' then some cs else none

abbrev at_end : List ℕ → List ℕ → Option (List ℕ)
at_end numbers [] = some numbers
at_end numbers (c ∷ cs) = none

abbrev and_then : {A : Type 0} {B : Type 0} → Option A → (A → Option B) → Option B
and_then none f = none
and_then (some a) f = f a

abbrev dotted_number : List ℕ → Option (ℕ × List ℕ)
dotted_number text = and_then (after_dot text) (λ rest. number_of (digits rest))

-- `VERSION_RE.match` with `_version_numbers`: the three numbers, or none where it does not match.
unfoldable pub version_numbers : List ℕ → Option (List ℕ)
unfolding digits without_final_newline
version_numbers text = and_then (number_of (digits (without_final_newline text))) (λ (a, r).
    and_then (dotted_number r)
      (λ (b, r'). and_then (dotted_number r') (λ (c, r''). at_end (a ∷ b ∷ c ∷ []) r'')))

-- `<` on tuples of numbers.
unfoldable pub tuple_below : List ℕ → List ℕ → Bool
tuple_below xs [] = false
tuple_below [] (y ∷ ys) = true
tuple_below (x ∷ xs) (y ∷ ys) = ltb x y || x == y && tuple_below xs ys

-- `FIRST_ZIP_VERSION`
abbrev pub first_zip_version : List ℕ
first_zip_version = 1 ∷ 4 ∷ 0 ∷ []

-- What `git/ref/tags/...` answers: the type of the object and its sha.
pub data Ref : Type 0 where
  commit_ref tag_ref : List ℕ → Ref
  other_ref : Ref

-- An asset, with what reading it back gives.
pub record Asset : Type 0 where
  pub name : List ℕ
  pub content : Result Halt (List ℕ)

pub record Release : Type 0 where
  pub id : ℕ
  pub tag_name : List ℕ
  pub draft : Bool
  pub body : List ℕ
  pub target_commitish : List ℕ
  pub assets : List Asset

-- A line of `git ls-tree`: the mode, the kind, the blob and the path under the component.
pub record Row : Type 0 where
  pub mode : List ℕ
  pub is_blob : Bool
  pub blob : List ℕ
  pub path : List ℕ

-- What git and GitHub answer. An answer is given once for each call of the source, so that a
-- release is read again as `updated` after the upload; a missing default branch is `main`, and a missing
-- status of a comparison `unknown`.
pub record World : Type 0 where
  pub tree : List ℕ → Result Halt (List Row)
  pub blob_content : List ℕ → Result Halt (List ℕ)
  pub ref : Result Halt (Option Ref)
  pub tag_object : List ℕ → Result Halt (List ℕ)
  pub releases : Result Halt (List Release)
  pub default_branch : Result Halt (List ℕ)
  pub compare : List ℕ → Result Halt (Option (List ℕ))
  pub latest : Result Halt (Option (List ℕ))
  pub attested : List ℕ → List ℕ → Result Halt (List (List (Option (List ℕ))))
  pub body : List ℕ → Result Halt (List ℕ)
  pub created_ref : Result Halt (Unit {0})
  pub created_release : Result Halt Release
  pub uploaded : Result Halt (Unit {0})
  pub updated : Result Halt Release
  pub published : Result Halt (Unit {0})
