-- ===== src/Ble/Enrollment.antt =====
-- ble/client/enrollment.py: what an enrolled lock is remembered by.
pub mod Stored
pub mod Run
pub mod Remaining
pub mod Checked
pub mod Kept
pub mod Finished
pub mod Resumed
pub mod RoundTrip
use onesti_lock.Base.{
  ℕ, ℤ, pos, Bool, true, false, not, Result, ok, err, ◌>>=◌, ◌>>◌, guard, List, [], ◌∷◌, Option,
  none, some, ◌==◌, ◌||◌, if◌then◌else◌, length,
}
use onesti_lock.Ble.Error.{BleError, validation}
use onesti_lock.Ble.Const.{device_id_length, public_key_length}
use onesti_lock.Ble.Advertisement.{same_bytes}
use onesti_lock.Ble.Auth.{OwnerCredential, credential, default_owner_credential}
use onesti_lock.Ble.Commands.{device_name_set}
use onesti_lock.Ble.Crypto.{Curve, KeyPair, aes_key_length, load_private_key, key_pair}

-- `EnrollmentStep`, and its members in the order they run.
pub data Step : Type 0 where
  owner_key device_id clock server_key name : Step

abbrev pub members : List Step
members = owner_key ∷ device_id ∷ clock ∷ server_key ∷ name ∷ []

abbrev pub number : Step → ℕ
number owner_key = 0
number device_id = 1
number clock = 2
number server_key = 3
number name = 4

-- A `frozenset` of steps, and `steps | {step}`.
abbrev pub Steps : Type 0
Steps = Step → Bool

abbrev pub with_step : Step → Steps → Steps
with_step step steps other = (number step == number other) || steps other

abbrev pub only_owner_key : Steps
only_owner_key step = number owner_key == number step

pub record Enrollment : Type 0 where
  pub device_id : List ℕ
  pub owner_key : List ℕ
  pub server_private_key : List ℕ
  pub name : List ℕ
  pub lock_server_public_key : Option (List ℕ)
  pub update_private_key : Option (List ℕ)
  pub lock_update_public_key : Option (List ℕ)
  pub completed : Steps
  pub user_id : ℤ

-- DEFAULT_DEVICE_ID
abbrev pub default_device_id : List ℕ
default_device_id = default_owner_credential.device_id

-- `_check_device_id`
unfoldable pub check_device_id : List ℕ → Result BleError (Unit {0})
check_device_id id = do
  guard (length id == device_id_length) validation
  guard (not (same_bytes id default_device_id)) validation

abbrev pub is_some {ℓ} : {A : Type ℓ} → Option A → Bool
is_some none = false
is_some (some a) = true

abbrev pub same_truth : Bool → Bool → Bool
same_truth true b = b
same_truth false b = not b

abbrev pub check_public_key : Option (List ℕ) → Result BleError (Unit {0})
check_public_key none = ok tt
check_public_key (some key) = guard (length key == public_key_length) validation

module _ (curve : Curve) where
  -- `key_pair_from_private_key`
  unfoldable pub key_pair_from_private_key : List ℕ → Result BleError KeyPair
  unfolding load_private_key key_pair
  key_pair_from_private_key private_key = do
    k ← load_private_key curve private_key
    ok (key_pair curve k)

  abbrev pub check_private_key : Option (List ℕ) → Result BleError (Unit {0})
  check_private_key none = ok tt
  check_private_key (some key) = key_pair_from_private_key key >>= λ pair. ok tt

  -- `Enrollment.__post_init__`, which `replace` runs too.
  unfoldable pub check : Enrollment → Result BleError (Unit {0})
  unfolding check_device_id key_pair_from_private_key device_name_set credential
  check e = do
    check_device_id e.device_id
    guard (length e.owner_key == aes_key_length) validation
    pair ← key_pair_from_private_key e.server_private_key
    c ← device_name_set e.name
    guard (e.completed owner_key) validation
    guard (same_truth (e.completed server_key) (is_some e.lock_server_public_key)) validation
    check_public_key e.lock_server_public_key
    guard (same_truth (is_some e.update_private_key) (is_some e.lock_update_public_key)) validation
    check_private_key e.update_private_key
    check_public_key e.lock_update_public_key
    owner ← credential e.user_id e.device_id e.owner_key
    ok tt

  -- `Enrollment(...)` and `replace(...)`
  abbrev pub made : Enrollment → Result BleError Enrollment
  made e = check e >> ok e

  -- `server_public_key`
  unfoldable pub server_public_key : Enrollment → Result BleError (List ℕ)
  unfolding key_pair_from_private_key
  server_public_key e = do pair ← key_pair_from_private_key e.server_private_key; ok pair.public_key

-- `remaining`, over the members that are still to come.
unfoldable pub remaining_of : Steps → List Step → List Step
remaining_of steps [] = []
remaining_of steps (step ∷ more) =
    let rest = remaining_of steps more in if steps step then rest else step ∷ rest

abbrev pub remaining : Enrollment → List Step
remaining e = remaining_of e.completed members

-- `complete`: every step is completed.
unfoldable pub all_completed : Steps → List Step → Bool
all_completed steps [] = true
all_completed steps (step ∷ more) =
    let rest = all_completed steps more in if steps step then rest else false

abbrev pub complete : Enrollment → Bool
complete e = all_completed e.completed members

-- `owner_credential`
unfoldable pub owner_credential : Enrollment → Result BleError OwnerCredential
unfolding credential
owner_credential e =
    credential e.user_id (if e.completed device_id then e.device_id else default_device_id)
      e.owner_key

-- `new_device_id`, over the tokens that are drawn: `none` while each of them is the factory id.
unfoldable pub new_device_id : List (List ℕ) → Option (List ℕ)
unfolding same_bytes
new_device_id [] = none
new_device_id (candidate ∷ more) =
    let rest = new_device_id more in
    if same_bytes candidate default_device_id then rest else some candidate
