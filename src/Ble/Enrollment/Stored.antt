-- ===== src/Ble/Enrollment/Stored.antt =====
-- `Enrollment.to_dict` and `from_dict`: an enrollment as it is stored.
use onesti_lock.Base.{
  ℕ, ℤ, pos, ◌+◌, ◌-◌, ◌*◌, ◌/◌, ◌%◌, Bool, false, Result, ok, err, ◌>>=◌, ◌>>◌, guard, List, [],
  ◌∷◌, Option, none, some, ltb, leb, ◌==◌, ◌||◌, ◌&&◌, if◌then◌else◌,
}
use onesti_lock.Ble.Error.{BleError, validation}
use onesti_lock.Ble.Advertisement.{same_bytes}
use onesti_lock.Ble.Crypto.{Curve, required_or}
use onesti_lock.Ble.Enrollment.{
  Step, owner_key, device_id, clock, server_key, name, members, Steps, with_step, Enrollment, made,
  check,
}

-- A step's value, as code points.
unfoldable pub value : Step → List ℕ
value owner_key = 111 ∷ 119 ∷ 110 ∷ 101 ∷ 114 ∷ 95 ∷ 107 ∷ 101 ∷ 121 ∷ []
value device_id = 100 ∷ 101 ∷ 118 ∷ 105 ∷ 99 ∷ 101 ∷ 95 ∷ 105 ∷ 100 ∷ []
value clock = 99 ∷ 108 ∷ 111 ∷ 99 ∷ 107 ∷ []
value server_key = 115 ∷ 101 ∷ 114 ∷ 118 ∷ 101 ∷ 114 ∷ 95 ∷ 107 ∷ 101 ∷ 121 ∷ []
value name = 110 ∷ 97 ∷ 109 ∷ 101 ∷ []

-- `EnrollmentStep(text)`: `none` is ValueError.
unfoldable pub find_step : List Step → List ℕ → Option Step
unfolding value same_bytes
find_step [] text = none
find_step (step ∷ more) text =
    let rest = find_step more text in if same_bytes (value step) text then some step else rest

-- An item of a stored list: a text, or anything else.
pub data Item : Type 0 where
  word : List ℕ → Item
  odd_item : Item

-- A stored value; `null` is also that of a key that is not there.
pub data Value : Type 0 where
  null : Value
  number : ℤ → Value
  text : List ℕ → Value
  items : List Item → Value

-- The keys that are read. A list in place of the format, for which Python raises TypeError, is not
-- asked for.
pub record Stored : Type 0 where
  pub format : Value
  pub user_id : Value
  pub device_id : Value
  pub owner_key : Value
  pub server_private_key : Value
  pub lock_server_public_key : Value
  pub update_private_key : Value
  pub lock_update_public_key : Value
  pub name : Value
  pub completed : Value

abbrev pub enrollment_format : ℕ
enrollment_format = 2

-- One digit of `bytes.hex()`.
abbrev pub hex_digit : ℕ → ℕ
hex_digit n = if ltb n 10 then 48 + n else 87 + n

unfoldable pub hex : List ℕ → List ℕ
hex [] = []
hex (b ∷ bytes) = hex_digit (b / 16) ∷ hex_digit (b % 16) ∷ hex bytes

abbrev pub digit_of : ℕ → Option ℕ
digit_of c =
    if leb 48 c && leb c 57
    then some (c - 48)
    else if leb 97 c && leb c 102
    then some (c - 87)
    else if leb 65 c && leb c 70
    then some (c - 55)
    else none

abbrev pub byte_of : Option ℕ → Option ℕ → Option (List ℕ) → Option (List ℕ)
byte_of (some h) (some l) (some bytes) = some ((16 * h + l) ∷ bytes)
byte_of _ _ _ = none

-- ASCII white space, which `bytes.fromhex` skips between two bytes.
abbrev pub is_space : ℕ → Bool
is_space c = c == 32 || leb 9 c && leb c 13

unfoldable pub from_hex : List ℕ → Option (List ℕ)
from_hex [] = some []
from_hex (c ∷ []) = if is_space c then some [] else none
from_hex (c ∷ d ∷ rest) =
    let skipped = from_hex (d ∷ rest) in
    let read = byte_of (digit_of c) (digit_of d) (from_hex rest) in
    if is_space c then skipped else read

-- `_hex_field`
unfoldable pub hex_field : Value → Result BleError (List ℕ)
unfolding from_hex
hex_field (text t) = required_or validation (from_hex t)
hex_field _ = err validation

abbrev pub optional_hex : Value → Result BleError (Option (List ℕ))
optional_hex null = ok none
optional_hex v = hex_field v >>= λ bytes. ok (some bytes)

abbrev pub hex_or_null : Option (List ℕ) → Value
hex_or_null none = null
hex_or_null (some bytes) = text (hex bytes)

-- The values of the completed steps, in the order of the class.
unfoldable pub words : Steps → List Step → List Item
unfolding value
words steps [] = []
words steps (step ∷ more) =
    let rest = words steps more in if steps step then word (value step) ∷ rest else rest

unfoldable pub to_dict : Enrollment → Stored
unfolding hex words
to_dict e = record {
  format = number (pos enrollment_format);
  user_id = number e.user_id;
  device_id = text (hex e.device_id);
  owner_key = text (hex e.owner_key);
  server_private_key = text (hex e.server_private_key);
  lock_server_public_key = hex_or_null e.lock_server_public_key;
  update_private_key = hex_or_null e.update_private_key;
  lock_update_public_key = hex_or_null e.lock_update_public_key;
  name = text e.name;
  completed = items (words e.completed members);
}

-- READABLE_ENROLLMENT_FORMATS
abbrev pub is_readable : Value → Bool
is_readable (number (pos n)) = n == 1 || n == enrollment_format
is_readable _ = false

abbrev pub step_of : Item → Result BleError Step
step_of odd_item = err validation
step_of (word w) = required_or validation (find_step members w)

unfoldable pub steps_of : List Item → Result BleError Steps
unfolding find_step
steps_of [] = ok (λ step. false)
steps_of (item ∷ more) = do step ← step_of item; steps ← steps_of more; ok (with_step step steps)

abbrev pub completed_of : Value → Result BleError Steps
completed_of (items l) = steps_of l
completed_of _ = err validation

abbrev pub text_of : Value → Result BleError (List ℕ)
text_of (text t) = ok t
text_of _ = err validation

abbrev pub number_of : Value → Result BleError ℤ
number_of (number n) = ok n
number_of _ = err validation

module _ (curve : Curve) where
  unfoldable pub from_dict : Stored → Result BleError Enrollment
  unfolding steps_of hex_field check
  from_dict d = do
    guard (is_readable d.format) validation
    steps ← completed_of d.completed
    named ← text_of d.name
    user_id ← number_of d.user_id
    id ← hex_field d.device_id
    key ← hex_field d.owner_key
    server_private_key ← hex_field d.server_private_key
    lock_server_public_key ← optional_hex d.lock_server_public_key
    update_private_key ← optional_hex d.update_private_key
    lock_update_public_key ← optional_hex d.lock_update_public_key
    made curve (record {
      device_id = id;
      owner_key = key;
      server_private_key = server_private_key;
      name = named;
      lock_server_public_key = lock_server_public_key;
      update_private_key = update_private_key;
      lock_update_public_key = lock_update_public_key;
      completed = steps;
      user_id = user_id;
    })
