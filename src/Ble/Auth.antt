-- ===== src/Ble/Auth.antt =====
-- ble/client/auth.py: the owner's login over a connected session.
pub mod Answer
pub mod Proof
use onesti_lock.Base.{
  ℕ, ℤ, pos, negsuc, Bool, true, false, Result, ok, err, ◌>>=◌, ◌>>◌, guard, List, [], ◌∷◌, ◌++◌,
  Option, none, some, leb, ◌==◌, if◌then◌else◌, length, replicate,
}
use onesti_lock.Ble.Error.{BleError, validation, session_state}
use onesti_lock.Ble.Const.{device_id_length}
use onesti_lock.Ble.Command.{CommandPayload}
use onesti_lock.Ble.Commands.{user_auth_begin, user_auth_finalize}
use onesti_lock.Ble.Crypto.{CbcLibrary, LinkKeys, aes_key_length, answer_owner_challenge}
use onesti_lock.Ble.Response.{Response}
use onesti_lock.Ble.Responses.{parse_user_auth_begin}
use onesti_lock.Ble.Session.{Session}
use onesti_lock.Ble.Session.Exchange.{Course, Exchanged, send}

pub record OwnerCredential : Type 0 where
  pub user_id : ℤ
  pub device_id : List ℕ
  pub key : List ℕ

abbrev is_unsigned_byte : ℤ → Bool
is_unsigned_byte (negsuc n) = false
is_unsigned_byte (pos n) = leb n 0xff

-- `OwnerCredential(...)` with its `__post_init__`.
unfoldable pub credential : ℤ → List ℕ → List ℕ → Result BleError OwnerCredential
credential user_id device_id key = do
  guard (is_unsigned_byte user_id) validation
  guard (length device_id == device_id_length) validation
  guard (length key == aes_key_length) validation
  ok (record { user_id = user_id; device_id = device_id; key = key })

-- DEFAULT_OWNER_CREDENTIAL
abbrev pub default_owner_credential : OwnerCredential
default_owner_credential = record {
  user_id = pos 0;
  device_id = replicate device_id_length 0;
  key = replicate aes_key_length 0x11;
}

pub record Login : Type 0 where
  pub outcome : Result BleError (Unit {0})
  pub session : Session
  pub frames : List (List ℕ)

abbrev pub stopped : BleError → Session → List (List ℕ) → Login
stopped e s frames = record { outcome = err e; session = s; frames = frames }

abbrev pub ended : Result BleError Response → Result BleError (Unit {0})
ended (err e) = err e
ended (ok r) = ok tt

-- Each step takes what the one before it answered, and what was sent so far.
abbrev pub finalize : Result BleError CommandPayload → Course → Session → List (List ℕ) → Login
finalize (err e) t s frames = stopped e s frames
finalize (ok c) t s frames =
    let x = send c false t s in
    record { outcome = ended x.outcome; session = x.session; frames = frames ++ x.frames }

abbrev pub answered_with : Result BleError (List ℕ) → Course → Session → List (List ℕ) → Login
answered_with (err e) t s frames = stopped e s frames
answered_with (ok answer) t s frames = finalize (user_auth_finalize answer) t s frames

module _ (library : CbcLibrary) (owner : OwnerCredential) where
  abbrev pub with_link : Option LinkKeys → List ℕ → Course → Session → List (List ℕ) → Login
  with_link none challenge t s frames = stopped session_state s frames
  with_link (some keys) challenge t s frames =
      answered_with (answer_owner_challenge library challenge owner.key keys.iv) t s frames

  abbrev pub challenged : Result BleError (List ℕ) → Course → Session → List (List ℕ) → Login
  challenged (err e) t s frames = stopped e s frames
  challenged (ok challenge) t s frames = with_link s.link_keys challenge t s frames

  abbrev pub begun : Result BleError Response → Course → Session → List (List ℕ) → Login
  begun (err e) t s frames = stopped e s frames
  begun (ok r) t s frames = challenged (parse_user_auth_begin r) t s frames

  abbrev pub begin_with : Result BleError CommandPayload → Course → Course → Session → Login
  begin_with (err e) t t' s = stopped e s []
  begin_with (ok c) t t' s = let x = send c false t s in begun x.outcome t' x.session x.frames

  -- `authenticate_owner`, with the course of each of its two exchanges.
  unfoldable pub authenticate_owner : Course → Course → Session → Login
  unfolding user_auth_begin user_auth_finalize answer_owner_challenge send
  authenticate_owner t t' s = begin_with (user_auth_begin owner.user_id owner.device_id) t t' s
