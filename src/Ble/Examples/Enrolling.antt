-- ===== src/Ble/Examples/Enrolling.antt =====
-- Examples of an enrollment: a lock of two keys that answers every step.
use onesti_lock.Base.{
  [], ◌↔◌, ℕ, pos, true, false, Result, ok, err, ◌>>=◌, List, ◌∷◌, none, some, ◌≡◌, refl, arith,
  replicate,
}
use onesti_lock.Ble.Error.{BleError}
use onesti_lock.Ble.Advertisement.{same_bytes}
use onesti_lock.Ble.Const.ResponseId.{ResponseId}
use onesti_lock.Ble.Const.ResponseStatusId.{ResponseStatusId}
use onesti_lock.Ble.Commands.{aware}
use onesti_lock.Ble.Crypto.{LinkKeys, key_pair}
use onesti_lock.Ble.Response.{Response, known}
use onesti_lock.Ble.Response as Response
use onesti_lock.Ble.Link.{encrypter}
use onesti_lock.Ble.Stream.{frame_with}
use onesti_lock.Ble.Session.{Session}
use onesti_lock.Ble.Session.Exchange.{Course}
use onesti_lock.Ble.Session.Served.{linked, course}
use onesti_lock.Ble.Auth.{authenticate_owner, default_owner_credential}
use onesti_lock.Ble.Auth.Proof.{ProvesKey, authenticate_owner_iff}
use onesti_lock.Ble.Enrollment.{
  Step, owner_key, device_id, clock, server_key, name, Enrollment, only_owner_key, check,
}
use onesti_lock.Ble.Enrollment.Run.{Arguments, World, enroll, resume_enrollment}
use onesti_lock.Ble.Enrollment.Finished.{Enrolls, enroll_kept}
use onesti_lock.Ble.Enrollment.Resumed.{Resumes, resume_kept}
use onesti_lock.Ble.Enrollment.Stored.{to_dict, from_dict}
use onesti_lock.Ble.Enrollment.RoundTrip.{from_dict-to_dict}
use onesti_lock.Ble.Examples.Setup.{
  reversing, reversing-IsCbc, link, two_keys, two_keys-IsCurve, new_session,
}

abbrev response : ResponseId → ℕ → List ℕ → Response
response id command_ref payload = record {
  response_id = known id;
  command_ref = command_ref;
  status = known ResponseStatusId.success;
  payload = payload;
}

abbrev frames_or_none : Result BleError (List (List ℕ)) → List (List ℕ)
frames_or_none (ok frames) = frames
frames_or_none (err e) = []

-- An exchange that hears this response.
answered : Response → Course
answered r = course 1000000 1000000 (
    frames_or_none
      (Response.to_bytes r >>= λ bytes. frame_with 23 (some (encrypter reversing link)) bytes))

abbrev lock_key : List ℕ
lock_key = (key_pair two_keys true).public_key

abbrev step_answer : Step → Response
step_answer owner_key = response ResponseId.user_auth_update 3 lock_key
step_answer device_id = response ResponseId.device_id_set 4 []
step_answer clock = response ResponseId.current_time_set 5 []
step_answer server_key = response ResponseId.server_key_update 6 lock_key
step_answer name = response ResponseId.device_name_set 7 []

abbrev world : World
world = record {
  login_begin = answered (response ResponseId.user_auth_begin 1 (replicate 16 9));
  login_finalize = answered (response ResponseId.user_auth_finalize 2 (0 ∷ []));
  retry_begin = course 0 0 [];
  retry_finalize = course 0 0 [];
  course = λ step. answered (step_answer step);
  save_returns = λ step. true;
  now = aware (pos 60000000);
}

abbrev arguments : Arguments
arguments = record {
  name = b'D' ∷ b'o' ∷ b'r' ∷ [];
  device_id = 1 ∷ 2 ∷ 3 ∷ 4 ∷ 5 ∷ 6 ∷ [];
  server_private_key = (key_pair two_keys false).private_key;
  update_key = key_pair two_keys false;
}

abbrev link_keys : LinkKeys
link_keys = record { key = replicate 16 17; iv = replicate 16 34 }

abbrev session : Session
session = record (linked 23 reversing link new_session) {
  firmware = some (record { major = 4; minor = 8; bugfix = 2 });
  link_keys = some link_keys;
}

enroll_kept_example : Enrolls two_keys (enroll two_keys reversing arguments world session)
enroll_kept_example = enroll_kept two_keys two_keys-IsCurve reversing arguments world session

-- An enrollment that stopped after its first step.
abbrev stopped : Enrollment
stopped = record {
  device_id = 1 ∷ 2 ∷ 3 ∷ 4 ∷ 5 ∷ 6 ∷ [];
  owner_key = replicate 16 5;
  server_private_key = 1 ∷ replicate 31 0;
  name = b'D' ∷ b'o' ∷ b'r' ∷ [];
  lock_server_public_key = none;
  update_private_key = none;
  lock_update_public_key = none;
  completed = only_owner_key;
  user_id = pos 0;
}

stopped-checked : check two_keys stopped ≡ ok tt
unfolding check same_bytes
stopped-checked = refl

resume_kept_example :
    Resumes two_keys stopped (resume_enrollment two_keys reversing world stopped session)
resume_kept_example = resume_kept two_keys reversing world stopped stopped-checked session

from_dict-to_dict_example : from_dict two_keys (to_dict stopped) ≡ ok stopped
from_dict-to_dict_example = from_dict-to_dict two_keys stopped stopped-checked (record {
  device_id_bytes = omega arith;
  owner_key_bytes = omega arith;
  server_private_key_bytes = omega arith;
  lock_server_public_key_bytes = tt;
  update_private_key_bytes = tt;
  lock_update_public_key_bytes = tt;
})

authenticate_owner_iff_example :
    ((authenticate_owner reversing default_owner_credential world.login_begin world.login_finalize
        session).outcome
      ≡ ok tt)
    ↔ ProvesKey reversing default_owner_credential world.login_begin world.login_finalize session
        link_keys
authenticate_owner_iff_example =
    authenticate_owner_iff reversing default_owner_credential world.login_begin world.login_finalize
      session link_keys reversing-IsCbc refl refl refl
