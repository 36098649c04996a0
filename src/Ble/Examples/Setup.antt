-- ===== src/Ble/Examples/Setup.antt =====
-- The instances and the data of the examples.
use mathlib.Core.List.{reverse, reverse-reverse}
use onesti_lock.Base.{
  [], ℕ, ◌^◌, ◌<◌, Bool, true, false, ◌∷◌, none, some, ◌≡◌, refl, arith, ◌==◌, if◌then◌else◌,
  replicate, length-reverse, length-replicate,
}
use onesti_lock.Ble.Const.CommandId.{CommandId}
use onesti_lock.Ble.Const.ResponseId.{ResponseId}
use onesti_lock.Ble.Const.ResponseStatusId.{ResponseStatusId}
use onesti_lock.Ble.Command.{CommandPayload, counter}
use onesti_lock.Ble.Crypto.{CbcLibrary, Aes128Cbc, Curve}
use onesti_lock.Ble.Crypto.Sealing.{IsCbc, IsReady}
use onesti_lock.Ble.Crypto.Exchange.{IsCurve}
use onesti_lock.Ble.Response.{Response, known}
use onesti_lock.Ble.Stream.Transfer.{idle}
use onesti_lock.Ble.Session.{Session, fresh}

abbrev pub reversing : CbcLibrary
reversing = record {
  encrypt = λ key iv bytes. reverse bytes;
  decrypt = λ key iv bytes. reverse bytes;
}

pub reversing-IsCbc : IsCbc reversing
reversing-IsCbc = record {
  decrypt-encrypt = λ key iv bytes hk hv hb. reverse-reverse bytes;
  encrypt-decrypt = λ key iv bytes hk hv hb. reverse-reverse bytes;
  length-encrypt = λ key iv bytes h. length-reverse bytes;
  length-decrypt = λ key iv bytes h. length-reverse bytes;
}

abbrev pub link : Aes128Cbc
link = record { key = replicate 16 17; iv = replicate 16 34; iv_reset = false }

pub link-IsReady : IsReady link
link-IsReady = record { key = refl; iv = refl }

abbrev pub differ : Bool → Bool → Bool
differ true b = if b then false else true
differ false b = b

abbrev pub two_keys : Curve
two_keys = record {
  PrivateKey = Bool;
  PublicKey = Bool;
  derive_private_key = λ n. if n == 1 then some false else if n == 2 then some true else none;
  public_key_at = λ m n. if m == 1 then some false else if m == 2 then some true else none;
  scalar = λ k. if k then 2 else 1;
  public_key = λ k. k;
  x = λ p. if p then 2 else 1;
  y = λ p. 7;
  exchange = λ a p. replicate 32 (if differ a p then 5 else 6);
}

key_read : (k : Bool) → two_keys.derive_private_key (two_keys.scalar k) ≡ some k
key_read true = refl
key_read false = refl

point_read : (p : Bool) → two_keys.public_key_at (two_keys.x p) (two_keys.y p) ≡ some p
point_read true = refl
point_read false = refl

number_bound : (k : Bool) → two_keys.scalar k < 2 ^ 256
number_bound true = omega arith
number_bound false = omega arith

exchange_symmetric : (a b : Bool) → two_keys.exchange a b ≡ two_keys.exchange b a
exchange_symmetric true true = refl
exchange_symmetric true false = refl
exchange_symmetric false true = refl
exchange_symmetric false false = refl

pub two_keys-IsCurve : IsCurve two_keys
two_keys-IsCurve = record {
  derive-scalar = key_read;
  at-coordinates = point_read;
  scalar_bound = number_bound;
  x_bound = number_bound;
  y_bound = λ p. omega arith;
  symmetric = exchange_symmetric;
  length-exchange = λ a p. length-replicate {A = ℕ} 32 (if differ a p then 5 else 6);
}

-- DeviceModelGet, its answer with the model byte 23, and a session that has just been made.
abbrev pub ask : CommandPayload
ask = record { command_id = CommandId.device_model_get; bytes = [] }

abbrev pub model_answer : Response
model_answer = record {
  response_id = known ResponseId.device_model_get;
  command_ref = 1;
  status = known ResponseStatusId.success;
  payload = 23 ∷ [];
}

abbrev pub new_session : Session
new_session = record {
  command_delay = 320;
  late_answer_grace = 20000;
  stream = idle 23 none;
  state = fresh;
  refs = counter false;
  firmware = none;
  model = none;
  link_keys = none;
  pending = none;
  dropped = none;
  ready_at = 0;
}
