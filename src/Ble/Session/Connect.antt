-- ===== src/Ble/Session/Connect.antt =====
-- `Session.connect`: the firmware, the key exchange and the model, in this order.
use onesti_lock.Base.{ℕ, Result, ok, err, List, Option, none, some, if◌then◌else◌}
use onesti_lock.Ble.Error.{BleError, session_state, firmware_too_old}
use onesti_lock.Ble.Const.{FirmwareVersion}
use onesti_lock.Ble.Command.{CommandPayload, older_than, for_firmware}
use onesti_lock.Ble.Commands.{exchange_key_pub_m, device_model_get}
use onesti_lock.Ble.Crypto.{CbcLibrary, Aes128Cbc, Curve, KeyPair, LinkKeys, derive_link_keys}
use onesti_lock.Ble.Features.{is_admin}
use onesti_lock.Ble.Link.{cipher_of, encrypter}
use onesti_lock.Ble.Response.{Response}
use onesti_lock.Ble.Responses.{DeviceModel, parse_device_model, parse_exchange_key_pub_l}
use onesti_lock.Ble.Session.{Session, State, fresh, connecting, connected, close}
use onesti_lock.Ble.Session.Exchange.{Course, exchange}
use onesti_lock.Ble.Session.Revision.{parse_software_revision}

-- MIN_FIRMWARE_CONNECT
abbrev pub min_firmware_connect : FirmwareVersion
min_firmware_connect = record { major = 4; minor = 6; bugfix = 0 }

-- What the transport answers and what happens during the two exchanges.
pub record Handshake : Type 0 where
  pub revision : Result BleError (List ℕ)
  pub subscribe_error : Option BleError
  pub key_pair : KeyPair
  pub key_course : Course
  pub model_course : Course

abbrev Opened : Type 0
Opened = Result BleError (Unit {0}) × Session

abbrev pub finish : Session → Opened
finish s = (ok tt, record s { state = connected })

abbrev pub with_model : Result BleError DeviceModel → Session → Opened
with_model (err e) s = (err e, s)
with_model (ok m) s = finish (record s { model = some m.model })

abbrev pub model_answered : Result BleError Response → Session → Opened
model_answered (err e) s = (err e, s)
model_answered (ok r) s = with_model (parse_device_model r) s

abbrev pub ask_model : FirmwareVersion → Course → Session → Opened
ask_model firmware t s =
    if is_admin firmware
    then (let x = exchange device_model_get t s in model_answered x.outcome x.session)
    else finish s

module _ (library : CbcLibrary) (curve : Curve) (h : Handshake) where
  abbrev pub with_cipher : Result BleError Aes128Cbc → FirmwareVersion → Session → Opened
  with_cipher (err e) firmware s = (err e, s)
  with_cipher (ok c) firmware s =
      ask_model firmware h.model_course
        (record s { stream = record s.stream { cipher = some (encrypter library c) } })

  abbrev pub with_keys : Result BleError LinkKeys → FirmwareVersion → Session → Opened
  with_keys (err e) firmware s = (err e, s)
  with_keys (ok keys) firmware s =
      with_cipher (cipher_of keys) firmware (record s { link_keys = some keys })

  abbrev pub with_public_key : Result BleError (List ℕ) → FirmwareVersion → Session → Opened
  with_public_key (err e) firmware s = (err e, s)
  with_public_key (ok lock_public_key) firmware s =
      with_keys (derive_link_keys curve h.key_pair.private_key lock_public_key) firmware s

  abbrev pub key_answered : Result BleError Response → FirmwareVersion → Session → Opened
  key_answered (err e) firmware s = (err e, s)
  key_answered (ok r) firmware s = with_public_key (parse_exchange_key_pub_l r) firmware s

  abbrev pub exchange_keys : Result BleError CommandPayload → FirmwareVersion → Session → Opened
  exchange_keys (err e) firmware s = (err e, s)
  exchange_keys (ok c) firmware s =
      let x = exchange c h.key_course s in key_answered x.outcome firmware x.session

  abbrev pub subscribed : Option BleError → FirmwareVersion → Session → Opened
  subscribed (some e) firmware s = (err e, s)
  subscribed none firmware s = exchange_keys (exchange_key_pub_m h.key_pair.public_key) firmware s

  abbrev pub with_firmware : Result BleError FirmwareVersion → Session → Opened
  with_firmware (err e) s = (err e, s)
  with_firmware (ok firmware) s =
      if older_than firmware min_firmware_connect
      then (err (firmware_too_old firmware min_firmware_connect), s)
      else subscribed h.subscribe_error firmware
          (record s { firmware = some firmware; refs = for_firmware firmware })

  abbrev pub with_revision : Result BleError (List ℕ) → Session → Opened
  with_revision (err e) s = (err e, s)
  with_revision (ok raw) s = with_firmware (parse_software_revision raw) s

  -- `except BaseException: await self.close(); raise`
  abbrev pub close_on_error : Opened → Opened
  close_on_error (err e, s) = (err e, close s)
  close_on_error (ok x, s) = (ok x, s)

  abbrev pub connect_fresh : State → Session → Opened
  connect_fresh fresh s =
      close_on_error (with_revision h.revision (record s { state = connecting }))
  connect_fresh _ s = (err session_state, s)

  unfoldable pub connect : Session → Opened
  unfolding exchange parse_software_revision exchange_key_pub_m derive_link_keys parse_device_model
      cipher_of older_than for_firmware close
  connect s = connect_fresh s.state s
