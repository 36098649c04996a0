-- ===== src/Ble/Session/Connected.antt =====
-- Connecting once: the session is connected with a firmware and a cipher, or closed.
use onesti_lock.Base.{
  ℕ, false, Result, ok, err, List, Option, none, some, ◌≡◌, ◌⊎◌, inl, inr, refl, ◌∙◌, Bool-cases,
}
use onesti_lock.Ble.Error.{BleError}
use onesti_lock.Ble.Const.{FirmwareVersion}
use onesti_lock.Ble.Command.{CommandPayload, older_than, for_firmware}
use onesti_lock.Ble.Commands.{exchange_key_pub_m, device_model_get}
use onesti_lock.Ble.Features.{is_admin}
use onesti_lock.Ble.Session.SameLink.{exchange_link}
use onesti_lock.Ble.Crypto.{CbcLibrary, Aes128Cbc, Curve, LinkKeys, derive_link_keys}
use onesti_lock.Ble.Link.{cipher_of, encrypter}
use onesti_lock.Ble.Response.{Response}
use onesti_lock.Ble.Responses.{DeviceModel, parse_device_model, parse_exchange_key_pub_l}
use onesti_lock.Ble.Stream.{PayloadCipher}
use onesti_lock.Ble.Session.Revision.{parse_software_revision}
use onesti_lock.Ble.Session.{Session, State, fresh, connecting, connected, closed, close}
use onesti_lock.Ble.Session.Exchange.{Course, exchange}
use onesti_lock.Ble.Session.Connect

-- What `connect` promises where it returns.
abbrev pub IsLinked : Session → Type 0
IsLinked s =
    ((firmware : FirmwareVersion) × (s.firmware ≡ some firmware)
      × (older_than firmware Connect.min_firmware_connect ≡ false))
    × ((cipher : PayloadCipher) × (s.stream.cipher ≡ some cipher))

abbrev Promised : Result BleError (Unit {0}) × Session → Type 0
Promised (ok x, s) = (s.state ≡ connected) × IsLinked s
Promised (err e, s) = Unit

with_model-Promised :
    (r : Result BleError DeviceModel) (s : Session) → IsLinked s → Promised (Connect.with_model r s)
with_model-Promised (err e) s h = tt
with_model-Promised (ok m) s h = (refl, h)

model_answered-Promised :
    (r : Result BleError Response) (s : Session)
    → IsLinked s
    → Promised (Connect.model_answered r s)
model_answered-Promised (err e) s h = tt
model_answered-Promised (ok r) s h = with_model-Promised (parse_device_model r) s h

exchange-IsLinked :
    (c : CommandPayload) (t : Course) (s : Session) → IsLinked s → IsLinked (exchange c t s).session
exchange-IsLinked c t s ((firmware, has, new), (cipher, set)) =
    let (f, m, p, k) = exchange_link c t s in ((firmware, f ∙ has, new), (cipher, p ∙ set))

ask_model-Promised :
    (firmware : FirmwareVersion) (t : Course) (s : Session)
    → IsLinked s
    → Promised (Connect.ask_model firmware t s)
ask_model-Promised firmware t s h = elim (Bool-cases (is_admin firmware)) [
  | inr old ↦ rw old (refl, h)
  | inl new ↦ rw new (
      model_answered-Promised (exchange device_model_get t s).outcome
        (exchange device_model_get t s).session (exchange-IsLinked device_model_get t s h))
]

module _ (library : CbcLibrary) (curve : Curve) (h : Connect.Handshake) where
  -- The firmware is known and recent enough; the cipher is not set yet.
  abbrev HasFirmware : FirmwareVersion → Session → Type 0
  HasFirmware firmware s =
      (s.firmware ≡ some firmware) × (older_than firmware Connect.min_firmware_connect ≡ false)

  with_cipher-Promised :
      (r : Result BleError Aes128Cbc) (firmware : FirmwareVersion) (s : Session)
      → HasFirmware firmware s
      → Promised (Connect.with_cipher library curve h r firmware s)
  with_cipher-Promised (err e) firmware s k = tt
  with_cipher-Promised (ok c) firmware s (has, new) =
      ask_model-Promised firmware h.model_course
        (record s { stream = record s.stream { cipher = some (encrypter library c) } })
        ((firmware, has, new), (encrypter library c, refl))

  with_keys-Promised :
      (r : Result BleError LinkKeys) (firmware : FirmwareVersion) (s : Session)
      → HasFirmware firmware s
      → Promised (Connect.with_keys library curve h r firmware s)
  with_keys-Promised (err e) firmware s k = tt
  with_keys-Promised (ok keys) firmware s k =
      with_cipher-Promised (cipher_of keys) firmware (record s { link_keys = some keys }) k

  with_public_key-Promised :
      (r : Result BleError (List ℕ)) (firmware : FirmwareVersion) (s : Session)
      → HasFirmware firmware s
      → Promised (Connect.with_public_key library curve h r firmware s)
  with_public_key-Promised (err e) firmware s k = tt
  with_public_key-Promised (ok key) firmware s k =
      with_keys-Promised (derive_link_keys curve h.key_pair.private_key key) firmware s k

  key_answered-Promised :
      (r : Result BleError Response) (firmware : FirmwareVersion) (s : Session)
      → HasFirmware firmware s
      → Promised (Connect.key_answered library curve h r firmware s)
  key_answered-Promised (err e) firmware s k = tt
  key_answered-Promised (ok r) firmware s k =
      with_public_key-Promised (parse_exchange_key_pub_l r) firmware s k

  exchange_keys-Promised :
      (r : Result BleError CommandPayload) (firmware : FirmwareVersion) (s : Session)
      → HasFirmware firmware s
      → Promised (Connect.exchange_keys library curve h r firmware s)
  exchange_keys-Promised (err e) firmware s k = tt
  exchange_keys-Promised (ok c) firmware s (has, new) =
      key_answered-Promised (exchange c h.key_course s).outcome firmware
        (exchange c h.key_course s).session ((exchange_link c h.key_course s).0 ∙ has, new)

  subscribed-Promised :
      (o : Option BleError) (firmware : FirmwareVersion) (s : Session)
      → HasFirmware firmware s
      → Promised (Connect.subscribed library curve h o firmware s)
  subscribed-Promised (some e) firmware s k = tt
  subscribed-Promised none firmware s k =
      exchange_keys-Promised (exchange_key_pub_m h.key_pair.public_key) firmware s k

  with_firmware-Promised :
      (r : Result BleError FirmwareVersion) (s : Session)
      → Promised (Connect.with_firmware library curve h r s)
  with_firmware-Promised (err e) s = tt
  with_firmware-Promised (ok firmware) s =
      elim (Bool-cases (older_than firmware Connect.min_firmware_connect)) [
        | inl old ↦ rw old tt
        | inr new ↦ rw new (
            subscribed-Promised h.subscribe_error firmware
              (record s { firmware = some firmware; refs = for_firmware firmware }) (refl, new))
      ]

  with_revision-Promised :
      (r : Result BleError (List ℕ)) (s : Session)
      → Promised (Connect.with_revision library curve h r s)
  with_revision-Promised (err e) s = tt
  with_revision-Promised (ok raw) s = with_firmware-Promised (parse_software_revision raw) s

  abbrev Concluded : Result BleError (Unit {0}) × Session → Type 0
  Concluded o =
      ((o.0 ≡ ok tt) × (o.1.state ≡ connected) × IsLinked o.1)
      ⊎ ((e : BleError) × (o.0 ≡ err e) × (o.1.state ≡ closed))

  close_on_error-Concluded :
      (o : Result BleError (Unit {0}) × Session)
      → Promised o
      → Concluded (Connect.close_on_error library curve h o)
  close_on_error-Concluded (ok tt, s) p = inl (refl, p.0, p.1)
  close_on_error-Concluded (err e, s) p = unfold close in inr (e, refl, refl)

  -- `connect` on a new session either returns, and then the session is connected, its firmware is
  -- 4.6.0 or later and a link cipher is set, or it raises, and then the session is closed.
  pub connect_cases :
      (s : Session)
      → s.state ≡ fresh
      → (((Connect.connect library curve h s).0 ≡ ok tt)
          × ((Connect.connect library curve h s).1.state ≡ connected)
          × IsLinked (Connect.connect library curve h s).1)
        ⊎ ((e : BleError) × ((Connect.connect library curve h s).0 ≡ err e)
            × ((Connect.connect library curve h s).1.state ≡ closed))
  unfolding Connect.connect
  connect_cases s new = go s.state new
    where
      go :
          (state : State)
          → state ≡ fresh
          → Concluded (Connect.connect_fresh library curve h state s)
      go fresh e =
          close_on_error-Concluded
            (Connect.with_revision library curve h h.revision (record s { state = connecting }))
            (with_revision-Promised h.revision (record s { state = connecting }))
      go connecting e = cc e
      go connected e = cc e
      go closed e = cc e
