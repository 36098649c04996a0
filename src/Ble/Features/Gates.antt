-- ===== src/Ble/Features/Gates.antt =====
-- The gates on the commands that the builders make.
use onesti_lock.Base.{
  ℕ, ◌<◌, pos, Bool, true, false, ok, List, Option, ◌≡◌, arith, ap, sym, ◌∙◌, ◌==◌, if◌then◌else◌,
}
use onesti_lock.Ble.Const.{FirmwareVersion}
use onesti_lock.Ble.Const.CommandId.{CommandId}
use onesti_lock.Ble.Const.DeviceFeature.{is_available, available, unavailable, unavailable_version}
use onesti_lock.Ble.Const.LockModelId.{LockModelId}
use onesti_lock.Ble.Command.{CommandPayload}
use onesti_lock.Ble.Commands.{pin_code_set}
use onesti_lock.Ble.Commands.Pins.{pin_layout, pin_code_set_accepted}
use onesti_lock.Ble.Features.{availability, model_features, is_admin, is_firmware_gated}

-- Commands that the app never sends below firmware 4.7.90.
pub needs_admin : CommandId → Bool
needs_admin CommandId.fingerprint_scan = true
needs_admin CommandId.fingerprint_clear = true
needs_admin CommandId.keypad_enable_set = true
needs_admin c = is_firmware_gated c

abbrev payload_of : CommandId → List ℕ → CommandPayload
payload_of id bytes = record { command_id = id; bytes = bytes }

old_gate :
    (id : CommandId) (bytes : List ℕ) (firmware : FirmwareVersion) (model : Option LockModelId)
    → is_admin firmware ≡ false
    → is_available (availability (payload_of id bytes) firmware model)
      ≡ (if needs_admin id then false else true)
unfolding availability needs_admin is_available
old_gate CommandId.pin_code_set bytes firmware model old = ground arith
old_gate _ bytes firmware model old = ground arith

-- Below 4.7.90 a command is available exactly where it needs no admin firmware, whatever the model.
pub availability_old :
    (c : CommandPayload) (firmware : FirmwareVersion) (model : Option LockModelId)
    → is_admin firmware ≡ false
    → is_available (availability c firmware model)
      ≡ (if needs_admin c.command_id then false else true)
availability_old c firmware model old = old_gate c.command_id c.bytes firmware model old

pin_gate :
    (n : ℕ) (pin : List ℕ) (firmware : FirmwareVersion) (model : Option LockModelId)
    → n < 65536
    → availability (payload_of CommandId.pin_code_set (pin_layout n pin)) firmware model ≡ (
        if is_admin firmware
        then (if n == 0
            then (if (model_features model).master_pin then available else unavailable)
            else available)
        else unavailable_version)
unfolding availability
pin_gate n pin firmware model h = ground arith

-- A PinCodeSet that the builder makes for slot n is available from firmware 4.7.90 on: for slot 0,
-- the master PIN, only on a model with a master PIN, and for any other slot on every model.
pub availability-pin_code_set :
    (n : ℕ) (pin : List ℕ) (ignore : Bool) (c : CommandPayload) (firmware : FirmwareVersion)
    (model : Option LockModelId)
    → n < 65536
    → pin_code_set (pos n) pin ignore ≡ ok c
    → availability c firmware model ≡ (
        if is_admin firmware
        then (if n == 0
            then (if (model_features model).master_pin then available else unavailable)
            else available)
        else unavailable_version)
availability-pin_code_set n pin ignore c firmware model h e =
    let (m, same, valid, built) = pin_code_set_accepted (pos n) pin ignore c e in
    let same' : n ≡ m = cc same in
    ap (λ d. availability d firmware model) built
    ∙ ap (λ k. availability (payload_of CommandId.pin_code_set (pin_layout k pin)) firmware model)
        (sym same')
    ∙ pin_gate n pin firmware model h
