-- ===== src/Ble/Features.antt =====
-- ble/protocol/features.py: which commands the app sends to which lock.
pub mod Gates
use onesti_lock.Base.{
  ℕ, Bool, true, false, not, List, [], ◌∷◌, Option, none, some, ◌==◌, ◌&&◌, if◌then◌else◌, take,
}
use onesti_lock.Ble.Const.{FirmwareVersion, min_firmware_admin}
use onesti_lock.Ble.Const.CommandId.{CommandId}
use onesti_lock.Ble.Const.DeviceFeature.{
  DeviceFeature, available_always, available, unavailable, unavailable_version, unavailable_unknown,
}
use onesti_lock.Ble.Const.LockModelId.{LockModelId}
use onesti_lock.Ble.Const.ModelFeatures.{ModelFeatures, features}
use onesti_lock.Ble.Command.{CommandPayload, older_than}

-- _FIRMWARE_GATED
unfoldable pub is_firmware_gated : CommandId → Bool
is_firmware_gated CommandId.pin_code_set = true
is_firmware_gated CommandId.pin_code_clear = true
is_firmware_gated CommandId.auto_lock_set = true
is_firmware_gated CommandId.rfid_code_clear = true
is_firmware_gated CommandId.scan_rfid_code = true
is_firmware_gated CommandId.volume_set = true
is_firmware_gated CommandId.batt_info_get = true
is_firmware_gated CommandId.device_model_get = true
is_firmware_gated _ = false

-- `data[:2] == bytes(2)`
abbrev starts_with_slot_zero : List ℕ → Bool
starts_with_slot_zero (a ∷ b ∷ rest) = a == 0 && b == 0
starts_with_slot_zero _ = false

unfoldable pub is_master_pin : CommandId → List ℕ → Bool
is_master_pin CommandId.pin_code_set bytes = starts_with_slot_zero bytes
is_master_pin _ bytes = false

abbrev pub model_features : Option LockModelId → ModelFeatures
model_features none = features LockModelId.unknown
model_features (some m) = features m

unfoldable pub model_gated :
    Bool → Option LockModelId → (ModelFeatures → Bool) → DeviceFeature → DeviceFeature
unfolding features
model_gated admin_firmware model has below_firmware =
    if admin_firmware
    then (if has (model_features model) then available else unavailable)
    else below_firmware

abbrev pub is_admin : FirmwareVersion → Bool
is_admin firmware = not (older_than firmware min_firmware_admin)

-- What follows the tests for a fingerprint and a keypad command.
abbrev pub other_availability : CommandPayload → Bool → Option LockModelId → DeviceFeature
other_availability c admin_firmware model =
    if is_master_pin c.command_id c.bytes
    then model_gated admin_firmware model (λ f. f.master_pin) unavailable_version
    else if is_firmware_gated c.command_id
    then (if admin_firmware then available else unavailable_version)
    else available_always

abbrev pub by_command : CommandId → CommandPayload → Bool → Option LockModelId → DeviceFeature
by_command CommandId.fingerprint_scan c admin_firmware model =
    model_gated admin_firmware model (λ f. f.fingerprint) unavailable_unknown
by_command CommandId.fingerprint_clear c admin_firmware model =
    model_gated admin_firmware model (λ f. f.fingerprint) unavailable_unknown
by_command CommandId.keypad_enable_set c admin_firmware model =
    model_gated admin_firmware model (λ f. f.keypad_enable) unavailable_unknown
by_command _ c admin_firmware model = other_availability c admin_firmware model

unfoldable pub availability : CommandPayload → FirmwareVersion → Option LockModelId → DeviceFeature
unfolding is_firmware_gated is_master_pin model_gated
availability c firmware model = by_command c.command_id c (is_admin firmware) model
