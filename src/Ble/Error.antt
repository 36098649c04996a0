-- ===== src/Ble/Error.antt =====
-- ble/errors.py: the exceptions of the library as values. Their messages are not modelled.
use onesti_lock.Base.{ℕ, Option, none, some}
use onesti_lock.Ble.Const.{FirmwareVersion}
use onesti_lock.Ble.Const.CommandId.{CommandId}
use onesti_lock.Ble.Const.DeviceFeature.{DeviceFeature}
use onesti_lock.Ble.Const.LockModelId.{LockModelId}
use onesti_lock.Ble.Const.ResponseStatusId.{ResponseStatusId}

-- The subclasses of BleOperationError, and the class itself for a status that no enum knows.
pub data OperationError : Type 0 where
  failed not_available internal parameter length not_found no_match not_supported not_valid
        security :
      OperationError
  unknown : ℕ → OperationError

pub data BleError : Type 0 where
  validation session_state protocol timeout disconnected : BleError
  firmware_too_old : FirmwareVersion → FirmwareVersion → BleError
  feature_unavailable : CommandId → DeviceFeature → FirmwareVersion → Option LockModelId → BleError
  operation : OperationError → BleError

-- STATUS_ERRORS: one class for each status but SUCCESS.
unfoldable pub status_class : ResponseStatusId → Option OperationError
status_class ResponseStatusId.success = none
status_class ResponseStatusId.failed = some failed
status_class ResponseStatusId.not_available = some not_available
status_class ResponseStatusId.internal_error = some internal
status_class ResponseStatusId.parameter_error = some parameter
status_class ResponseStatusId.length_error = some length
status_class ResponseStatusId.not_found_error = some not_found
status_class ResponseStatusId.no_match_error = some no_match
status_class ResponseStatusId.not_supported_error = some not_supported
status_class ResponseStatusId.not_valid_error = some not_valid
status_class ResponseStatusId.security_error = some security
