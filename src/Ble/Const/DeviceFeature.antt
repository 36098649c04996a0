-- ===== src/Ble/Const/DeviceFeature.antt =====
-- ble/protocol/const.py: whether the app offers an operation on a lock.
use onesti_lock.Base.{Bool, true, false}

pub data DeviceFeature : Type 0 where
  available_always available unavailable unavailable_version unavailable_unknown : DeviceFeature

unfoldable pub is_available : DeviceFeature → Bool
is_available available_always = true
is_available available = true
is_available _ = false
