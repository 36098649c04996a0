-- ===== src/Integration/ZhaDevices.antt =====
-- zha.py: which locks ZHA knows. ZHA's devices are an answer of its gateway, `none` where there is
-- no gateway; a device says whether a Door Lock cluster is found below it.
use onesti_lock.Base.{ℕ, Bool, true, false, List, [], ◌∷◌, Option, none, some, ◌&&◌, if◌then◌else◌}
use onesti_lock.Integration.Services.{lower, same_text}

-- A device of ZHA under the text of its address, as `str(ieee)` gives it.
pub record ZhaDevice : Type 0 where
  pub ieee : List ℕ
  pub manufacturer : List ℕ
  pub model : List ℕ
  pub has_door_lock_cluster : Bool

abbrev pub Gateway : Type 0
Gateway = Option (List ZhaDevice)

-- MANUFACTURER: "Onesti Products AS".
abbrev pub manufacturer : List ℕ
manufacturer =
    79 ∷ 110 ∷ 101 ∷ 115 ∷ 116 ∷ 105 ∷ 32 ∷ 80 ∷ 114 ∷ 111 ∷ 100 ∷ 117 ∷ 99 ∷ 116 ∷ 115 ∷ 32 ∷ 65
    ∷ 83 ∷ []

abbrev pub is_zha_loaded : Gateway → Bool
is_zha_loaded none = false
is_zha_loaded (some devices) = true

-- `iter_device_proxies`
abbrev pub device_proxies : Gateway → List ZhaDevice
device_proxies none = []
device_proxies (some devices) = devices

pub record OnestiLock : Type 0 where
  pub ieee : List ℕ
  pub model : List ℕ

unfoldable pub onesti_locks : List ZhaDevice → List OnestiLock
unfolding same_text
onesti_locks [] = []
onesti_locks (d ∷ devices) =
    let rest = onesti_locks devices in
    if same_text d.manufacturer manufacturer && d.has_door_lock_cluster
    then record { ieee = d.ieee; model = d.model } ∷ rest
    else rest

abbrev pub iter_onesti_locks : Gateway → List OnestiLock
iter_onesti_locks g = onesti_locks (device_proxies g)

unfoldable pub model_of : List ℕ → List ZhaDevice → List ℕ
unfolding same_text
model_of ieee [] = []
model_of ieee (d ∷ devices) =
    let rest = model_of ieee devices in
    if same_text (lower d.ieee) (lower ieee) then d.model else rest

-- `model_in_zha`
abbrev pub model_in_zha : List ℕ → Gateway → List ℕ
model_in_zha ieee g = model_of ieee (device_proxies g)

unfoldable pub has_device : List ℕ → List ZhaDevice → Bool
unfolding same_text
has_device ieee [] = false
has_device ieee (d ∷ devices) =
    let rest = has_device ieee devices in
    if same_text (lower d.ieee) (lower ieee) then true else rest

-- `_lock_in_zha`
abbrev pub lock_in_zha : List ℕ → Gateway → Bool
lock_in_zha ieee g = has_device ieee (device_proxies g)
