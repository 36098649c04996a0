-- ===== src/Ble/Const/ModelFeatures.antt =====
-- ble/protocol/const.py: what the app lets a model do.
use onesti_lock.Base.{Bool, true, false}
use onesti_lock.Ble.Const.LockModelId.{
  LockModelId, easy_finger_touch, nimly_pro, nimly_code_2, nimly_touch_2, nimly_pro_24,
  nimly_indoor_2, nimly_keybox_2, nimly_twist_2,
}

pub record ModelFeatures : Type 0 where
  pub fingerprint : Bool
  pub keypad_enable : Bool
  pub master_pin : Bool

abbrev model : Bool → Bool → Bool → ModelFeatures
model fingerprint keypad_enable master_pin = record {
  fingerprint = fingerprint;
  keypad_enable = keypad_enable;
  master_pin = master_pin;
}

-- `LockModelId.features`
unfoldable pub features : LockModelId → ModelFeatures
features easy_finger_touch = model true false false
features nimly_pro = model true false false
features nimly_code_2 = model false true true
features nimly_touch_2 = model false true true
features nimly_pro_24 = model true true true
features nimly_indoor_2 = model false true true
features nimly_keybox_2 = model false true true
features nimly_twist_2 = model false true true
features _ = model false false false
