-- ===== src/Ble/Const/CommandId.antt =====
-- ble/protocol/const.py: the Layer 2 command ids.
use onesti_lock.Base.{ℕ, ◌≡◌, refl, Option, some, List, [], ◌∷◌, find_member, find_member-value}

pub data CommandId : Type 0 where
  exchange_key_pub_m ekey_user_auth ekey_operate ekey_user_add ekey_user_remove ekey_users_list
        ekey_device_info_get ekey_device_info_set user_auth_begin user_auth_finalize
        user_auth_update device_id_set device_id_get device_name_set device_name_get
        current_time_get current_time_set server_key_update device_log_get pin_code_set
        pin_code_clear rfid_code_clear scan_rfid_code fingerprint_scan fingerprint_clear volume_set
        auto_lock_set keypad_enable_set batt_info_get device_model_get factory_reset_module :
      CommandId

unfoldable pub value : CommandId → ℕ
value exchange_key_pub_m = 0x01
value ekey_user_auth = 0x17
value ekey_operate = 0x18
value ekey_user_add = 0x1b
value ekey_user_remove = 0x1c
value ekey_users_list = 0x1d
value ekey_device_info_get = 0x1f
value ekey_device_info_set = 0x20
value user_auth_begin = 0x22
value user_auth_finalize = 0x23
value user_auth_update = 0x24
value device_id_set = 0x30
value device_id_get = 0x31
value device_name_set = 0x32
value device_name_get = 0x33
value current_time_get = 0x40
value current_time_set = 0x41
value server_key_update = 0x42
value device_log_get = 0x44
value pin_code_set = 0x52
value pin_code_clear = 0x53
value rfid_code_clear = 0x55
value scan_rfid_code = 0x56
value fingerprint_scan = 0x57
value fingerprint_clear = 0x58
value volume_set = 0x5a
value auto_lock_set = 0x5b
value keypad_enable_set = 0x5c
value batt_info_get = 0x5d
value device_model_get = 0x62
value factory_reset_module = 0x70

abbrev pub members : List CommandId
members =
    exchange_key_pub_m ∷ ekey_user_auth ∷ ekey_operate ∷ ekey_user_add ∷ ekey_user_remove
    ∷ ekey_users_list ∷ ekey_device_info_get ∷ ekey_device_info_set ∷ user_auth_begin
    ∷ user_auth_finalize ∷ user_auth_update ∷ device_id_set ∷ device_id_get ∷ device_name_set
    ∷ device_name_get ∷ current_time_get ∷ current_time_set ∷ server_key_update ∷ device_log_get
    ∷ pin_code_set ∷ pin_code_clear ∷ rfid_code_clear ∷ scan_rfid_code ∷ fingerprint_scan
    ∷ fingerprint_clear ∷ volume_set ∷ auto_lock_set ∷ keypad_enable_set ∷ batt_info_get
    ∷ device_model_get ∷ factory_reset_module ∷ []

-- `CommandId(value)`, with `none` for its ValueError.
unfoldable pub of_value : ℕ → Option CommandId
unfolding value
of_value = find_member value members

pub of_value-value : (e : CommandId) → of_value (value e) ≡ some e
unfolding of_value value
of_value-value exchange_key_pub_m = refl
of_value-value _ = refl

pub value-of_value : (n : ℕ) (e : CommandId) → of_value n ≡ some e → value e ≡ n
unfolding of_value
value-of_value n e h = find_member-value value members n e h
