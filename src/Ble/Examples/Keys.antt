-- ===== src/Ble/Examples/Keys.antt =====
-- Examples of the ciphers and the key exchange.
use onesti_lock.Base.{true, false, ok, ◌≡◌, length}
use onesti_lock.Ble.Crypto.{LinkKeys, derive_link_keys, key_pair}
use onesti_lock.Ble.Crypto.Exchange.{derive_link_keys_agree}
use onesti_lock.Ble.Examples.Setup.{two_keys, two_keys-IsCurve}

derive_link_keys_agree_example :
    (keys : LinkKeys) × (derive_link_keys two_keys
        (key_pair two_keys true).private_key
        (key_pair two_keys false).public_key
      ≡ ok keys)
    × (derive_link_keys two_keys
          (key_pair two_keys false).private_key
          (key_pair two_keys true).public_key
        ≡ ok keys)
    × (length keys.key ≡ 16)
    × (length keys.iv ≡ 16)
derive_link_keys_agree_example = derive_link_keys_agree two_keys two_keys-IsCurve true false
