-- ===== src/Ble/Link.antt =====
-- The layers together: a command or a response that is written, encrypted with the link keys and
-- framed at one end is what the other end receives, decrypts and parses. `Aes128Cbc` of
-- ble/crypto.py is the `PayloadEncrypter` of ble/protocol/packet.py here.
pub mod Delivery
use onesti_lock.Base.{false, ok, List, Result}
use onesti_lock.Ble.Error.{BleError}
use onesti_lock.Ble.Crypto.{CbcLibrary, Aes128Cbc, LinkKeys, init, encrypt, decrypt}
use onesti_lock.Ble.Stream.{PayloadCipher}

-- `LinkKeys.cipher`
unfoldable pub cipher_of : LinkKeys → Result BleError Aes128Cbc
cipher_of keys = init keys.key keys.iv false

abbrev pub encrypter : CbcLibrary → Aes128Cbc → PayloadCipher
encrypter library c = record {
  encrypt = λ plaintext. ok (encrypt library c plaintext);
  decrypt = λ ciphertext. decrypt library c ciphertext;
}
