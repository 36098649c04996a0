-- ===== src/Ble/Crypto.antt =====
-- ble/crypto.py: the key exchange and the cipher of the link. The curve and the block cipher are of
-- the `cryptography` package, and are parameters.
pub mod Padding
pub mod Sealing
pub mod Exchange
use mathlib.Core.List.{reverse}
use onesti_lock.Base.{
  ℕ, zero, suc, ◌+◌, ◌-◌, ◌*◌, ◌/◌, ◌%◌, bit_xor, Bool, true, false, Result, ok, err, ◌>>=◌, ◌>>◌,
  guard, List, [], ◌++◌, map, Option, none, some, ◌==◌, if◌then◌else◌, length, take, drop,
  replicate,
}
use onesti_lock.Ble.Error.{BleError, validation, protocol}
use onesti_lock.Ble.Const.{challenge_length, public_key_length}
use onesti_lock.Ble.Streams.{from_bytes, to_bytes}

abbrev pub aes_block_size : ℕ
aes_block_size = 16

abbrev pub aes_key_length : ℕ
aes_key_length = 16

abbrev pub private_key_length : ℕ
private_key_length = 32

abbrev pub shared_secret_length : ℕ
shared_secret_length = 32

abbrev pub coordinate_length : ℕ
coordinate_length = 32

unfoldable pub bit_invert : List ℕ → List ℕ
bit_invert = map (λ b. bit_xor b 0xff)

-- `-len(data) % 16` zero bytes, at least 0 of them.
unfoldable pub zero_pad : List ℕ → List ℕ
zero_pad bytes =
    bytes ++ replicate ((aes_block_size - length bytes % aes_block_size) % aes_block_size) 0

-- One run of AES-128-CBC over whole blocks: key, IV, data.
pub record CbcLibrary : Type 0 where
  pub encrypt : List ℕ → List ℕ → List ℕ → List ℕ
  pub decrypt : List ℕ → List ℕ → List ℕ → List ℕ

-- The cipher object of the package: Cipher(AES(key), CBC(iv)).
pub record Aes128Cbc : Type 0 where
  pub key : List ℕ
  pub iv : List ℕ
  pub iv_reset : Bool

unfoldable pub init : List ℕ → List ℕ → Bool → Result BleError Aes128Cbc
init key iv iv_reset = do
  guard (length key == aes_key_length) validation
  guard (length iv == aes_block_size) validation
  ok (record { key = key; iv = iv; iv_reset = iv_reset })

-- The join over `range(0, len(data), 16)`, one round for each block.
unfoldable pub each_block : (List ℕ → List ℕ) → ℕ → List ℕ → List ℕ
each_block cbc zero bytes = []
each_block cbc (suc n) bytes =
    cbc (take aes_block_size bytes) ++ each_block cbc n (drop aes_block_size bytes)

unfoldable pub run : Bool → (List ℕ → List ℕ) → List ℕ → List ℕ
unfolding each_block
run iv_reset cbc bytes =
    if iv_reset then each_block cbc ((length bytes + 15) / aes_block_size) bytes else cbc bytes

module _ (library : CbcLibrary) where
  unfoldable pub encrypt : Aes128Cbc → List ℕ → List ℕ
  unfolding zero_pad run
  encrypt c plaintext = run c.iv_reset (library.encrypt c.key c.iv) (zero_pad plaintext)

  unfoldable pub decrypt : Aes128Cbc → List ℕ → Result BleError (List ℕ)
  unfolding run
  decrypt c ciphertext =
      if length ciphertext % aes_block_size == 0
      then ok (run c.iv_reset (library.decrypt c.key c.iv) ciphertext)
      else err protocol

  unfoldable pub answer_owner_challenge : List ℕ → List ℕ → List ℕ → Result BleError (List ℕ)
  unfolding init bit_invert encrypt decrypt
  answer_owner_challenge challenge owner_key link_iv = do
    guard (length challenge == challenge_length) protocol
    cipher ← init owner_key link_iv false
    plain ← decrypt cipher challenge
    ok (encrypt cipher (bit_invert plain))

-- The curve: a private key from its scalar and a public one from its coordinates, `none` for
-- ValueError, and the ECDH secret.
pub record Curve : Type 1 where
  pub PrivateKey : Type 0
  pub PublicKey : Type 0
  pub derive_private_key : ℕ → Option PrivateKey
  pub public_key_at : ℕ → ℕ → Option PublicKey
  pub scalar : PrivateKey → ℕ
  pub public_key : PrivateKey → PublicKey
  pub x : PublicKey → ℕ
  pub y : PublicKey → ℕ
  pub exchange : PrivateKey → PublicKey → List ℕ

pub record KeyPair : Type 0 where
  pub private_key : List ℕ
  pub public_key : List ℕ

pub record LinkKeys : Type 0 where
  pub key : List ℕ
  pub iv : List ℕ

abbrev pub required_or {ℓ} : {A : Type ℓ} → BleError → Option A → Result BleError A
required_or e none = err e
required_or e (some a) = ok a

-- `LinkKeys.from_shared_secret`
unfoldable pub from_shared_secret : List ℕ → Result BleError LinkKeys
from_shared_secret secret = do
  guard (length secret == shared_secret_length) validation
  ok (record { key = take aes_key_length secret; iv = drop aes_key_length secret })

module _ (curve : Curve) where
  open curve use {
    PrivateKey, PublicKey, derive_private_key, public_key_at, scalar, public_key, x, y, exchange,
  }

  unfoldable pub encode_public_key : PublicKey → List ℕ
  encode_public_key k = to_bytes coordinate_length (x k) ++ to_bytes coordinate_length (y k)

  unfoldable pub key_pair : PrivateKey → KeyPair
  unfolding encode_public_key
  key_pair k = record {
    private_key = to_bytes private_key_length (scalar k);
    public_key = encode_public_key (public_key k);
  }

  unfoldable pub load_private_key : List ℕ → Result BleError PrivateKey
  load_private_key private_key = do
    guard (length private_key == private_key_length) validation
    required_or validation (derive_private_key (from_bytes private_key))

  unfoldable pub load_public_key : List ℕ → Result BleError PublicKey
  load_public_key bytes = do
    guard (length bytes == public_key_length) protocol
    required_or protocol (
        public_key_at (from_bytes (take coordinate_length bytes))
          (from_bytes (drop coordinate_length bytes)))

  unfoldable pub compute_shared_secret : List ℕ → List ℕ → Result BleError (List ℕ)
  unfolding load_private_key load_public_key
  compute_shared_secret private_key peer_public_key = do
    private ← load_private_key private_key
    peer ← load_public_key peer_public_key
    ok (reverse (exchange private peer))

  unfoldable pub derive_link_keys : List ℕ → List ℕ → Result BleError LinkKeys
  unfolding compute_shared_secret from_shared_secret
  derive_link_keys private_key lock_public_key = do
    secret ← compute_shared_secret private_key lock_public_key
    from_shared_secret secret

  unfoldable pub derive_owner_key : List ℕ → List ℕ → Result BleError (List ℕ)
  unfolding compute_shared_secret
  derive_owner_key private_key lock_public_key = do
    secret ← compute_shared_secret private_key lock_public_key
    ok (take aes_key_length secret)
