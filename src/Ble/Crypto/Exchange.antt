-- ===== src/Ble/Crypto/Exchange.antt =====
-- Both ends of a key exchange derive the same link keys.
use mathlib.Core.List.{reverse}
use onesti_lock.Base.{
  length-take, length-reverse, ℕ, ◌^◌, ◌<◌, ok, List, ◌++◌, some, ◌≡◌, sym, ◌∙◌, arith, length,
  take, drop, length-append, length-drop, take_front, drop_front,
}
use onesti_lock.Ble.Streams.{from_bytes, to_bytes}
use onesti_lock.Ble.Streams.Numbers.{from_bytes-to_bytes, length-to_bytes}
use onesti_lock.Ble.Crypto.{
  Curve, LinkKeys, encode_public_key, key_pair, load_private_key, load_public_key,
  compute_shared_secret, from_shared_secret, derive_link_keys,
}

-- What is documented of the curve: keys are read back from their numbers, the numbers fit 32 bytes,
-- and the exchange is symmetric and gives 32 bytes.
pub record IsCurve (curve : Curve) : Type 0 where
  pub derive-scalar : (k : curve.PrivateKey) → curve.derive_private_key (curve.scalar k) ≡ some k
  pub at-coordinates : (p : curve.PublicKey) → curve.public_key_at (curve.x p) (curve.y p) ≡ some p
  pub scalar_bound : (k : curve.PrivateKey) → curve.scalar k < 2 ^ 256
  pub x_bound : (p : curve.PublicKey) → curve.x p < 2 ^ 256
  pub y_bound : (p : curve.PublicKey) → curve.y p < 2 ^ 256
  pub symmetric :
      (a b : curve.PrivateKey)
      → curve.exchange a (curve.public_key b) ≡ curve.exchange b (curve.public_key a)
  pub length-exchange :
      (a : curve.PrivateKey) (p : curve.PublicKey) → length (curve.exchange a p) ≡ 32

module _ (curve : Curve) where
  load_private_lem :
      (bytes : List ℕ) (n : ℕ) (k : curve.PrivateKey)
      → length bytes ≡ 32
      → from_bytes bytes ≡ n
      → curve.derive_private_key n ≡ some k
      → load_private_key curve bytes ≡ ok k
  unfolding load_private_key
  load_private_lem bytes n k size value derived = rw (size, value, derived)

  load_public_lem :
      (xs ys : List ℕ) (m n : ℕ) (p : curve.PublicKey)
      → length xs ≡ 32
      → length ys ≡ 32
      → from_bytes xs ≡ m
      → from_bytes ys ≡ n
      → curve.public_key_at m n ≡ some p
      → load_public_key curve (xs ++ ys) ≡ ok p
  unfolding load_public_key
  load_public_lem xs ys m n p hx hy vx vy found =
      let size : length (xs ++ ys) ≡ 64 = omega (arith, length-append xs ys) in
      rw (size, take_front 32 xs ys hx, drop_front 32 xs ys hx, vx, vy, found)

  secret_lem :
      (private_key public_key : List ℕ) (k : curve.PrivateKey) (p : curve.PublicKey)
      → load_private_key curve private_key ≡ ok k
      → load_public_key curve public_key ≡ ok p
      → compute_shared_secret curve private_key public_key ≡ ok (reverse (curve.exchange k p))
  unfolding compute_shared_secret
  secret_lem private_key public_key k p hk hp = rw (hk, hp)

module _ (curve : Curve) (law : IsCurve curve) where
  pub load_private_key-key_pair :
      (k : curve.PrivateKey) → load_private_key curve (key_pair curve k).private_key ≡ ok k
  unfolding key_pair
  load_private_key-key_pair k =
      load_private_lem curve (to_bytes 32 (curve.scalar k)) (curve.scalar k) k
        (length-to_bytes 32 (curve.scalar k))
        (from_bytes-to_bytes 32 (curve.scalar k) (law.scalar_bound k)) (law.derive-scalar k)

  pub load_public_key-encode :
      (p : curve.PublicKey) → load_public_key curve (encode_public_key curve p) ≡ ok p
  unfolding encode_public_key
  load_public_key-encode p =
      load_public_lem curve (to_bytes 32 (curve.x p)) (to_bytes 32 (curve.y p)) (curve.x p)
        (curve.y p) p (length-to_bytes 32 (curve.x p)) (length-to_bytes 32 (curve.y p))
        (from_bytes-to_bytes 32 (curve.x p) (law.x_bound p))
        (from_bytes-to_bytes 32 (curve.y p) (law.y_bound p)) (law.at-coordinates p)

  pub secret-key_pair :
      (a b : curve.PrivateKey)
      → compute_shared_secret curve (key_pair curve a).private_key (key_pair curve b).public_key
        ≡ ok (reverse (curve.exchange a (curve.public_key b)))
  unfolding key_pair
  secret-key_pair a b =
      secret_lem curve (key_pair curve a).private_key (encode_public_key curve (curve.public_key b))
        a (curve.public_key b) (load_private_key-key_pair a)
        (load_public_key-encode (curve.public_key b))

  split_secret :
      (s : List ℕ)
      → length s ≡ 32
      → (keys : LinkKeys) × (from_shared_secret s ≡ ok keys)
        × (length keys.key ≡ 16)
        × (length keys.iv ≡ 16)
  unfolding from_shared_secret
  split_secret s h = (
    record { key = take 16 s; iv = drop 16 s },
    rw h,
    omega (arith, length-take 16 s),
    omega (arith, length-drop 16 s),
  )

  -- From the key pairs a and b, each end's private key and the other's public key on the wire give
  -- the same link keys, a key and an IV of 16 bytes; the derivation never fails.
  pub derive_link_keys_agree :
      (a b : curve.PrivateKey)
      → (keys : LinkKeys) × (derive_link_keys curve
            (key_pair curve a).private_key
            (key_pair curve b).public_key
          ≡ ok keys)
        × (derive_link_keys curve (key_pair curve b).private_key (key_pair curve a).public_key
            ≡ ok keys)
        × (length keys.key ≡ 16)
        × (length keys.iv ≡ 16)
  unfolding derive_link_keys
  derive_link_keys_agree a b =
      let secret : List ℕ = reverse (curve.exchange a (curve.public_key b)) in
      let size : length secret ≡ 32 =
        length-reverse (curve.exchange a (curve.public_key b))
        ∙ law.length-exchange a (curve.public_key b) in
      let (keys, cuts, key_size, iv_size) = split_secret secret size in
      (
        keys,
        rw (secret-key_pair a b) cuts,
        rw (secret-key_pair b a, sym (law.symmetric a b)) cuts,
        key_size,
        iv_size,
      )
