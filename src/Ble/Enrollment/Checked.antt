-- ===== src/Ble/Enrollment/Checked.antt =====
-- The enrollment that is made once the lock has taken the new owner key passes its checks.
use mathlib.Core.List.{reverse}
use onesti_lock.Base.{
  ℕ, ok, >>=-eq_ok, List, ◌≡◌, arith, length, length-take, length-reverse, take, ◌==◌, ==_iff,
  Bool-cases, inl, inr,
}
use onesti_lock.Ble.Command.{CommandPayload}
use onesti_lock.Ble.Commands.{device_name_set}
use onesti_lock.Ble.Crypto.{
  Curve, KeyPair, load_private_key, load_public_key, compute_shared_secret, derive_owner_key,
  key_pair,
}
use onesti_lock.Ble.Crypto.Exchange.{IsCurve}
use onesti_lock.Ble.Enrollment.{check, check_device_id, key_pair_from_private_key}
use onesti_lock.Ble.Enrollment.Run.{Arguments, first_enrollment, check_arguments}

module _ (curve : Curve) where
  check_device_id-length : (id : List ℕ) → check_device_id id ≡ ok tt → length id ≡ 6
  unfolding check_device_id
  check_device_id-length id h = elim (Bool-cases (length id == 6)) [
    | inl e ↦ (==_iff _ _).0 e
    | inr e ↦ cc (rw e at h)
  ]

  load_public_key-length :
      (bytes : List ℕ) (p : curve.PublicKey)
      → load_public_key curve bytes ≡ ok p
      → length bytes ≡ 64
  unfolding load_public_key
  load_public_key-length bytes p h = elim (Bool-cases (length bytes == 64)) [
    | inl e ↦ (==_iff _ _).0 e
    | inr e ↦ cc (rw e at h)
  ]

  -- What a derived owner key says of the two keys it comes from.
  record IsDerived (private_key lock_key key : List ℕ) : Type 0 where
    private_loads : (k : curve.PrivateKey) × (load_private_key curve private_key ≡ ok k)
    lock_key_length : length lock_key ≡ 64
    key_length : length key ≡ 16

  derive_owner_key_ok :
      IsCurve curve
      → (private_key lock_key key : List ℕ) → derive_owner_key curve private_key lock_key ≡ ok key
      → IsDerived private_key lock_key key
  unfolding derive_owner_key compute_shared_secret
  derive_owner_key_ok law private_key lock_key key h =
      let (secret, hs, hk) = >>=-eq_ok (compute_shared_secret curve private_key lock_key) _ h in
      let (k, hp, rest) = >>=-eq_ok (load_private_key curve private_key) _ hs in
      let (p, hl, last) = >>=-eq_ok (load_public_key curve lock_key) _ rest in
      let cut : key ≡ take 16 (reverse (curve.exchange k p)) = cc in
      record {
        private_loads = (k, hp);
        lock_key_length = load_public_key-length lock_key p hl;
        key_length = rw cut (
            omega (
              arith,
              length-take 16 (reverse (curve.exchange k p)),
              length-reverse (curve.exchange k p),
              law.length-exchange k p,
            ));
      }

  -- The arguments that pass give an id, a server key and a name that pass again.
  record IsGiven (a : Arguments) : Type 0 where
    named : (c : CommandPayload) × (device_name_set a.name ≡ ok c)
    id_checked : check_device_id a.device_id ≡ ok tt
    server_loads : (p : KeyPair) × (key_pair_from_private_key curve a.server_private_key ≡ ok p)

  check_arguments_ok : (a : Arguments) → check_arguments curve a ≡ ok tt → IsGiven a
  unfolding check_arguments
  check_arguments_ok a h =
      let (c, hc, rest) = >>=-eq_ok (device_name_set a.name) _ h in
      let (u, hi, rest') = >>=-eq_ok (check_device_id a.device_id) _ rest in
      let (p, hp, last) =
        >>=-eq_ok (key_pair_from_private_key curve a.server_private_key) _ rest' in
      record { named = (c, hc); id_checked = hi; server_loads = (p, hp) }

  pair_loads :
      (private_key : List ℕ) (k : curve.PrivateKey)
      → load_private_key curve private_key ≡ ok k
      → key_pair_from_private_key curve private_key ≡ ok (key_pair curve k)
  unfolding key_pair_from_private_key
  pair_loads private_key k h = rw h

  -- An enrollment is made of every derived key: past this point nothing is lost to a check.
  pub first_enrollment-checked :
      IsCurve curve
      → (a : Arguments) (lock_key key : List ℕ) → check_arguments curve a ≡ ok tt
      → derive_owner_key curve a.update_key.private_key lock_key ≡ ok key
      → check curve (first_enrollment a lock_key key) ≡ ok tt
  unfolding check
  first_enrollment-checked law a lock_key key given derived =
      let g = check_arguments_ok a given in
      let d = derive_owner_key_ok law a.update_key.private_key lock_key key derived in
      let (k, loads) = d.private_loads in
      rw (
        g.id_checked,
        d.key_length,
        g.server_loads.1,
        g.named.1,
        d.lock_key_length,
        pair_loads a.update_key.private_key k loads,
        check_device_id-length a.device_id g.id_checked,
      )
