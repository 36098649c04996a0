-- ===== src/Ble/Advertisement.antt =====
-- ble/protocol/advertisement.py: the lock's service data. SHA-1 is of `hashlib`, and a parameter.
pub mod Recognised
use mathlib.Core.List.{reverse}
use onesti_lock.Base.{
  ℕ, ◌+◌, pos, Bool, true, false, not, Result, ok, err, ◌>>=◌, ◌>>◌, guard, List, [], ◌∷◌, ◌++◌,
  Option, none, some, ltb, ◌==◌, ◌&&◌, if◌then◌else◌, length, take,
}
use onesti_lock.Ble.Error.{BleError, validation, protocol}
use onesti_lock.Ble.Const.{device_id_length, device_id_seed_length}
use onesti_lock.Ble.Streams.{reader, read_bytes}

pub record Advertisement : Type 0 where
  pub seed : List ℕ
  pub identifier : List ℕ

unfoldable pub same_bytes : List ℕ → List ℕ → Bool
same_bytes [] [] = true
same_bytes (x ∷ xs) (y ∷ ys) = let rest = same_bytes xs ys in x == y && rest
same_bytes _ _ = false

-- DEFAULT_DEVICE_ID_SEED
abbrev pub default_device_id_seed : List ℕ
default_device_id_seed = 0 ∷ 0 ∷ []

unfoldable pub enrolled : Advertisement → Bool
unfolding same_bytes
enrolled a = not (same_bytes a.seed default_device_id_seed)

unfoldable pub factory_id : Advertisement → Option (List ℕ)
unfolding enrolled
factory_id a = if enrolled a then none else some (reverse a.identifier)

unfoldable pub matches : (List ℕ → List ℕ) → List ℕ → Advertisement → Result BleError Bool
unfolding enrolled same_bytes
matches sha1 device_id a = do
  guard (length device_id == device_id_length) validation
  ok (
      if enrolled a
      then same_bytes (take device_id_length (sha1 (a.seed ++ device_id))) a.identifier
      else false)

unfoldable pub parse_advertisement : List ℕ → Result BleError Advertisement
unfolding read_bytes
parse_advertisement service_data =
    if ltb (length service_data) (device_id_seed_length + device_id_length)
    then err protocol
    else do
      (seed, r) ← read_bytes (pos device_id_seed_length) (reader service_data)
      (identifier, r') ← read_bytes (pos device_id_length) r
      ok (record { seed = seed; identifier = identifier })
