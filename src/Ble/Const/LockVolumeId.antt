-- ===== src/Ble/Const/LockVolumeId.antt =====
-- ble/protocol/const.py: the argument of VolumeSet.
use onesti_lock.Base.{ℕ, ◌≡◌, refl, Option, some, List, [], ◌∷◌, find_member, find_member-value}

pub data LockVolumeId : Type 0 where
  off low normal : LockVolumeId

unfoldable pub value : LockVolumeId → ℕ
value off = 0
value low = 1
value normal = 2

abbrev pub members : List LockVolumeId
members = off ∷ low ∷ normal ∷ []

-- `LockVolumeId(value)`, with `none` for its ValueError.
unfoldable pub of_value : ℕ → Option LockVolumeId
unfolding value
of_value = find_member value members

pub of_value-value : (e : LockVolumeId) → of_value (value e) ≡ some e
unfolding of_value value
of_value-value off = refl
of_value-value _ = refl

pub value-of_value : (n : ℕ) (e : LockVolumeId) → of_value n ≡ some e → value e ≡ n
unfolding of_value
value-of_value n e h = find_member-value value members n e h
