-- ===== src/Ble/Const/LockStateId.antt =====
-- ble/protocol/const.py: the bolt state in a LockStatus notification.
use onesti_lock.Base.{ℕ, ◌≡◌, refl, Option, some, List, [], ◌∷◌, find_member, find_member-value}

pub data LockStateId : Type 0 where
  locked unlocked : LockStateId

unfoldable pub value : LockStateId → ℕ
value locked = 1
value unlocked = 2

abbrev pub members : List LockStateId
members = locked ∷ unlocked ∷ []

-- `LockStateId(value)`, with `none` for its ValueError.
unfoldable pub of_value : ℕ → Option LockStateId
unfolding value
of_value = find_member value members

pub of_value-value : (e : LockStateId) → of_value (value e) ≡ some e
unfolding of_value value
of_value-value locked = refl
of_value-value _ = refl

pub value-of_value : (n : ℕ) (e : LockStateId) → of_value n ≡ some e → value e ≡ n
unfolding of_value
value-of_value n e h = find_member-value value members n e h
