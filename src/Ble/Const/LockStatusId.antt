-- ===== src/Ble/Const/LockStatusId.antt =====
-- ble/protocol/const.py: the result of a fingerprint or RFID scan.
use onesti_lock.Base.{ℕ, ◌≡◌, refl, Option, some, List, [], ◌∷◌, find_member, find_member-value}

pub data LockStatusId : Type 0 where
  ok error unknown_command crc_error invalid_data no_space_left no_match : LockStatusId

unfoldable pub value : LockStatusId → ℕ
value ok = 0
value error = 1
value unknown_command = 2
value crc_error = 3
value invalid_data = 4
value no_space_left = 5
value no_match = 6

abbrev pub members : List LockStatusId
members = ok ∷ error ∷ unknown_command ∷ crc_error ∷ invalid_data ∷ no_space_left ∷ no_match ∷ []

-- `LockStatusId(value)`, with `none` for its ValueError.
unfoldable pub of_value : ℕ → Option LockStatusId
unfolding value
of_value = find_member value members

pub of_value-value : (e : LockStatusId) → of_value (value e) ≡ some e
unfolding of_value value
of_value-value ok = refl
of_value-value _ = refl

pub value-of_value : (n : ℕ) (e : LockStatusId) → of_value n ≡ some e → value e ≡ n
unfolding of_value
value-of_value n e h = find_member-value value members n e h
