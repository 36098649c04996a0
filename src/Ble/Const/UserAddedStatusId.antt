-- ===== src/Ble/Const/UserAddedStatusId.antt =====
-- ble/protocol/const.py: what a UserAdded notification reports.
use onesti_lock.Base.{ℕ, ◌≡◌, refl, Option, some, List, [], ◌∷◌, find_member, find_member-value}

pub data UserAddedStatusId : Type 0 where
  not_added pin_code rfid_code fingerprint slot_occupied : UserAddedStatusId

unfoldable pub value : UserAddedStatusId → ℕ
value not_added = 0
value pin_code = 1
value rfid_code = 2
value fingerprint = 3
value slot_occupied = 4

abbrev pub members : List UserAddedStatusId
members = not_added ∷ pin_code ∷ rfid_code ∷ fingerprint ∷ slot_occupied ∷ []

-- `UserAddedStatusId(value)`, with `none` for its ValueError.
unfoldable pub of_value : ℕ → Option UserAddedStatusId
unfolding value
of_value = find_member value members

pub of_value-value : (e : UserAddedStatusId) → of_value (value e) ≡ some e
unfolding of_value value
of_value-value not_added = refl
of_value-value _ = refl

pub value-of_value : (n : ℕ) (e : UserAddedStatusId) → of_value n ≡ some e → value e ≡ n
unfolding of_value
value-of_value n e h = find_member-value value members n e h
