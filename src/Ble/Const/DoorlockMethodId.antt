-- ===== src/Ble/Const/DoorlockMethodId.antt =====
-- ble/protocol/const.py: how the bolt was moved.
use onesti_lock.Base.{ℕ, ◌≡◌, refl, Option, some, List, [], ◌∷◌, find_member, find_member-value}

pub data DoorlockMethodId : Type 0 where
  key button panel fingerprint rfid other : DoorlockMethodId

unfoldable pub value : DoorlockMethodId → ℕ
value key = 0
value button = 1
value panel = 2
value fingerprint = 3
value rfid = 4
value other = 5

abbrev pub members : List DoorlockMethodId
members = key ∷ button ∷ panel ∷ fingerprint ∷ rfid ∷ other ∷ []

-- `DoorlockMethodId(value)`, with `none` for its ValueError.
unfoldable pub of_value : ℕ → Option DoorlockMethodId
unfolding value
of_value = find_member value members

pub of_value-value : (e : DoorlockMethodId) → of_value (value e) ≡ some e
unfolding of_value value
of_value-value key = refl
of_value-value _ = refl

pub value-of_value : (n : ℕ) (e : DoorlockMethodId) → of_value n ≡ some e → value e ≡ n
unfolding of_value
value-of_value n e h = find_member-value value members n e h
