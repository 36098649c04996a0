-- ===== src/Ble/Const/EkeyOperationId.antt =====
-- ble/protocol/const.py: the argument of EkeyOperate.
use onesti_lock.Base.{ℕ, ◌≡◌, refl, Option, some, List, [], ◌∷◌, find_member, find_member-value}

pub data EkeyOperationId : Type 0 where
  unlock lock invalidate_token : EkeyOperationId

unfoldable pub value : EkeyOperationId → ℕ
value unlock = 1
value lock = 2
value invalidate_token = 3

abbrev pub members : List EkeyOperationId
members = unlock ∷ lock ∷ invalidate_token ∷ []

-- `EkeyOperationId(value)`, with `none` for its ValueError.
unfoldable pub of_value : ℕ → Option EkeyOperationId
unfolding value
of_value = find_member value members

pub of_value-value : (e : EkeyOperationId) → of_value (value e) ≡ some e
unfolding of_value value
of_value-value unlock = refl
of_value-value _ = refl

pub value-of_value : (n : ℕ) (e : EkeyOperationId) → of_value n ≡ some e → value e ≡ n
unfolding of_value
value-of_value n e h = find_member-value value members n e h
