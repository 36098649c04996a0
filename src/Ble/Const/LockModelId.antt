-- ===== src/Ble/Const/LockModelId.antt =====
-- ble/protocol/const.py: the lock models.
use onesti_lock.Base.{ℕ, ◌≡◌, refl, Option, some, List, [], ◌∷◌, find_member, find_member-value}

pub data LockModelId : Type 0 where
  unknown easy_finger_touch easy_code_touch nimly_code nimly_touch nimly_pro nimly_indoor
        nimly_keybox nimly_twist nimly_code_2 nimly_touch_2 nimly_pro_24 nimly_indoor_2
        nimly_keybox_2 nimly_twist_2 :
      LockModelId

unfoldable pub value : LockModelId → ℕ
value unknown = 0
value easy_finger_touch = 8
value easy_code_touch = 9
value nimly_code = 21
value nimly_touch = 22
value nimly_pro = 23
value nimly_indoor = 24
value nimly_keybox = 26
value nimly_twist = 27
value nimly_code_2 = 31
value nimly_touch_2 = 32
value nimly_pro_24 = 33
value nimly_indoor_2 = 34
value nimly_keybox_2 = 36
value nimly_twist_2 = 37

abbrev pub members : List LockModelId
members =
    unknown ∷ easy_finger_touch ∷ easy_code_touch ∷ nimly_code ∷ nimly_touch ∷ nimly_pro
    ∷ nimly_indoor ∷ nimly_keybox ∷ nimly_twist ∷ nimly_code_2 ∷ nimly_touch_2 ∷ nimly_pro_24
    ∷ nimly_indoor_2 ∷ nimly_keybox_2 ∷ nimly_twist_2 ∷ []

-- `LockModelId(value)`, with `none` for its ValueError.
unfoldable pub of_value : ℕ → Option LockModelId
unfolding value
of_value = find_member value members

pub of_value-value : (e : LockModelId) → of_value (value e) ≡ some e
unfolding of_value value
of_value-value unknown = refl
of_value-value _ = refl

pub value-of_value : (n : ℕ) (e : LockModelId) → of_value n ≡ some e → value e ≡ n
unfolding of_value
value-of_value n e h = find_member-value value members n e h
