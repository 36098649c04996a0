-- ===== src/Ble/Const/ResponseStatusId.antt =====
-- ble/protocol/const.py: the status byte of a response.
use onesti_lock.Base.{ℕ, ◌≡◌, refl, Option, some, List, [], ◌∷◌, find_member, find_member-value}

pub data ResponseStatusId : Type 0 where
  success failed not_available internal_error parameter_error length_error not_found_error
        no_match_error not_supported_error not_valid_error security_error :
      ResponseStatusId

unfoldable pub value : ResponseStatusId → ℕ
value success = 0
value failed = 1
value not_available = 2
value internal_error = 3
value parameter_error = 4
value length_error = 5
value not_found_error = 6
value no_match_error = 7
value not_supported_error = 8
value not_valid_error = 9
value security_error = 10

abbrev pub members : List ResponseStatusId
members =
    success ∷ failed ∷ not_available ∷ internal_error ∷ parameter_error ∷ length_error
    ∷ not_found_error ∷ no_match_error ∷ not_supported_error ∷ not_valid_error ∷ security_error ∷ []

-- `ResponseStatusId(value)`, with `none` for its ValueError.
unfoldable pub of_value : ℕ → Option ResponseStatusId
unfolding value
of_value = find_member value members

pub of_value-value : (e : ResponseStatusId) → of_value (value e) ≡ some e
unfolding of_value value
of_value-value success = refl
of_value-value _ = refl

pub value-of_value : (n : ℕ) (e : ResponseStatusId) → of_value n ≡ some e → value e ≡ n
unfolding of_value
value-of_value n e h = find_member-value value members n e h
