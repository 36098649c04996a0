-- ===== src/Ble/Response/Status.antt =====
-- The id that a command expects, and the exception that a status becomes.
use onesti_lock.Base.{
  ℕ, Bool, true, false, ok, err, Option, none, some, ◌≡◌, ◌≢◌, refl, ap, ◌∙◌, sym, arith, ◌==◌, ◌⊎◌,
  inl, inr, Option-cases, Bool-cases, ==_iff,
}
use onesti_lock.Ble.Error.{
  OperationError, failed, not_available, internal, parameter, not_found, no_match, not_supported,
  not_valid, security, operation, unknown, status_class,
}
use onesti_lock.Ble.Const.CommandId
use onesti_lock.Ble.Const.CommandId.{CommandId}
use onesti_lock.Ble.Const.ResponseId
use onesti_lock.Ble.Const.ResponseId.{ResponseId}
use onesti_lock.Ble.Const.ResponseStatusId
use onesti_lock.Ble.Const.ResponseStatusId.{ResponseStatusId}
use onesti_lock.Ble.Response.{
  Response, expected_response_id, class_error, error_for_status, raise_for_status, status_number,
}

has_expected : CommandId → Bool
has_expected c = elim (expected_response_id c) [ none ↦ false | some r ↦ true ]

has_expected_all : (c : CommandId) → has_expected c ≡ true
unfolding has_expected expected_response_id
has_expected_all CommandId.exchange_key_pub_m = refl
has_expected_all _ = refl

-- Every command has an expected response id, and it is the member with the command's own value.
pub expected_response_id_total :
    (c : CommandId)
    → (r : ResponseId) × (expected_response_id c ≡ some r)
      × (ResponseId.value r ≡ CommandId.value c)
unfolding expected_response_id
expected_response_id_total c = elim (Option-cases (expected_response_id c)) [
  | inl missing ↦ absurd (unfold has_expected in ground (arith, missing, has_expected_all c))
  | inr (r, found) ↦ (r, found, ResponseId.value-of_value (CommandId.value c) r found)
]

CommandId-eq_of_value : (c d : CommandId) → CommandId.value c ≡ CommandId.value d → c ≡ d
CommandId-eq_of_value c d e =
    cc (CommandId.of_value-value c, CommandId.of_value-value d, ap CommandId.of_value e)

-- Two commands never expect the same response.
pub expected_response_id-injective :
    (c d : CommandId) → expected_response_id c ≡ expected_response_id d → c ≡ d
expected_response_id-injective c d e =
    let (r, found, same) = expected_response_id_total c in
    let (q, found', same') = expected_response_id_total d in
    let together : r ≡ q = cc (found, found', e) in
    CommandId-eq_of_value c d (sym same ∙ ap ResponseId.value together ∙ same')

class_of_known :
    (s : ResponseStatusId)
    → s ≢ ResponseStatusId.success
    → (c : OperationError) × (status_class s ≡ some c)
unfolding status_class
class_of_known ResponseStatusId.success h = absurd (h refl)
class_of_known ResponseStatusId.failed h = (failed, refl)
class_of_known ResponseStatusId.not_available h = (not_available, refl)
class_of_known ResponseStatusId.internal_error h = (internal, refl)
class_of_known ResponseStatusId.parameter_error h = (parameter, refl)
class_of_known ResponseStatusId.length_error h = (OperationError.length, refl)
class_of_known ResponseStatusId.not_found_error h = (not_found, refl)
class_of_known ResponseStatusId.no_match_error h = (no_match, refl)
class_of_known ResponseStatusId.not_supported_error h = (not_supported, refl)
class_of_known ResponseStatusId.not_valid_error h = (not_valid, refl)
class_of_known ResponseStatusId.security_error h = (security, refl)

raised_class :
    (n : ℕ) (o : Option ResponseStatusId)
    → n ≢ 0
    → ResponseStatusId.of_value n ≡ o
    → (c : OperationError) × (class_error n o ≡ operation c)
raised_class n none h e = (unknown n, refl)
raised_class n (some s) h e =
    let other : s ≢ ResponseStatusId.success = (λ p. h (
      sym (ResponseStatusId.value-of_value n s e)
      ∙ ap ResponseStatusId.value p
      ∙ unfold ResponseStatusId.value in refl)) in
    let (c, found) = class_of_known s other in (c, rw (found, class_error))

-- A response passes exactly when its status is 0; any other status, known or not, raises a
-- BleOperationError, and the lookup of its class never fails.
pub raise_for_status_cases :
    (r : Response)
    → (status_number r ≡ 0) × (raise_for_status r ≡ ok tt)
      ⊎ (status_number r ≢ 0) × ((c : OperationError) × (raise_for_status r ≡ err (operation c)))
unfolding raise_for_status
raise_for_status_cases r = elim (Bool-cases (status_number r == 0)) [
  | inl passed ↦ inl ((==_iff (status_number r) 0).0 passed, rw passed)
  | inr bad ↦ inr (go bad)
]
  where
    go :
        (status_number r == 0) ≡ false
        → (status_number r ≢ 0) × ((c : OperationError) × (raise_for_status r ≡ err (operation c)))
    go no_pass =
        let bad : status_number r ≢ 0 = ground arith in
        let (c, e) =
          raised_class (status_number r) (ResponseStatusId.of_value (status_number r)) bad refl in
        (bad, (c, rw no_pass (unfold error_for_status in rw (no_pass, e))))
