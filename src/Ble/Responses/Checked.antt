-- ===== src/Ble/Responses/Checked.antt =====
-- Every answer to a command is checked before its payload is read.
use native.Mathlib.Decide.{ℕ_discrete}
use onesti_lock.Base.{
  ℕ, ◌≤◌, true, ok, err, List, ◌∷◌, ◌≡◌, ◌≢◌, arith, length, take, ◌⊎◌, inl, inr, length-take,
}
use onesti_lock.Ble.Error.{OperationError, operation, protocol}
use onesti_lock.Ble.Const.LockModelId
use onesti_lock.Ble.Const.LockModelId.{LockModelId}
use onesti_lock.Ble.Const.ResponseId
use onesti_lock.Ble.Const.ResponseId.{ResponseId}
use onesti_lock.Ble.Response.{Response, id_number, status_number, raise_for_status}
use onesti_lock.Ble.Response.Status.{raise_for_status_cases}
use onesti_lock.Ble.Streams.{reader}
use onesti_lock.Ble.Responses.{reader_of, parse_fixed, parse_device_model, model_or_unknown}

-- A checked answer that reaches its reader has the expected id and status 0, and the reader starts
-- at the front of the payload.
pub reader_of_ok :
    (r : Response) (expected : ResponseId)
    → id_number r ≡ ResponseId.value expected
    → status_number r ≡ 0
    → reader_of r expected true ≡ ok (reader r.payload)
unfolding reader_of raise_for_status
reader_of_ok r expected i s = ground arith

-- The checks in their order: a wrong id is a protocol error; with the right id a failed status is
-- a BleOperationError; only then is the payload read.
pub reader_of_cases :
    (r : Response) (expected : ResponseId)
    → (id_number r ≢ ResponseId.value expected) × (reader_of r expected true ≡ err protocol)
      ⊎ (status_number r ≢ 0)
        × ((c : OperationError) × (reader_of r expected true ≡ err (operation c)))
      ⊎ (id_number r ≡ ResponseId.value expected)
        × (status_number r ≡ 0)
        × (reader_of r expected true ≡ ok (reader r.payload))
unfolding reader_of
reader_of_cases r expected = elim (ℕ_discrete (id_number r) (ResponseId.value expected)) [
  | no other ↦ inl (other, ground arith)
  | yes same ↦ elim (raise_for_status_cases r) [
    | inl (zero_status, passes) ↦ inr (inr (same, zero_status, ground (arith, passes)))
    | inr (bad, (c, raises)) ↦ inr (inl (bad, (c, ground (arith, raises))))
  ]
]

-- An answer of one field of `len` bytes parses exactly when it is the expected response with
-- status 0 and has that many bytes; what is returned is the front of its payload.
pub parse_fixed_ok :
    (expected : ResponseId) (len : ℕ) (r : Response)
    → id_number r ≡ ResponseId.value expected
    → status_number r ≡ 0
    → len ≤ length r.payload
    → parse_fixed expected len r ≡ ok (take len r.payload)
unfolding parse_fixed
parse_fixed_ok expected len r i s h = ground (arith, reader_of_ok r expected i s)

-- What an answer of one field returns has exactly the length of the field, and comes from a
-- response with the expected id and status 0.
pub parse_fixed_exact :
    (expected : ResponseId) (len : ℕ) (r : Response) (bytes : List ℕ)
    → parse_fixed expected len r ≡ ok bytes
    → (length bytes ≡ len)
      × (bytes ≡ take len r.payload)
      × (id_number r ≡ ResponseId.value expected)
      × (status_number r ≡ 0)
unfolding parse_fixed
parse_fixed_exact expected len r bytes e = elim (reader_of_cases r expected) [
  | inl (other, raises) ↦ absurd (ground (arith, raises))
  | inr checked ↦ elim checked [
    | inl (bad, (c, raises)) ↦ absurd (ground (arith, raises))
    | inr (same, zero_status, passes) ↦ ground (arith, passes, length-take len r.payload)
  ]
]

-- A model byte that no LockModelId has reads as UNKNOWN, and the byte is kept.
pub parse_device_model_total :
    (r : Response) (b : ℕ) (rest : List ℕ)
    → id_number r ≡ ResponseId.value ResponseId.device_model_get
    → status_number r ≡ 0
    → r.payload ≡ b ∷ rest
    → parse_device_model r
      ≡ ok (record { model = model_or_unknown (LockModelId.of_value b); raw_byte = b })
unfolding parse_device_model
parse_device_model_total r b rest i s p =
    ground (arith, reader_of_ok r ResponseId.device_model_get i s)
