-- ===== src/Ble/Response/RoundTrip.antt =====
-- A response is parsed back from what it is written as.
use onesti_lock.Base.{
  ℕ, ◌≤◌, ◌<◌, ok, List, ◌∷◌, ◌++◌, Option, none, some, ◌≡◌, arith, length, take-append,
  length-append,
}
use onesti_lock.Ble.Const.ResponseId
use onesti_lock.Ble.Const.ResponseId.{ResponseId}
use onesti_lock.Ble.Const.ResponseStatusId
use onesti_lock.Ble.Const.ResponseStatusId.{ResponseStatusId}
use onesti_lock.Ble.Response.{
  Known, known, raw, number, known_or_raw, Response, id_number, status_number, to_bytes, from_bytes,
}

-- A number stands only where no member has it, as the parser leaves it.
abbrev pub IsCanonical : {E : Type 0} → (ℕ → Option E) → Known E → Type 0
IsCanonical of_value (known e) = Unit
IsCanonical of_value (raw n) = of_value n ≡ none

pub record IsWire (r : Response) : Type 0 where
  pub payload : length r.payload ≤ 255
  pub id : id_number r < 256
  pub ref : r.command_ref < 256
  pub status : status_number r < 256

-- [id][length][ref][status][payload]
abbrev pub layout : Response → List ℕ
layout r = id_number r ∷ length r.payload ∷ r.command_ref ∷ status_number r ∷ r.payload

module _ {E : Type 0} (value : E → ℕ) (of_value : ℕ → Option E)
    (inverse : (e : E) → of_value (value e) ≡ some e) where
  known_or_raw-number :
      (k : Known E)
      → IsCanonical of_value k
      → known_or_raw (of_value (number value k)) (number value k) ≡ k
  known_or_raw-number (known e) h = rw (inverse e)
  known_or_raw-number (raw n) h = rw h

pub from_bytes-layout :
    (r : Response) (extra : List ℕ)
    → length r.payload ≤ 255
    → IsCanonical ResponseId.of_value r.response_id
    → IsCanonical ResponseStatusId.of_value r.status
    → from_bytes (layout r ++ extra) ≡ ok r
unfolding from_bytes
from_bytes-layout r extra h i s = ground (
  arith,
  known_or_raw-number ResponseId.value ResponseId.of_value ResponseId.of_value-value r.response_id
      i,
  known_or_raw-number ResponseStatusId.value ResponseStatusId.of_value
      ResponseStatusId.of_value-value r.status s,
  take-append r.payload extra,
  length-append r.payload extra,
)

pub to_bytes-layout : (r : Response) → IsWire r → to_bytes r ≡ ok (layout r)
unfolding to_bytes
to_bytes-layout r h = ground arith

-- A response whose fields fit their bytes is written, and what is written parses back as the
-- response whatever zero padding or other bytes follow it.
pub response_round_trip :
    (r : Response) (extra : List ℕ)
    → IsWire r
    → IsCanonical ResponseId.of_value r.response_id
    → IsCanonical ResponseStatusId.of_value r.status
    → (bytes : List ℕ) × (to_bytes r ≡ ok bytes) × (from_bytes (bytes ++ extra) ≡ ok r)
response_round_trip r extra h i s =
    (layout r, to_bytes-layout r h, from_bytes-layout r extra h.payload i s)
