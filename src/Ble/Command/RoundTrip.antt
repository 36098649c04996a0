-- ===== src/Ble/Command/RoundTrip.antt =====
-- A command that fits its fields is parsed back, whatever padding follows it.
use onesti_lock.Base.{
  ℕ, ◌≤◌, ◌<◌, ok, List, ◌∷◌, ◌++◌, ◌≡◌, arith, length, take-append, length-append,
}
use onesti_lock.Ble.Const.CommandId
use onesti_lock.Ble.Command.{Command, to_bytes, from_bytes}

-- What the writer accepts, and a byte that no caller sets.
pub record IsSendable (c : Command) : Type 0 where
  pub payload : length c.payload ≤ 255
  pub ref_low : 1 ≤ c.command_ref
  pub ref_high : c.command_ref ≤ 254
  pub rfu : c.rfu < 256

-- [id][length][ref][rfu][payload]
abbrev pub layout : Command → List ℕ
layout c = CommandId.value c.command_id ∷ length c.payload ∷ c.command_ref ∷ c.rfu ∷ c.payload

value-lt : (i : CommandId.CommandId) → CommandId.value i < 256
unfolding CommandId.value
value-lt CommandId.exchange_key_pub_m = omega arith
value-lt _ = omega arith

pub to_bytes-layout : (c : Command) → IsSendable c → to_bytes c ≡ ok (layout c)
unfolding to_bytes
to_bytes-layout c h = ground (arith, value-lt c.command_id)

pub from_bytes-layout :
    (c : Command) (extra : List ℕ) → IsSendable c → from_bytes (layout c ++ extra) ≡ ok c
unfolding from_bytes
from_bytes-layout c extra h = ground (
  arith,
  CommandId.of_value-value c.command_id,
  take-append c.payload extra,
  length-append c.payload extra,
)

-- A command with a payload of at most 255 bytes and a ref of 1 to 254 is written, and what is
-- written parses back as the command, with any bytes behind it.
pub command_round_trip :
    (c : Command) (extra : List ℕ)
    → IsSendable c
    → (bytes : List ℕ) × (to_bytes c ≡ ok bytes) × (from_bytes (bytes ++ extra) ≡ ok c)
command_round_trip c extra h = (layout c, to_bytes-layout c h, from_bytes-layout c extra h)

-- The writer refuses a ref outside 1 to 254 and a payload over 255 bytes.
pub to_bytes_refuses :
    (c : Command) (bytes : List ℕ)
    → to_bytes c ≡ ok bytes
    → (1 ≤ c.command_ref) × (c.command_ref ≤ 254) × (length c.payload ≤ 255)
unfolding to_bytes
to_bytes_refuses c bytes e = ground arith
