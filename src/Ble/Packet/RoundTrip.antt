-- ===== src/Ble/Packet/RoundTrip.antt =====
-- A packet that fits its fields is parsed back from what it is written as.
use onesti_lock.Base.{
  ℕ, ◌≤◌, ◌<◌, ok, List, [], ◌∷◌, ◌++◌, ◌≡◌, arith, length, take-append, length-take,
  take-append-drop, drop, All, length-append,
}
use onesti_lock.Ble.Const.PacketTypeId
use onesti_lock.Ble.Streams.{IsByte}
use onesti_lock.Ble.Packet.{Packet, to_bytes, from_bytes}

-- What fits the one-byte fields.
pub record IsWire (p : Packet) : Type 0 where
  pub payload : length p.payload ≤ 255
  pub sequence_number : p.sequence_number < 256
  pub rfu : p.rfu < 256

-- The layout of a packet: [type][length][rfu][sequence][payload].
abbrev pub layout : Packet → List ℕ
layout p =
    PacketTypeId.value p.packet_type ∷ length p.payload ∷ p.rfu ∷ p.sequence_number ∷ p.payload

value-lt : (t : PacketTypeId.PacketTypeId) → PacketTypeId.value t < 256
unfolding PacketTypeId.value
value-lt t = ground arith

pub to_bytes-layout : (p : Packet) → IsWire p → to_bytes p ≡ ok (layout p)
unfolding to_bytes
to_bytes-layout p h = ground (arith, value-lt p.packet_type)

pub from_bytes-layout :
    (p : Packet) (extra : List ℕ) → IsWire p → from_bytes (layout p ++ extra) ≡ ok p
unfolding from_bytes
from_bytes-layout p extra h = ground (
  arith,
  PacketTypeId.of_value-value p.packet_type,
  take-append p.payload extra,
  length-append p.payload extra,
)

-- A parsed packet fits its fields, and what was parsed is its layout and the bytes behind it.
pub from_bytes_parses :
    (bytes : List ℕ) (p : Packet)
    → All IsByte bytes
    → from_bytes bytes ≡ ok p
    → (extra : List ℕ) × (bytes ≡ layout p ++ extra) × IsWire p
unfolding from_bytes
from_bytes_parses [] p h e = absurd (ground arith)
from_bytes_parses (a ∷ []) p h e = absurd (ground arith)
from_bytes_parses (a ∷ b ∷ []) p h e = absurd (ground arith)
from_bytes_parses (a ∷ b ∷ c ∷ []) p h e = absurd (ground arith)
from_bytes_parses (a ∷ b ∷ c ∷ d ∷ rest) p h e = (
  drop b rest,
  ground (
    arith,
    PacketTypeId.value-of_value a p.packet_type,
    take-append-drop b rest,
    length-take b rest,
  ),
  ground (
    arith,
    PacketTypeId.value-of_value a p.packet_type,
    take-append-drop b rest,
    length-take b rest,
  ),
)
