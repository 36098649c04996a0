-- ===== src/Ble/Packet.antt =====
-- ble/protocol/packet.py: packets, and the stream that frames and reassembles payloads.
pub mod RoundTrip
use onesti_lock.Base.{
  ℕ, ◌+◌, pos, Result, ok, err, ◌>>=◌, List, ◌∷◌, ◌++◌, Option, none, some, ltb, if◌then◌else◌,
  length,
}
use onesti_lock.Ble.Error.{BleError, validation, protocol}
use onesti_lock.Ble.Const.{packet_header_size, packet_payload_max}
use onesti_lock.Ble.Const.PacketTypeId
use onesti_lock.Ble.Const.PacketTypeId.{PacketTypeId}
use onesti_lock.Ble.Streams.{
  reader, remaining, read_uint8, read_bytes, writer, write_uint, write_uint8, write_bytes, written,
}

pub record Packet : Type 0 where
  pub packet_type : PacketTypeId
  pub sequence_number : ℕ
  pub payload : List ℕ
  pub rfu : ℕ

unfoldable pub to_bytes : Packet → Result BleError (List ℕ)
unfolding write_uint
to_bytes p =
    if ltb packet_payload_max (length p.payload)
    then err validation
    else written (
        ok writer
        >>= write_uint8 (pos (PacketTypeId.value p.packet_type))
        >>= write_uint8 (pos (length p.payload))
        >>= write_uint8 (pos p.rfu)
        >>= write_uint8 (pos p.sequence_number)
        >>= write_bytes p.payload)

-- The member, or what the parser raises for a value that is none.
abbrev pub required {ℓ} : {E : Type ℓ} → Option E → Result BleError E
required none = err protocol
required (some e) = ok e

unfoldable pub from_bytes : List ℕ → Result BleError Packet
unfolding read_uint8 read_bytes
from_bytes bytes = if ltb (remaining (reader bytes)) packet_header_size then err protocol else do
  (raw_type, r1) ← read_uint8 (reader bytes)
  packet_type ← required (PacketTypeId.of_value raw_type)
  (len, r2) ← read_uint8 r1
  (rfu, r3) ← read_uint8 r2
  (sequence_number, r4) ← read_uint8 r3
  (payload, r5) ← read_bytes (pos len) r4
  ok (record {
    packet_type = packet_type;
    sequence_number = sequence_number;
    payload = payload;
    rfu = rfu;
  })
