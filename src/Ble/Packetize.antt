-- ===== src/Ble/Packetize.antt =====
-- ble/protocol/packet.py: `packetize` cuts one payload into the packets that carry it.
pub mod Cut
pub mod Shape
use onesti_lock.Base.{
  ℕ, zero, suc, ◌+◌, ◌-◌, min, Bool, Result, ok, err, ◌>>=◌, List, [], ◌∷◌, ◌++◌, bit_and, ltb, leb,
  ◌==◌, if◌then◌else◌, length, take, drop,
}
use onesti_lock.Ble.Error.{BleError, validation}
use onesti_lock.Ble.Const.{
  att_overhead, packet_header_size, packet_payload_max, blob_header_size, first_sequence_number,
}
use onesti_lock.Ble.Const.PacketTypeId.{
  PacketTypeId, single, single_encrypted, blob_start, blob_stream, blob_complete,
}
use onesti_lock.Ble.Blob.{blob_length_max, for_payload, header_bytes}
use onesti_lock.Ble.Packet.{Packet}

-- 3 + 4 + 4 + 1
abbrev pub mtu_min : ℕ
mtu_min = 12

unfoldable pub packet_room : ℕ → Result BleError ℕ
packet_room mtu =
    if ltb mtu mtu_min
    then err validation
    else ok (min (mtu - att_overhead - packet_header_size) packet_payload_max)

abbrev pub packet : PacketTypeId → ℕ → List ℕ → Packet
packet type sequence payload = record {
  packet_type = type;
  sequence_number = sequence;
  payload = payload;
  rfu = 0;
}

-- The `while` loop, with `position` of `payload` sent. A round sends at least one byte, so as many
-- rounds as bytes are left are enough.
unfoldable pub later_chunks : ℕ → List ℕ → ℕ → ℕ → ℕ → List Packet
later_chunks zero payload room position sequence = []
later_chunks (suc fuel) payload room position sequence =
    let sequence' = bit_and (sequence + 1) 0xff in
    let chunk = take room (drop position payload) in
    let position' = position + length chunk in
    let type = if position' == length payload then blob_complete else blob_stream in
    let rest = later_chunks fuel payload room position' sequence' in
    if ltb position (length payload) then packet type sequence' chunk ∷ rest else []

unfoldable pub packetize : List ℕ → Bool → ℕ → Result BleError (List Packet)
unfolding packet_room
packetize [] encrypted mtu = err validation
packetize (byte ∷ bytes) encrypted mtu =
    let payload = byte ∷ bytes in
    do
      room ← packet_room mtu
      if leb (length payload + packet_header_size) room
          then ok (
              packet (if encrypted then single_encrypted else single) first_sequence_number payload
              ∷ [])
          else if ltb blob_length_max (length payload)
          then err validation
          else do
            let first = room - blob_header_size
            header ← header_bytes (for_payload (length payload) encrypted)
            ok (
                packet blob_start first_sequence_number (header ++ take first payload)
                ∷ later_chunks (length payload) payload room first first_sequence_number)
