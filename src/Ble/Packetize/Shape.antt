-- ===== src/Ble/Packetize/Shape.antt =====
-- What `packetize` returns, in one equation, and that every packet fits its fields.
use onesti_lock.Base.{
  ℕ, zero, suc, ◌+◌, ◌-◌, ◌%◌, ◌≤◌, ◌<◌, min, Bool, true, false, ok, List, [], ◌∷◌, ◌++◌, ◌≡◌,
  arith, if◌then◌else◌, length, take, drop, All, length-take,
}
use onesti_lock.Ble.Const.PacketTypeId.{blob_start, single, single_encrypted}
use onesti_lock.Ble.Blob.{for_payload}
use onesti_lock.Ble.Blob.Header.{FitsHeader, header_layout, header_bytes-layout}
use onesti_lock.Ble.Packet.{Packet}
use onesti_lock.Ble.Packet.RoundTrip.{IsWire}
use onesti_lock.Ble.Packetize.{packet, packetize}
use onesti_lock.Ble.Packetize.Cut.{cut, later_chunks-cut}

abbrev pub room_of : ℕ → ℕ
room_of mtu = min (mtu - 7) 255

abbrev pub single_packet : List ℕ → Bool → Packet
single_packet payload encrypted = packet (if encrypted then single_encrypted else single) 1 payload

abbrev pub first_packet : List ℕ → Bool → ℕ → Packet
first_packet payload encrypted room =
    packet blob_start 1
      (header_layout (for_payload (length payload) encrypted) ++ take (room - 4) payload)

abbrev pub blob_packets : List ℕ → Bool → ℕ → List Packet
blob_packets payload encrypted room =
    first_packet payload encrypted room ∷ cut (length payload) (drop (room - 4) payload) room 1

pub FitsHeader-for_payload :
    (n : ℕ) (encrypted : Bool) → n < 65536 → FitsHeader (for_payload n encrypted)
FitsHeader-for_payload n true h = omega arith
FitsHeader-for_payload n false h = omega arith

module _ (payload : List ℕ) (encrypted : Bool) (mtu : ℕ) (some_byte : 0 < length payload)
    (enough : 12 ≤ mtu) where
  pub packetize_single :
      length payload + 4 ≤ room_of mtu
      → packetize payload encrypted mtu ≡ ok (single_packet payload encrypted ∷ [])
  unfolding packetize
  packetize_single h = ground arith

  pub packetize_blob :
      room_of mtu < length payload + 4
      → length payload < 65536
      → packetize payload encrypted mtu ≡ ok (blob_packets payload encrypted (room_of mtu))
  unfolding packetize
  packetize_blob h small = rw (← later_chunks-cut) (
      ground (
        arith,
        header_bytes-layout (for_payload (length payload) encrypted)
            (FitsHeader-for_payload _ encrypted small),
      ))

pub cut-IsWire :
    (fuel : ℕ) (rest : List ℕ) (room sequence : ℕ)
    → room ≤ 255
    → All IsWire (cut fuel rest room sequence)
unfolding cut
cut-IsWire zero rest room sequence h = tt
cut-IsWire (suc fuel) [] room sequence h = tt
cut-IsWire (suc fuel) (b ∷ bs) room sequence h = ground (
  arith,
  length-take room (b ∷ bs),
  cut-IsWire fuel (drop room (b ∷ bs)) room ((sequence + 1) % 256) h,
)

pub blob_packets-IsWire :
    (payload : List ℕ) (encrypted : Bool) (room : ℕ)
    → 4 ≤ room
    → room ≤ 255
    → All IsWire (blob_packets payload encrypted room)
blob_packets-IsWire payload encrypted room lo hi = (
  omega (arith, length-take (room - 4) payload),
  cut-IsWire (length payload) (drop (room - 4) payload) room 1 hi,
)
