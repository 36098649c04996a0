-- ===== src/Ble/Stream.antt =====
-- ble/protocol/packet.py: `PacketStream`, the framing and reassembly of one connection.
pub mod Reassembly
pub mod Transfer
pub mod Invariant
use onesti_lock.Base.{
  ℕ, ◌+◌, Bool, true, false, Result, ok, err, Exec, ◌>>=◌, List, [], ◌∷◌, Option, none, some,
  bit_and, ◌==◌, if◌then◌else◌,
}
use onesti_lock.Ble.Error.{BleError, protocol}
use onesti_lock.Ble.Const.PacketTypeId.{
  PacketTypeId, single, single_encrypted, blob_start, blob_stream, blob_complete,
}
use onesti_lock.Ble.Blob
use onesti_lock.Ble.Blob.{BlobAssembler, is_encrypted}
use onesti_lock.Ble.Packet.{Packet, to_bytes, from_bytes}
use onesti_lock.Ble.Packetize.{packet_room, packetize}

-- What the stream needs of an encrypter.
pub record PayloadCipher : Type 0 where
  pub encrypt : List ℕ → Result BleError (List ℕ)
  pub decrypt : List ℕ → Result BleError (List ℕ)

-- What `receive` returns: a whole payload, an ACK, NAC or ERROR packet, or nothing yet.
pub data Received : Type 0 where
  whole : List ℕ → Bool → Received
  control : Packet → Received
  nothing : Received

pub record PacketStream : Type 0 where
  pub mtu : ℕ
  pub cipher : Option PayloadCipher
  pub blob : Option BlobAssembler
  pub last_sequence : ℕ

-- `PacketStream(mtu=mtu)` checks the MTU.
unfoldable pub init : ℕ → Result BleError PacketStream
unfolding packet_room
init mtu = do
  room ← packet_room mtu
  ok (record { mtu = mtu; cipher = none; blob = none; last_sequence = 0 })

abbrev pub reset : PacketStream → PacketStream
reset s = record s { blob = none; last_sequence = 0 }

unfoldable pub packets_to_bytes : List Packet → Result BleError (List (List ℕ))
packets_to_bytes [] = ok []
packets_to_bytes (p ∷ ps) = do bytes ← to_bytes p; rest ← packets_to_bytes ps; ok (bytes ∷ rest)

unfoldable pub frame_with : ℕ → Option PayloadCipher → List ℕ → Result BleError (List (List ℕ))
unfolding packets_to_bytes
frame_with mtu none payload = do packets ← packetize payload false mtu; packets_to_bytes packets
frame_with mtu (some cipher) payload = do
  payload' ← cipher.encrypt payload
  packets ← packetize payload' true mtu
  packets_to_bytes packets

abbrev pub frame : PacketStream → List ℕ → Result BleError (List (List ℕ))
frame s payload = frame_with s.mtu s.cipher payload

unfoldable pub deliver : Option PayloadCipher → List ℕ → Bool → Result BleError Received
deliver none bytes encrypted = ok (whole bytes encrypted)
deliver (some cipher) bytes encrypted = do plain ← cipher.decrypt bytes; ok (whole plain encrypted)

-- `_expect_no_blob`, then deliver: a Single packet.
receive_single : Bool → Packet → Exec PacketStream BleError Received
unfolding deliver
receive_single encrypted p s = elim s.blob [
  | none ↦ (deliver s.cipher p.payload encrypted, s)
  | some blob ↦ (err protocol, s)
]

abbrev store_started : Packet → Result BleError BlobAssembler → Exec PacketStream BleError Received
store_started p (err e) s = (err e, s)
store_started p (ok blob) s =
    (ok nothing, record s { blob = some blob; last_sequence = p.sequence_number })

-- `_expect_no_blob`, then a new assembler: a BlobStart packet.
receive_start : Packet → Exec PacketStream BleError Received
receive_start p s = elim s.blob [
  | none ↦ store_started p (Blob.start p.payload) s
  | some blob ↦ (err protocol, s)
]

-- `_next_in_blob`
next_in_blob : Packet → Exec PacketStream BleError BlobAssembler
next_in_blob p s = elim s.blob [
  | none ↦ (err protocol, s)
  | some blob ↦
      if p.sequence_number == bit_and (s.last_sequence + 1) 0xff
      then (ok blob, record s { last_sequence = p.sequence_number })
      else (err protocol, s)
]

abbrev store_added :
    Result BleError (Unit {0}) × BlobAssembler → Exec PacketStream BleError Received
store_added (err e, blob) s = (err e, record s { blob = some blob })
store_added (ok _, blob) s = (ok nothing, record s { blob = some blob })

abbrev add_to :
    Packet → Result BleError BlobAssembler × PacketStream → Result BleError Received × PacketStream
add_to p (err e, s) = (err e, s)
add_to p (ok blob, s) = store_added (Blob.add p.payload blob) s

abbrev deliver_completed :
    Result BleError (List ℕ) × BlobAssembler → Exec PacketStream BleError Received
deliver_completed (err e, blob) s = (err e, record s { blob = some blob })
deliver_completed (ok bytes, blob) s = (deliver s.cipher bytes (is_encrypted blob.header), reset s)

abbrev complete_with :
    Packet → Result BleError BlobAssembler × PacketStream → Result BleError Received × PacketStream
complete_with p (err e, s) = (err e, s)
complete_with p (ok blob, s) = deliver_completed (Blob.complete p.payload blob) s

-- `_receive`: the match on the packet type.
abbrev receive_type : PacketTypeId → Packet → Exec PacketStream BleError Received
receive_type single p s = receive_single false p s
receive_type single_encrypted p s = receive_single true p s
receive_type blob_start p s = receive_start p s
receive_type blob_stream p s = add_to p (next_in_blob p s)
receive_type blob_complete p s = complete_with p (next_in_blob p s)
receive_type _ p s = (ok (control p), s)

pub receive_packet : Packet → Exec PacketStream BleError Received
unfolding receive_single receive_start next_in_blob
receive_packet p s = receive_type p.packet_type p s

-- `except BleProtocolError: self.reset(); raise`
abbrev reset_on_error :
    Result BleError Received × PacketStream → Result BleError Received × PacketStream
reset_on_error (err protocol, s) = (err protocol, reset s)
reset_on_error (r, s) = (r, s)

abbrev parsed : Result BleError Packet → Exec PacketStream BleError Received
parsed (err e) s = (err e, s)
parsed (ok p) s = receive_packet p s

pub receive : List ℕ → Exec PacketStream BleError Received
unfolding receive_packet
receive bytes s = reset_on_error (parsed (from_bytes bytes) s)
