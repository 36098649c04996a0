-- ===== src/Ble/Stream/Transfer.antt =====
-- A payload that is framed by one stream and received by another arrives whole.
use native.Mathlib.Decide.{dec_le}
use onesti_lock.Base.{
  ℕ, ◌+◌, ◌-◌, ◌≤◌, ◌<◌, min, Bool, true, false, ok, List, [], ◌∷◌, ◌++◌, Option, none, some, map,
  ◌≡◌, refl, ap, ◌∙◌, arith, length, take, drop, All, length-take, length-drop, take-append-drop,
}
use onesti_lock.Ble.Const.PacketTypeId.{blob_start}
use onesti_lock.Ble.Blob.{BlobHeader, for_payload}
use onesti_lock.Ble.Blob.Header.{FitsHeader, header_layout, start-layout, is_encrypted-for_payload}
use onesti_lock.Ble.Packet.{Packet}
use onesti_lock.Ble.Packet.RoundTrip.{IsWire, layout, to_bytes-layout}
use onesti_lock.Ble.Packetize.{packet, packetize}
use onesti_lock.Ble.Packetize.Shape.{
  room_of, single_packet, blob_packets, FitsHeader-for_payload, packetize_single, packetize_blob,
  blob_packets-IsWire,
}
use onesti_lock.Ble.Stream.{
  PayloadCipher, PacketStream, nothing, whole, receive, receive_packet, reset_on_error, deliver,
  packets_to_bytes, frame_with,
}
use onesti_lock.Ble.Stream.Reassembly.{
  receive_until, receive_until_quiet, receive_until_last, receive_until-cut, receiving,
  receive-layout, reset_on_error-reset,
}

-- A stream with no blob in progress, as a new one is.
abbrev pub idle : ℕ → Option PayloadCipher → PacketStream
idle mtu cipher = record { mtu = mtu; cipher = cipher; blob = none; last_sequence = 0 }

packets_to_bytes-layout :
    (ps : List Packet) → All IsWire ps → packets_to_bytes ps ≡ ok (map layout ps)
unfolding packets_to_bytes
packets_to_bytes-layout [] h = refl
packets_to_bytes-layout (p ∷ ps) h = rw (to_bytes-layout p h.0, packets_to_bytes-layout ps h.1)

receive_packet_single :
    (mtu : ℕ) (cipher : Option PayloadCipher) (payload : List ℕ) (encrypted : Bool)
    → receive_packet (single_packet payload encrypted) (idle mtu cipher)
      ≡ (deliver cipher payload encrypted, idle mtu cipher)
unfolding receive_packet
receive_packet_single mtu cipher payload true = refl
receive_packet_single mtu cipher payload false = refl

module _ (mtu : ℕ) (cipher : Option PayloadCipher) where
  receive_single_packet :
      (payload : List ℕ) (encrypted : Bool)
      → length payload ≤ 255
      → receive_until (map layout (single_packet payload encrypted ∷ [])) (idle mtu cipher)
        ≡ (deliver cipher payload encrypted, idle mtu cipher, [])
  receive_single_packet payload encrypted h = receive_until_last _ _ (
      receive-layout (single_packet payload encrypted) (idle mtu cipher) (omega arith)
      ∙ ap reset_on_error (receive_packet_single mtu cipher payload encrypted)
      ∙ reset_on_error-reset (deliver cipher payload encrypted) (idle mtu cipher))

  receive_blob_start :
      (header : BlobHeader) (chunk : List ℕ)
      → FitsHeader header
      → length chunk ≤ header.length
      → length chunk ≤ 251
      → receive (layout (packet blob_start 1 (header_layout header ++ chunk))) (idle mtu cipher)
        ≡ (ok nothing, receiving mtu cipher header chunk 1)
  unfolding receive_packet
  receive_blob_start header chunk fits room short =
      receive-layout (packet blob_start 1 (header_layout header ++ chunk)) (idle mtu cipher)
        (omega arith)
      ∙ rw (start-layout header chunk fits room)

  receive_blob_packets :
      (payload : List ℕ) (encrypted : Bool) (room : ℕ)
      → 4 < room
      → room ≤ 255
      → room < length payload + 4
      → length payload < 65536
      → receive_until (map layout (blob_packets payload encrypted room)) (idle mtu cipher)
        ≡ (deliver cipher payload encrypted, idle mtu cipher, [])
  receive_blob_packets payload encrypted room lo hi long small =
      receive_until_quiet _ _ _ (
        receive_blob_start header first (FitsHeader-for_payload _ encrypted small)
          (omega (arith, taken)) (omega (arith, taken)))
      ∙ receive_until-cut mtu cipher header (length payload) rest room first 1 (omega arith) hi
          (omega (arith, dropped)) (omega (arith, dropped)) (omega (arith, taken, dropped))
      ∙ rw
          (take-append-drop (room - 4) payload, is_encrypted-for_payload (length payload) encrypted)
    where
      header : BlobHeader
      header = for_payload (length payload) encrypted

      first : List ℕ
      first = take (room - 4) payload

      rest : List ℕ
      rest = drop (room - 4) payload

      taken : length (take (room - 4) payload) ≡ min (room - 4) (length payload)
      taken = length-take (room - 4) payload

      dropped : length (drop (room - 4) payload) ≡ length payload - (room - 4)
      dropped = length-drop (room - 4) payload

-- What `packetize` cuts, written and received, is the payload.
pub transfer_packets :
    (mtu mtu' : ℕ) (cipher' : Option PayloadCipher) (payload : List ℕ) (encrypted : Bool)
    → 12 ≤ mtu
    → 0 < length payload
    → length payload < 65536
    → (ps : List Packet) × (packetize payload encrypted mtu ≡ ok ps)
      × (packets_to_bytes ps ≡ ok (map layout ps))
      × (receive_until (map layout ps) (idle mtu' cipher')
          ≡ (deliver cipher' payload encrypted, idle mtu' cipher', []))
transfer_packets mtu mtu' cipher' payload encrypted enough some_byte small =
    elim (dec_le (length payload + 4) (room_of mtu)) [
      | yes fits ↦ (
        single_packet payload encrypted ∷ [],
        packetize_single payload encrypted mtu some_byte enough fits,
        packets_to_bytes-layout (single_packet payload encrypted ∷ []) (omega arith),
        receive_single_packet mtu' cipher' payload encrypted (omega arith),
      )
      | no long ↦ (
        blob_packets payload encrypted (room_of mtu),
        packetize_blob payload encrypted mtu some_byte enough (omega arith) small,
        packets_to_bytes-layout _
            (blob_packets-IsWire payload encrypted (room_of mtu) (omega arith) (omega arith)),
        receive_blob_packets mtu' cipher' payload encrypted (room_of mtu) (omega arith)
            (omega arith) (omega arith) small,
      )
    ]

-- A payload of 1 to 65535 bytes that a stream without a cipher frames for an MTU of at least 12 is
-- framed without an error, and any idle stream without a cipher, whatever its MTU, that receives the
-- frames in order reports nothing until the last of them, delivers exactly that payload there, as one
-- that was not encrypted, and is idle again.
pub receive_until-frame :
    (mtu mtu' : ℕ) (payload : List ℕ)
    → 12 ≤ mtu
    → 0 < length payload
    → length payload < 65536
    → (frames : List (List ℕ)) × (frame_with mtu none payload ≡ ok frames)
      × (receive_until frames (idle mtu' none) ≡ (ok (whole payload false), idle mtu' none, []))
unfolding frame_with deliver
receive_until-frame mtu mtu' payload enough some_byte small =
    let (ps, cuts, written, arrives) =
      transfer_packets mtu mtu' none payload false enough some_byte small in
    (map layout ps, rw (cuts, written), arrives)

-- The same with a cipher at each end: what arrives is the decryption of the encrypted payload.
pub receive_until-frame_sealed :
    (mtu mtu' : ℕ) (sender receiver : PayloadCipher) (payload sealed plain : List ℕ)
    → sender.encrypt payload ≡ ok sealed
    → receiver.decrypt sealed ≡ ok plain
    → 12 ≤ mtu
    → 0 < length sealed
    → length sealed < 65536
    → (frames : List (List ℕ)) × (frame_with mtu (some sender) payload ≡ ok frames)
      × (receive_until frames (idle mtu' (some receiver))
          ≡ (ok (whole plain true), idle mtu' (some receiver), []))
unfolding frame_with deliver
receive_until-frame_sealed mtu mtu' sender receiver payload sealed plain seal unseal enough
      some_byte small =
    let (ps, cuts, written, arrives) =
      transfer_packets mtu mtu' (some receiver) sealed true enough some_byte small in
    (map layout ps, rw (seal, cuts, written), arrives ∙ rw unseal)
