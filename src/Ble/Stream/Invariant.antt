-- ===== src/Ble/Stream/Invariant.antt =====
-- What `receive` keeps whatever arrives.
use onesti_lock.Base.{
  ℕ, ◌≤◌, Bool, false, Result, ok, err, List, Option, none, some, ◌≡◌, refl, arith, length,
  length-append,
}
use onesti_lock.Ble.Error.{BleError, protocol}
use onesti_lock.Ble.Const.PacketTypeId.{PacketTypeId}
use onesti_lock.Ble.Blob
use onesti_lock.Ble.Blob.{BlobAssembler, BlobHeader}
use onesti_lock.Ble.Packet.{Packet, from_bytes}
use onesti_lock.Ble.Stream.{
  PacketStream, Received, whole, add_to, complete_with, next_in_blob, receive, receive_packet,
  receive_type, reset_on_error, parsed,
}

-- A blob in progress is not complete and within its declared length; without one the sequence
-- number is reset.
abbrev pub BlobFits : Option BlobAssembler → ℕ → Type 0
BlobFits none last = last ≡ 0
BlobFits (some b) last = (b.is_complete ≡ false) × (length b.buffer ≤ b.header.length)

pub record IsClean (s : PacketStream) : Type 0 where
  pub blob : BlobFits s.blob s.last_sequence

start_fits :
    (payload : List ℕ) (b : BlobAssembler)
    → Blob.start payload ≡ ok b
    → (b.is_complete ≡ false) × (length b.buffer ≤ b.header.length)
unfolding Blob.start
start_fits payload b e = ground (arith)

module _ (p : Packet) (s : PacketStream) (h : IsClean s) where
  stream-IsClean :
      (o : Option BlobAssembler)
      → s.blob ≡ o
      → IsClean (reset_on_error (add_to p (next_in_blob p s))).1
  unfolding receive_packet Blob.add
  stream-IsClean none e = ground arith
  stream-IsClean (some b) e = ground (arith, length-append b.buffer p.payload)

  complete-IsClean :
      (o : Option BlobAssembler)
      → s.blob ≡ o
      → IsClean (reset_on_error (complete_with p (next_in_blob p s))).1
  unfolding receive_packet Blob.complete
  complete-IsClean none e = ground arith
  complete-IsClean (some b) e = ground (arith, length-append b.buffer p.payload)

  receive_type-IsClean : (t : PacketTypeId) → IsClean (reset_on_error (receive_type t p s)).1
  unfolding receive_packet
  receive_type-IsClean PacketTypeId.single = ground arith
  receive_type-IsClean PacketTypeId.single_encrypted = ground arith
  receive_type-IsClean PacketTypeId.blob_start = grind (arith, start_fits)
  receive_type-IsClean PacketTypeId.blob_stream = stream-IsClean s.blob refl
  receive_type-IsClean PacketTypeId.blob_complete = complete-IsClean s.blob refl
  receive_type-IsClean _ = h

pub receive_packet-IsClean :
    (p : Packet) (s : PacketStream) → IsClean s → IsClean (reset_on_error (receive_packet p s)).1
unfolding receive_packet
receive_packet-IsClean p s h = receive_type-IsClean p s h p.packet_type

-- Whatever arrives, a clean stream stays clean: a blob in progress never exceeds its declared
-- length, and without one the sequence number is reset.
pub receive-IsClean : (bytes : List ℕ) (s : PacketStream) → IsClean s → IsClean (receive bytes s).1
unfolding receive receive_packet
receive-IsClean bytes s h = go (from_bytes bytes)
  where
    go : (r : Result BleError Packet) → IsClean (reset_on_error (parsed r s)).1
    go (ok p) = receive_packet-IsClean p s h
    go (err e) = ground arith

receive_type_link :
    (t : PacketTypeId) (p : Packet) (s : PacketStream)
    → ((receive_type t p s).1.mtu ≡ s.mtu) × ((receive_type t p s).1.cipher ≡ s.cipher)
unfolding receive_packet
receive_type_link PacketTypeId.single p s = ground arith
receive_type_link _ p s = ground arith

module _ (s : PacketStream) where
  reset_on_error_link :
      (r : Result BleError Received) (t : PacketStream)
      → t.mtu ≡ s.mtu
      → t.cipher ≡ s.cipher
      → ((reset_on_error (r, t)).1.mtu ≡ s.mtu)
        × ((reset_on_error (r, t)).1.cipher ≡ s.cipher)
        × ((reset_on_error (r, t)).0 ≡ err protocol → (reset_on_error (r, t)).1.blob ≡ none)
  reset_on_error_link (ok x) t m c = (m, c, λ e. cc)
  reset_on_error_link (err protocol) t m c = (m, c, λ e. refl)
  reset_on_error_link (err _) t m c = (m, c, λ e. cc)

-- The MTU and the cipher stay, and where a notification raises BleProtocolError no blob is left in
-- progress.
pub receive_resets :
    (bytes : List ℕ) (s : PacketStream)
    → ((receive bytes s).1.mtu ≡ s.mtu)
      × ((receive bytes s).1.cipher ≡ s.cipher)
      × ((receive bytes s).0 ≡ err protocol → (receive bytes s).1.blob ≡ none)
unfolding receive receive_packet
receive_resets bytes s = go (from_bytes bytes)
  where
    go :
        (r : Result BleError Packet)
        → ((reset_on_error (parsed r s)).1.mtu ≡ s.mtu)
          × ((reset_on_error (parsed r s)).1.cipher ≡ s.cipher)
          × ((reset_on_error (parsed r s)).0 ≡ err protocol
              → (reset_on_error (parsed r s)).1.blob ≡ none)
    go (err e) = reset_on_error_link s (err e) s refl refl
    go (ok p) =
        let (m, c) = receive_type_link p.packet_type p s in
        reset_on_error_link s (receive_packet p s).0 (receive_packet p s).1 m c

module _ (s : PacketStream) (b : BlobAssembler) (bytes : List ℕ) (encrypted : Bool) where
  complete_exact :
      (p : Packet) (t : PacketTypeId)
      → s.blob ≡ some b
      → s.cipher ≡ none
      → (receive_type t p s).0 ≡ ok (whole bytes encrypted)
      → (length bytes ≡ b.header.length) × (encrypted ≡ Blob.is_encrypted b.header)
  unfolding receive_packet Blob.complete Blob.add
  complete_exact p PacketTypeId.single i c e = ground arith
  complete_exact p PacketTypeId.single_encrypted i c e = ground arith
  complete_exact p PacketTypeId.blob_start i c e = ground arith
  complete_exact p _ i c e = ground arith

  reset_on_error_ok :
      (r : Result BleError Received) (t : PacketStream) {x : Received}
      → (reset_on_error (r, t)).0 ≡ ok x
      → r ≡ ok x
  reset_on_error_ok (ok y) t e = e
  reset_on_error_ok (err protocol) t e = cc
  reset_on_error_ok (err _) t e = cc

  -- What a stream without a cipher delivers at the end of a blob has exactly the length that the
  -- blob's header declared, and carries the encryption flag of that header.
  pub receive_exact :
      (frame : List ℕ)
      → s.blob ≡ some b
      → s.cipher ≡ none
      → (receive frame s).0 ≡ ok (whole bytes encrypted)
      → (length bytes ≡ b.header.length) × (encrypted ≡ Blob.is_encrypted b.header)
  unfolding receive receive_packet
  receive_exact frame i c = go (from_bytes frame)
    where
      go :
          (r : Result BleError Packet)
          → (reset_on_error (parsed r s)).0 ≡ ok (whole bytes encrypted)
          → (length bytes ≡ b.header.length) × (encrypted ≡ Blob.is_encrypted b.header)
      go (err e) h = cc (reset_on_error_ok (err e) s h)
      go (ok p) h =
          complete_exact p p.packet_type i c
            (reset_on_error_ok (receive_packet p s).0 (receive_packet p s).1 h)
