-- ===== src/Ble/Stream/Reassembly.antt =====
-- Packets of one payload, received in order, give the payload back: the steps of the receiver.
use mathlib.Core.List.{append-nil, append_assoc}
use native.Mathlib.Decide.{dec_lt}
use onesti_lock.Base.{
  ℕ, zero, suc, ◌+◌, ◌-◌, ◌%◌, ◌≤◌, ◌<◌, min, false, Result, ok, err, List, [], ◌∷◌, ◌++◌, Option,
  some, map, ◌≡◌, refl, ap, ◌∙◌, arith, length, take, drop, length-append, length-take, length-drop,
  take-append-drop,
}
use onesti_lock.Base.Bits.{bit_and_byte}
use onesti_lock.Ble.Error.{BleError, protocol}
use onesti_lock.Ble.Const.PacketTypeId.{blob_stream, blob_complete}
use onesti_lock.Ble.Blob
use onesti_lock.Ble.Blob.{BlobHeader, is_encrypted}
use onesti_lock.Ble.Packet.{Packet, from_bytes}
use onesti_lock.Ble.Packet.RoundTrip.{IsWire, layout, from_bytes-layout}
use onesti_lock.Ble.Packetize.{packet}
use onesti_lock.Ble.Packetize.Cut.{cut, cut_last, cut_more}
use onesti_lock.Ble.Stream.{
  PayloadCipher, PacketStream, Received, nothing, whole, control, receive, receive_packet,
  reset_on_error, deliver, reset, parsed,
}

-- The receiver takes frames until one of them reports something or raises; the frames that are
-- left come back with the outcome.
abbrev pub Outcome : Type 0
Outcome = Result BleError Received × PacketStream × List (List ℕ)

abbrev pub report : Result BleError Received → PacketStream → List (List ℕ) → Outcome → Outcome
report (ok nothing) s frames later = later
report r s frames later = (r, s, frames)

unfoldable pub receive_until : List (List ℕ) → PacketStream → Outcome
receive_until [] s = (ok nothing, s, [])
receive_until (f ∷ fs) s =
    let (r, s') = receive f s in let later = receive_until fs s' in report r s' fs later

pub receive_until_quiet :
    (f : List ℕ) (s : PacketStream) {s' : PacketStream} (fs : List (List ℕ))
    → receive f s ≡ (ok nothing, s')
    → receive_until (f ∷ fs) s ≡ receive_until fs s'
unfolding receive_until
receive_until_quiet f s fs e = rw e

report_last :
    (r : Result BleError Received) (s : PacketStream)
    → report r s [] (ok nothing, s, []) ≡ (r, s, [])
report_last (ok nothing) s = refl
report_last (ok (whole bytes encrypted)) s = refl
report_last (ok (control p)) s = refl
report_last (err e) s = refl

pub receive_until_last :
    (f : List ℕ) (s : PacketStream) {s' : PacketStream} {r : Result BleError Received}
    → receive f s ≡ (r, s')
    → receive_until (f ∷ []) s ≡ (r, s', [])
unfolding receive_until
receive_until_last f s {s' = s'} {r = r} e = rw e (report_last r s')

pub receive-layout :
    (p : Packet) (s : PacketStream)
    → IsWire p
    → receive (layout p) s ≡ reset_on_error (receive_packet p s)
unfolding receive
receive-layout p s h =
    let e : from_bytes (layout p) ≡ ok p = rw append-nil at (from_bytes-layout p [] h) in
    ap (λ r. reset_on_error (parsed r s)) e

pub reset_on_error-reset :
    (r : Result BleError Received) (s : PacketStream) → reset_on_error (r, reset s) ≡ (r, reset s)
reset_on_error-reset (ok x) s = refl
reset_on_error-reset (err protocol) s = refl
reset_on_error-reset (err _) s = refl

-- A stream in the middle of a blob: the header, what has been received, the last sequence number.
abbrev pub receiving : ℕ → Option PayloadCipher → BlobHeader → List ℕ → ℕ → PacketStream
receiving mtu cipher header buffer sequence = record {
  mtu = mtu;
  cipher = cipher;
  blob = some (record { header = header; buffer = buffer; is_complete = false });
  last_sequence = sequence;
}

module _ (mtu : ℕ) (cipher : Option PayloadCipher) (header : BlobHeader) where
  receive_stream :
      (buffer chunk : List ℕ) (sequence : ℕ)
      → length buffer + length chunk ≤ header.length
      → receive_packet
          (packet blob_stream ((sequence + 1) % 256) chunk)
          (receiving mtu cipher header buffer sequence)
        ≡ (ok nothing, receiving mtu cipher header (buffer ++ chunk) ((sequence + 1) % 256))
  unfolding receive_packet Blob.add
  receive_stream buffer chunk sequence h = rw bit_and_byte (ground arith)

  receive_complete :
      (buffer chunk : List ℕ) (sequence : ℕ)
      → length buffer + length chunk ≡ header.length
      → receive_packet
          (packet blob_complete ((sequence + 1) % 256) chunk)
          (receiving mtu cipher header buffer sequence)
        ≡ (
          deliver cipher (buffer ++ chunk) (is_encrypted header),
          reset (receiving mtu cipher header buffer sequence),
        )
  unfolding receive_packet Blob.complete
  receive_complete buffer chunk sequence h =
      rw bit_and_byte (ground (arith, length-append buffer chunk))

  piece_quiet :
      (buffer chunk : List ℕ) (sequence : ℕ)
      → length chunk ≤ 255
      → length buffer + length chunk ≤ header.length
      → receive
          (layout (packet blob_stream ((sequence + 1) % 256) chunk))
          (receiving mtu cipher header buffer sequence)
        ≡ (ok nothing, receiving mtu cipher header (buffer ++ chunk) ((sequence + 1) % 256))
  piece_quiet buffer chunk sequence h k =
      receive-layout _ _ (record { payload = h; sequence_number = omega arith; rfu = omega arith })
      ∙ ap reset_on_error (receive_stream buffer chunk sequence k)

  piece_last :
      (buffer chunk : List ℕ) (sequence : ℕ)
      → length chunk ≤ 255
      → length buffer + length chunk ≡ header.length
      → receive
          (layout (packet blob_complete ((sequence + 1) % 256) chunk))
          (receiving mtu cipher header buffer sequence)
        ≡ (
          deliver cipher (buffer ++ chunk) (is_encrypted header),
          reset (receiving mtu cipher header buffer sequence),
        )
  piece_last buffer chunk sequence h k =
      receive-layout _ _ (record { payload = h; sequence_number = omega arith; rfu = omega arith })
      ∙ ap reset_on_error (receive_complete buffer chunk sequence k)
      ∙ reset_on_error-reset (deliver cipher (buffer ++ chunk) (is_encrypted header))
          (receiving mtu cipher header buffer sequence)

  -- From the middle of a blob, the packets of what is left complete it.
  pub receive_until-cut :
      (fuel : ℕ) (rest : List ℕ) (room : ℕ) (buffer : List ℕ) (sequence : ℕ)
      → 0 < room
      → room ≤ 255
      → 0 < length rest
      → length rest ≤ fuel
      → length buffer + length rest ≡ header.length
      → receive_until
          (map layout (cut fuel rest room sequence))
          (receiving mtu cipher header buffer sequence)
        ≡ (
          deliver cipher (buffer ++ rest) (is_encrypted header),
          reset (receiving mtu cipher header buffer sequence),
          [],
        )
  receive_until-cut zero rest room buffer sequence lo hi some_left enough total =
      absurd (omega arith)
  receive_until-cut (suc fuel) rest room buffer sequence lo hi some_left enough total =
      elim (dec_lt room (length rest)) [
        | no last ↦
            rw (cut_last fuel rest room sequence some_left (omega arith))
              (receive_until_last _ _ (piece_last buffer rest sequence (omega arith) total))
        | yes more ↦ rw (cut_more fuel rest room sequence more) (
            receive_until_quiet _ _ _ (
              piece_quiet buffer (take room rest) sequence (omega (arith, taken))
                (omega (arith, taken)))
            ∙ receive_until-cut fuel (drop room rest) room (buffer ++ take room rest)
                ((sequence + 1) % 256) lo hi (omega (arith, dropped)) (omega (arith, dropped))
                (omega (arith, taken, dropped, length-append buffer (take room rest)))
            ∙ ap
                (λ t. (
                  deliver cipher t (is_encrypted header),
                  reset (receiving mtu cipher header buffer sequence),
                  [],
                ))
                joined)
      ]
    where
      taken : length (take room rest) ≡ min room (length rest)
      taken = length-take room rest

      dropped : length (drop room rest) ≡ length rest - room
      dropped = length-drop room rest

      joined : (buffer ++ take room rest) ++ drop room rest ≡ buffer ++ rest
      joined =
          append_assoc buffer (take room rest) (drop room rest)
          ∙ ap (λ t. buffer ++ t) (take-append-drop room rest)
