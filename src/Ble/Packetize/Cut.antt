-- ===== src/Ble/Packetize/Cut.antt =====
-- The loop of `packetize`, described by the bytes that are left instead of a position.
use onesti_lock.Base.{
  ℕ, zero, suc, ◌+◌, ◌-◌, ◌%◌, ◌≤◌, ◌<◌, List, [], ◌∷◌, ◌≡◌, refl, ap, ◌∙◌, arith, leb,
  if◌then◌else◌, length, take, drop, length-take, length-drop, drop-drop, take_all, Bool-cases, inl,
  inr,
}
use onesti_lock.Base.Bits.{bit_and_byte}
use onesti_lock.Ble.Const.PacketTypeId.{blob_stream, blob_complete}
use onesti_lock.Ble.Packet.{Packet}
use onesti_lock.Ble.Packetize.{packet, later_chunks}

-- Cut `rest` into pieces of `room` bytes; the piece that empties it completes the blob.
unfoldable pub cut : ℕ → List ℕ → ℕ → ℕ → List Packet
cut zero rest room sequence = []
cut (suc fuel) [] room sequence = []
cut (suc fuel) (b ∷ bs) room sequence =
    let sequence' = (sequence + 1) % 256 in
    let later = cut fuel (drop room (b ∷ bs)) room sequence' in
    if leb (length (b ∷ bs)) room
    then packet blob_complete sequence' (b ∷ bs) ∷ []
    else packet blob_stream sequence' (take room (b ∷ bs)) ∷ later

later_chunks_done :
    (fuel : ℕ) (payload : List ℕ) (room position sequence : ℕ)
    → length payload ≤ position
    → later_chunks fuel payload room position sequence ≡ []
unfolding later_chunks
later_chunks_done zero payload room position sequence h = refl
later_chunks_done (suc fuel) payload room position sequence h = ground arith

module _ (fuel : ℕ) (payload : List ℕ) (room position sequence : ℕ) where
  later_chunks_last :
      (r : List ℕ)
      → drop position payload ≡ r
      → 0 < length r
      → length r ≤ room
      → later_chunks (suc fuel) payload room position sequence
        ≡ packet blob_complete ((sequence + 1) % 256) r ∷ []
  unfolding later_chunks
  later_chunks_last r e h k =
      let size : length payload - position ≡ length r =
        omega (arith, length-drop position payload, ap length e) in
      rw (e, take_all room r k, bit_and_byte)
        (ground
          (arith, later_chunks_done fuel payload room (position + length r) ((sequence + 1) % 256)))

  later_chunks_more :
      (r : List ℕ)
      → drop position payload ≡ r
      → room < length r
      → later_chunks (suc fuel) payload room position sequence
        ≡ packet blob_stream ((sequence + 1) % 256) (take room r)
          ∷ later_chunks fuel payload room (position + room) ((sequence + 1) % 256)
  unfolding later_chunks
  later_chunks_more r e h =
      let size : length payload - position ≡ length r =
        omega (arith, length-drop position payload, ap length e) in
      let taken : length (take room r) ≡ room = omega (arith, length-take room r) in
      rw (e, taken, bit_and_byte) (ground arith)

later_chunks-cut_step :
    (fuel : ℕ) (payload : List ℕ) (room position sequence : ℕ) (r : List ℕ)
    → drop position payload ≡ r
    → later_chunks fuel payload room (position + room) ((sequence + 1) % 256)
      ≡ cut fuel (drop (position + room) payload) room ((sequence + 1) % 256)
    → later_chunks (suc fuel) payload room position sequence ≡ cut (suc fuel) r room sequence
unfolding cut
later_chunks-cut_step fuel payload room position sequence [] e ih =
    later_chunks_done (suc fuel) payload room position sequence
      (omega (arith, length-drop position payload, ap length e))
later_chunks-cut_step fuel payload room position sequence (b ∷ bs) e ih =
    let r : List ℕ = b ∷ bs in
    let next : drop room r ≡ drop (position + room) payload =
      rw (← e) (drop-drop position room (position + room) payload refl) in
    elim (Bool-cases (leb (length r) room)) [
      | inl last ↦
          rw last
            (later_chunks_last fuel payload room position sequence r e (omega arith) (ground arith))
      | inr more ↦
          rw (more, next)
            (later_chunks_more fuel payload room position sequence r e (ground arith)
              ∙ ap (λ t. packet blob_stream ((sequence + 1) % 256) (take room r) ∷ t) ih)
    ]

-- The loop of the code makes these cuts, from any position and with any fuel.
pub later_chunks-cut :
    (fuel : ℕ) (payload : List ℕ) (room position sequence : ℕ)
    → later_chunks fuel payload room position sequence
      ≡ cut fuel (drop position payload) room sequence
later_chunks-cut zero payload room position sequence = unfold later_chunks cut in refl
later_chunks-cut (suc fuel) payload room position sequence =
    later_chunks-cut_step fuel payload room position sequence (drop position payload) refl
      (later_chunks-cut fuel payload room (position + room) ((sequence + 1) % 256))

module _ (fuel : ℕ) (rest : List ℕ) (room sequence : ℕ) where
  pub cut_last :
      0 < length rest
      → length rest ≤ room
      → cut (suc fuel) rest room sequence ≡ packet blob_complete ((sequence + 1) % 256) rest ∷ []
  unfolding cut
  cut_last lo hi = ground arith

  pub cut_more :
      room < length rest
      → cut (suc fuel) rest room sequence
        ≡ packet blob_stream ((sequence + 1) % 256) (take room rest)
          ∷ cut fuel (drop room rest) room ((sequence + 1) % 256)
  unfolding cut
  cut_more h = ground arith
