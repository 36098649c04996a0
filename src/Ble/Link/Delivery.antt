-- ===== src/Ble/Link/Delivery.antt =====
-- Commands and responses over an encrypted link.
use onesti_lock.Base.{ℕ, ◌≤◌, ◌<◌, true, ok, ◌>>=◌, List, [], some, ◌≡◌, refl, arith, length}
use onesti_lock.Ble.Const.ResponseId
use onesti_lock.Ble.Const.ResponseStatusId
use onesti_lock.Ble.Command
use onesti_lock.Ble.Command.{Command}
use onesti_lock.Ble.Command.RoundTrip as CommandRoundTrip
use onesti_lock.Ble.Command.RoundTrip.{IsSendable}
use onesti_lock.Ble.Response
use onesti_lock.Ble.Response.{Response}
use onesti_lock.Ble.Response.RoundTrip as ResponseRoundTrip
use onesti_lock.Ble.Response.RoundTrip.{IsWire, IsCanonical}
use onesti_lock.Ble.Crypto.{CbcLibrary, Aes128Cbc, encrypt, zero_pad}
use onesti_lock.Ble.Crypto.Padding.{zero_pad_blocks}
use onesti_lock.Ble.Crypto.Sealing.{IsCbc, IsReady, cipher_round_trip, length-encrypt}
use onesti_lock.Ble.Stream.{whole, frame_with}
use onesti_lock.Ble.Stream.Reassembly.{receive_until}
use onesti_lock.Ble.Stream.Transfer.{idle, receive_until-frame_sealed}
use onesti_lock.Ble.Link.{encrypter}

module _ (library : CbcLibrary) (law : IsCbc library) (c : Aes128Cbc) (ready : IsReady c) where
  sealed_transfer :
      (mtu mtu' : ℕ) (message : List ℕ)
      → 12 ≤ mtu
      → 0 < length message
      → length message < 65000
      → (frames : List (List ℕ)) × (frame_with mtu (some (encrypter library c)) message ≡ ok frames)
        × (receive_until frames (idle mtu' (some (encrypter library c)))
            ≡ (ok (whole (zero_pad message) true), idle mtu' (some (encrypter library c)), []))
  sealed_transfer mtu mtu' message enough some_byte small =
      let size : length (encrypt library c message) ≡ length (zero_pad message) =
        length-encrypt library law c ready message in
      let (blocks, least, most) = zero_pad_blocks message in
      receive_until-frame_sealed mtu mtu' (encrypter library c) (encrypter library c) message
        (encrypt library c message) (zero_pad message) refl
        (cipher_round_trip library law c ready message) enough (omega (arith, size))
        (omega (arith, size))

-- A sendable command that is written, encrypted under a 16-byte key and IV and framed for an MTU of
-- at least 12 gives frames without an error. An idle receiver with the same cipher reports nothing
-- before the last frame, delivers one payload there and is idle again, and that payload, zero
-- padding and all, parses as the command.
pub command_arrives :
    (library : CbcLibrary)
    → IsCbc library
    → (c : Aes128Cbc) → IsReady c
    → (mtu mtu' : ℕ) (command : Command) → 12 ≤ mtu
    → IsSendable command
    → (frames : List (List ℕ)) × (plain : List ℕ) × ((Command.to_bytes command >>= λ bytes.
          frame_with mtu (some (encrypter library c)) bytes)
        ≡ ok frames)
      × (receive_until frames (idle mtu' (some (encrypter library c)))
          ≡ (ok (whole plain true), idle mtu' (some (encrypter library c)), []))
      × (Command.from_bytes plain ≡ ok command)
command_arrives library law c ready mtu mtu' command enough sendable =
    let message : List ℕ = CommandRoundTrip.layout command in
    let short : length command.payload ≤ 255 = sendable.payload in
    let (frames, framed, received) =
      sealed_transfer library law c ready mtu mtu' message enough (omega arith) (omega arith) in
    (
      frames,
      zero_pad message,
      rw (CommandRoundTrip.to_bytes-layout command sendable) framed,
      received,
      unfold zero_pad in CommandRoundTrip.from_bytes-layout command _ sendable,
    )

-- The same for a response whose fields fit their bytes, as the lock sends it.
pub response_arrives :
    (library : CbcLibrary)
    → IsCbc library
    → (c : Aes128Cbc) → IsReady c
    → (mtu mtu' : ℕ) (response : Response) → 12 ≤ mtu
    → IsWire response
    → IsCanonical ResponseId.of_value response.response_id
    → IsCanonical ResponseStatusId.of_value response.status
    → (frames : List (List ℕ)) × (plain : List ℕ) × ((Response.to_bytes response >>= λ bytes.
          frame_with mtu (some (encrypter library c)) bytes)
        ≡ ok frames)
      × (receive_until frames (idle mtu' (some (encrypter library c)))
          ≡ (ok (whole plain true), idle mtu' (some (encrypter library c)), []))
      × (Response.from_bytes plain ≡ ok response)
response_arrives library law c ready mtu mtu' response enough wire id_canonical status_canonical =
    let message : List ℕ = ResponseRoundTrip.layout response in
    let short : length response.payload ≤ 255 = wire.payload in
    let (frames, framed, received) =
      sealed_transfer library law c ready mtu mtu' message enough (omega arith) (omega arith) in
    (
      frames,
      zero_pad message,
      rw (ResponseRoundTrip.to_bytes-layout response wire) framed,
      received,
      unfold zero_pad in
          ResponseRoundTrip.from_bytes-layout response _ short id_canonical status_canonical,
    )
