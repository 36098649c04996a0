-- ===== src/Ble/Crypto/Sealing.antt =====
-- What is encrypted decrypts to the padded message, and the owner's answer to a challenge.
use onesti_lock.Base.{
  ℕ, zero, suc, ◌+◌, ◌*◌, ◌/◌, ◌%◌, Bool, true, false, ok, List, [], ◌∷◌, ◌≡◌, refl, ap, ◌∙◌, arith,
  length, take, drop, take_front, drop_front, take-append-drop, length-take, length-drop,
  length-append,
}
use onesti_lock.Ble.Crypto.{
  CbcLibrary, Aes128Cbc, each_block, run, encrypt, decrypt, zero_pad, bit_invert,
  answer_owner_challenge,
}
use onesti_lock.Ble.Crypto.Padding.{zero_pad_blocks, zero_pad_whole, length-bit_invert}

-- What is documented of AES-CBC: on whole blocks, under a 16-byte key and IV, both directions keep
-- the length and undo one another.
pub record IsCbc (library : CbcLibrary) : Type 0 where
  pub decrypt-encrypt :
      (key iv bytes : List ℕ)
      → length key ≡ 16
      → length iv ≡ 16
      → length bytes % 16 ≡ 0
      → library.decrypt key iv (library.encrypt key iv bytes) ≡ bytes
  pub encrypt-decrypt :
      (key iv bytes : List ℕ)
      → length key ≡ 16
      → length iv ≡ 16
      → length bytes % 16 ≡ 0
      → library.encrypt key iv (library.decrypt key iv bytes) ≡ bytes
  pub length-encrypt :
      (key iv bytes : List ℕ)
      → length bytes % 16 ≡ 0
      → length (library.encrypt key iv bytes) ≡ length bytes
  pub length-decrypt :
      (key iv bytes : List ℕ)
      → length bytes % 16 ≡ 0
      → length (library.decrypt key iv bytes) ≡ length bytes

-- What `init` checks.
pub record IsReady (c : Aes128Cbc) : Type 0 where
  pub key : length c.key ≡ 16
  pub iv : length c.iv ≡ 16

-- Two functions on blocks that keep the length and undo one another on whole blocks.
module _ (f g : List ℕ → List ℕ)
    (same_length : (bytes : List ℕ) → length bytes % 16 ≡ 0 → length (f bytes) ≡ length bytes)
    (undo : (bytes : List ℕ) → length bytes % 16 ≡ 0 → g (f bytes) ≡ bytes) where
  length-each_block :
      (n : ℕ) (bytes : List ℕ)
      → length bytes ≡ 16 * n
      → length (each_block f n bytes) ≡ length bytes
  unfolding each_block
  length-each_block zero bytes h = omega arith
  length-each_block (suc n) bytes h = omega (
    arith,
    length-append (f (take 16 bytes)) (each_block f n (drop 16 bytes)),
    same_length (take 16 bytes) (omega (arith, length-take 16 bytes)),
    length-take 16 bytes,
    length-drop 16 bytes,
    length-each_block n (drop 16 bytes) (omega (arith, length-drop 16 bytes)),
  )

  each_block-each_block :
      (n : ℕ) (bytes : List ℕ)
      → length bytes ≡ 16 * n
      → each_block g n (each_block f n bytes) ≡ bytes
  unfolding each_block
  each_block-each_block zero [] h = refl
  each_block-each_block zero (b ∷ bs) h = absurd (omega arith)
  each_block-each_block (suc n) bytes h =
      rw
        (
          take_front 16 (f (take 16 bytes)) (each_block f n (drop 16 bytes)) sized,
          drop_front 16 (f (take 16 bytes)) (each_block f n (drop 16 bytes)) sized,
          undo (take 16 bytes) whole,
          each_block-each_block n (drop 16 bytes) (omega (arith, length-drop 16 bytes)),
        )
        (take-append-drop 16 bytes)
    where
      block : length (take 16 bytes) ≡ 16
      block = omega (arith, length-take 16 bytes)

      whole : length (take 16 bytes) % 16 ≡ 0
      whole = omega (arith, block)

      sized : length (f (take 16 bytes)) ≡ 16
      sized = same_length (take 16 bytes) whole ∙ block

  pub length-run :
      (iv_reset : Bool) (bytes : List ℕ)
      → length bytes % 16 ≡ 0
      → length (run iv_reset f bytes) ≡ length bytes
  unfolding run
  length-run true bytes h = length-each_block ((length bytes + 15) / 16) bytes (omega arith)
  length-run false bytes h = same_length bytes h

  pub run-run :
      (iv_reset : Bool) (bytes : List ℕ)
      → length bytes % 16 ≡ 0
      → run iv_reset g (run iv_reset f bytes) ≡ bytes
  unfolding run
  run-run true bytes h =
      rw (length-each_block ((length bytes + 15) / 16) bytes (omega arith))
        (each_block-each_block ((length bytes + 15) / 16) bytes (omega arith))
  run-run false bytes h = undo bytes h

module _ (library : CbcLibrary) (law : IsCbc library) (c : Aes128Cbc) (ready : IsReady c) where
  length-run_encrypt :
      (bytes : List ℕ)
      → length bytes % 16 ≡ 0
      → length (run c.iv_reset (library.encrypt c.key c.iv) bytes) ≡ length bytes
  length-run_encrypt =
      length-run (library.encrypt c.key c.iv) (library.decrypt c.key c.iv)
        (law.length-encrypt c.key c.iv)
        (λ bytes h. law.decrypt-encrypt c.key c.iv bytes ready.key ready.iv h) c.iv_reset

  -- The ciphertext is as long as the padded message.
  pub length-encrypt : (bytes : List ℕ) → length (encrypt library c bytes) ≡ length (zero_pad bytes)
  unfolding encrypt
  length-encrypt bytes = length-run_encrypt (zero_pad bytes) (zero_pad_blocks bytes).0

  decrypt-run :
      (bytes : List ℕ)
      → length bytes % 16 ≡ 0
      → decrypt library c (run c.iv_reset (library.encrypt c.key c.iv) bytes) ≡ ok bytes
  unfolding decrypt
  decrypt-run bytes h = ground (
    arith,
    length-run_encrypt bytes h,
    run-run (library.encrypt c.key c.iv) (library.decrypt c.key c.iv)
        (law.length-encrypt c.key c.iv)
        (λ bytes h. law.decrypt-encrypt c.key c.iv bytes ready.key ready.iv h) c.iv_reset bytes h,
  )

  -- In either mode a cipher decrypts what it encrypted to the message and its zero padding.
  pub cipher_round_trip :
      (bytes : List ℕ) → decrypt library c (encrypt library c bytes) ≡ ok (zero_pad bytes)
  unfolding encrypt
  cipher_round_trip bytes = decrypt-run (zero_pad bytes) (zero_pad_blocks bytes).0

module _ (library : CbcLibrary) (law : IsCbc library) where
  -- A 16-byte challenge is answered, under a 16-byte owner key and link IV, by 16 bytes that decrypt
  -- to the bitwise inverse of what the challenge decrypts to; that is what the lock compares.
  pub answer_owner_challenge_lem :
      (challenge owner_key link_iv : List ℕ)
      → length challenge ≡ 16
      → length owner_key ≡ 16
      → length link_iv ≡ 16
      → (answer : List ℕ) × (answer_owner_challenge library challenge owner_key link_iv ≡ ok answer)
        × (length answer ≡ 16)
        × (decrypt library (record { key = owner_key; iv = link_iv; iv_reset = false }) answer
            ≡ ok (bit_invert (library.decrypt owner_key link_iv challenge)))
  unfolding answer_owner_challenge
  answer_owner_challenge_lem challenge owner_key link_iv hc hk hv =
      let cipher : Aes128Cbc = record { key = owner_key; iv = link_iv; iv_reset = false } in
      let ready : IsReady cipher = record { key = hk; iv = hv } in
      let plain : List ℕ = library.decrypt owner_key link_iv challenge in
      let size : length (bit_invert plain) ≡ 16 =
        length-bit_invert plain
        ∙ law.length-decrypt owner_key link_iv challenge (omega arith)
        ∙ hc in
      let whole : zero_pad (bit_invert plain) ≡ bit_invert plain =
        zero_pad_whole (bit_invert plain) (omega arith) in
      (
        encrypt library cipher (bit_invert plain),
        ground arith,
        length-encrypt library law cipher ready (bit_invert plain) ∙ ap length whole ∙ size,
        cipher_round_trip library law cipher ready (bit_invert plain) ∙ ap ok whole,
      )
