-- ===== src/Ble/Auth/Answer.antt =====
-- The commands of a login, what an exchange keeps of the link, and the one answer to a challenge.
use onesti_lock.Base.{
  ◌<◌, ◌%◌, pos, negsuc, ℤ, map, length, bit_xor, ok-injective, ap, sym, ◌∙◌, ◌∷◌, not, ◌&&◌, inl,
  inr, Bool-cases, arith, ℕ, false, Result, ok, err, List, ◌≡◌, refl,
}
use onesti_lock.Ble.Error.{BleError}
use onesti_lock.Ble.Command.{CommandPayload}
use onesti_lock.Ble.Commands.{user_auth_begin, user_auth_finalize}
use onesti_lock.Ble.Crypto.{CbcLibrary, answer_owner_challenge, decrypt, bit_invert}
use onesti_lock.Ble.Crypto.Sealing.{IsCbc, answer_owner_challenge_lem}
use onesti_lock.Ble.Streams.{write_uint}
use onesti_lock.Ble.Session.{Session}
use onesti_lock.Ble.Session.SameLink.{exchange_link}
use onesti_lock.Ble.Session.Exchange.{Course, send, gated, availability}
use onesti_lock.Ble.Const.DeviceFeature.{DeviceFeature, is_available}
use onesti_lock.Ble.Const.CommandId.{CommandId}

-- `send` keeps the link keys.
pub send_link_keys :
    (c : CommandPayload) (t : Course) (s : Session)
    → (send c false t s).session.link_keys ≡ s.link_keys
unfolding send
send_link_keys c t s = gate (availability c s)
  where
    gate :
        (o : Result BleError DeviceFeature) → (gated o c false t s).session.link_keys ≡ s.link_keys
    gate (err e) = refl
    gate (ok feature) = elim (Bool-cases (not (is_available feature) && not false)) [
      | inl shut ↦ rw shut refl
      | inr through ↦ rw through (exchange_link c t s).3
    ]

-- The first command names the user and the device.
pub begin_command :
    (user_id : ℤ) (device_id : List ℕ) (c : CommandPayload)
    → user_auth_begin user_id device_id ≡ ok c
    → (n : ℕ) × (user_id ≡ pos n)
      × (n < 256)
      × (length device_id ≡ 6)
      × (c ≡ record { command_id = CommandId.user_auth_begin; bytes = n ∷ device_id })
unfolding user_auth_begin write_uint
begin_command (negsuc n) device_id c h = ground arith
begin_command (pos n) device_id c h = (n, refl, ground arith, ground arith, ground arith)

pub command_begun :
    (n : ℕ) (device_id : List ℕ)
    → n < 256
    → length device_id ≡ 6
    → user_auth_begin (pos n) device_id
      ≡ ok (record { command_id = CommandId.user_auth_begin; bytes = n ∷ device_id })
unfolding user_auth_begin write_uint
command_begun n device_id low size = ground arith

pub command_finalized :
    (answer : List ℕ)
    → length answer ≡ 16
    → user_auth_finalize answer
      ≡ ok (record { command_id = CommandId.user_auth_finalize; bytes = answer })
unfolding user_auth_finalize
command_finalized answer size = ground arith

pub finalize_command :
    (answer : List ℕ) (d : CommandPayload)
    → user_auth_finalize answer ≡ ok d
    → d ≡ record { command_id = CommandId.user_auth_finalize; bytes = answer }
unfolding user_auth_finalize
finalize_command answer d h = ground arith

decrypt_block :
    (library : CbcLibrary) (key iv bytes : List ℕ)
    → length bytes ≡ 16
    → decrypt library (record { key = key; iv = iv; iv_reset = false }) bytes
      ≡ ok (library.decrypt key iv bytes)
unfolding decrypt
decrypt_block library key iv bytes h = ground arith

-- The answer to a challenge, as the lock undoes it.
pub answer_undone :
    (library : CbcLibrary) (challenge key iv answer : List ℕ)
    → IsCbc library
    → length challenge ≡ 16
    → length key ≡ 16
    → length iv ≡ 16
    → answer_owner_challenge library challenge key iv ≡ ok answer
    → (length answer ≡ 16)
      × (library.decrypt key iv answer
          ≡ map (λ b. bit_xor b 0xff) (library.decrypt key iv challenge))
unfolding decrypt bit_invert
answer_undone library challenge key iv answer law hc hk hv h =
    let (made, is_made, size, undone) =
      answer_owner_challenge_lem library law challenge key iv hc hk hv in
    let same : made ≡ answer = ok-injective (sym is_made ∙ h) in
    (
      ap length (sym same) ∙ size,
      ap (library.decrypt key iv) (sym same)
          ∙ ok-injective (sym (decrypt_block library key iv made size) ∙ undone),
    )

-- No other block is undone to the same.
pub answer_only :
    (library : CbcLibrary) (challenge key iv answer : List ℕ)
    → IsCbc library
    → length challenge ≡ 16
    → length key ≡ 16
    → length iv ≡ 16
    → length answer ≡ 16
    → library.decrypt key iv answer ≡ map (λ b. bit_xor b 0xff) (library.decrypt key iv challenge)
    → answer_owner_challenge library challenge key iv ≡ ok answer
answer_only library challenge key iv answer law hc hk hv ha h =
    let (made, is_made, size, undone) =
      answer_owner_challenge_lem library law challenge key iv hc hk hv in
    let (made_size, made_undone) =
      answer_undone library challenge key iv made law hc hk hv is_made in
    let block : length answer % 16 ≡ 0 = omega arith in
    let made_block : length made % 16 ≡ 0 = omega arith in
    let same : made ≡ answer =
      sym (law.encrypt-decrypt key iv made hk hv made_block)
      ∙ (ap (library.encrypt key iv) (made_undone ∙ sym h)
          ∙ law.encrypt-decrypt key iv answer hk hv block) in
    is_made ∙ ap ok same
