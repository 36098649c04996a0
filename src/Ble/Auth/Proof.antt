-- ===== src/Ble/Auth/Proof.antt =====
-- A login that returns has proved to the lock that it holds the owner key.
use onesti_lock.Base.{
  ◌≤◌, length-take, ◌↔◌, ◌<◌, pos, map, take, length, bit_xor, ap, sym, ◌∙◌, ◌∷◌, arith, ℕ, false,
  Result, ok, err, List, Option, none, some, ◌≡◌, refl,
}
use onesti_lock.Ble.Error.{BleError}
use onesti_lock.Ble.Command.{CommandPayload}
use onesti_lock.Ble.Commands.{user_auth_begin, user_auth_finalize}
use onesti_lock.Ble.Crypto.{CbcLibrary, LinkKeys, answer_owner_challenge}
use onesti_lock.Ble.Crypto.Sealing.{IsCbc}
use onesti_lock.Ble.Response.{status_number, id_number}
use onesti_lock.Ble.Responses.Checked.{parse_fixed_exact, parse_fixed_ok}
use onesti_lock.Ble.Const.ResponseId
use onesti_lock.Ble.Const.ResponseId.{ResponseId}
use onesti_lock.Ble.Response.{Response}
use onesti_lock.Ble.Responses.{parse_user_auth_begin}
use onesti_lock.Ble.Session.{Session}
use onesti_lock.Ble.Session.Exchange.{Exchanged, Course, send}
use onesti_lock.Ble.Const.CommandId.{CommandId}
use onesti_lock.Ble.Auth.{
  OwnerCredential, ended, finalize, answered_with, with_link, challenged, begun, begin_with,
  authenticate_owner,
}
use onesti_lock.Ble.Auth.Answer.{
  send_link_keys, begin_command, command_begun, command_finalized, finalize_command, answer_undone,
  answer_only,
}

module _ (library : CbcLibrary) (owner : OwnerCredential) (t t' : Course) (s : Session) where
  -- The first exchange, from the command that was built.
  abbrev begins : CommandPayload → Session
  begins c = (send c false t s).session

  -- The whole of a login: what was sent, what came back, and what was made of it.
  abbrev LoggedIn : Type 0
  LoggedIn =
      (c : CommandPayload) × (r : Response) × (challenge : List ℕ) × (keys : LinkKeys)
      × (answer : List ℕ) × (d : CommandPayload) × (r' : Response) × (user_auth_begin owner.user_id
            owner.device_id
          ≡ ok c)
      × ((send c false t s).outcome ≡ ok r)
      × (parse_user_auth_begin r ≡ ok challenge)
      × ((begins c).link_keys ≡ some keys)
      × (answer_owner_challenge library challenge owner.key keys.iv ≡ ok answer)
      × (user_auth_finalize answer ≡ ok d)
      × ((send d false t' (begins c)).outcome ≡ ok r')

  module _ (c : CommandPayload) (built : user_auth_begin owner.user_id owner.device_id ≡ ok c) where
    module _ (r : Response) (came : (send c false t s).outcome ≡ ok r) (challenge : List ℕ)
        (read : parse_user_auth_begin r ≡ ok challenge) (frames : List (List ℕ)) where
      finalize_ok :
          (keys : LinkKeys) (answer : List ℕ)
          → (begins c).link_keys ≡ some keys
          → answer_owner_challenge library challenge owner.key keys.iv ≡ ok answer
          → (d : Result BleError CommandPayload) → user_auth_finalize answer ≡ d
          → (finalize d t' (begins c) frames).outcome ≡ ok tt
          → LoggedIn
      finalize_ok keys answer link made (err e) eq h = cc h
      finalize_ok keys answer link made (ok d) eq h = go (send d false t' (begins c)).outcome refl h
        where
          go :
              (o : Result BleError Response)
              → (send d false t' (begins c)).outcome ≡ o
              → ended o ≡ ok tt
              → LoggedIn
          go (err e) eq' h' = cc h'
          go (ok r') eq' h' =
              (c, r, challenge, keys, answer, d, r', built, came, read, link, made, eq, eq')

      answered_with_ok :
          (keys : LinkKeys)
          → (begins c).link_keys ≡ some keys
          → (answer : Result BleError (List ℕ))
          → answer_owner_challenge library challenge owner.key keys.iv ≡ answer
          → (answered_with answer t' (begins c) frames).outcome ≡ ok tt
          → LoggedIn
      answered_with_ok keys link (err e) made h = cc h
      answered_with_ok keys link (ok answer) made h =
          finalize_ok keys answer link made (user_auth_finalize answer) refl h

      with_link_ok :
          (o : Option LinkKeys)
          → (begins c).link_keys ≡ o
          → (with_link library owner o challenge t' (begins c) frames).outcome ≡ ok tt
          → LoggedIn
      with_link_ok none link h = cc h
      with_link_ok (some keys) link h =
          answered_with_ok keys link (answer_owner_challenge library challenge owner.key keys.iv)
            refl h

    begun_ok :
        (o : Result BleError Response)
        → (send c false t s).outcome ≡ o
        → (frames : List (List ℕ)) → (begun library owner o t' (begins c) frames).outcome ≡ ok tt
        → LoggedIn
    begun_ok (err e) came frames h = cc h
    begun_ok (ok r) came frames h = go (parse_user_auth_begin r) refl h
      where
        go :
            (o : Result BleError (List ℕ))
            → parse_user_auth_begin r ≡ o
            → (challenged library owner o t' (begins c) frames).outcome ≡ ok tt
            → LoggedIn
        go (err e) read h' = cc h'
        go (ok challenge) read h' =
            with_link_ok r came challenge read frames (begins c).link_keys refl h'

  begin_with_ok :
      (b : Result BleError CommandPayload)
      → user_auth_begin owner.user_id owner.device_id ≡ b
      → (begin_with library owner b t t' s).outcome ≡ ok tt
      → LoggedIn
  begin_with_ok (err e) built h = cc h
  begin_with_ok (ok c) built h =
      begun_ok c built (send c false t s).outcome refl (send c false t s).frames h

  authenticate_owner_ok : (authenticate_owner library owner t t' s).outcome ≡ ok tt → LoggedIn
  unfolding authenticate_owner
  authenticate_owner_ok h = begin_with_ok (user_auth_begin owner.user_id owner.device_id) refl h

module _ (library : CbcLibrary) (owner : OwnerCredential) (t t' : Course) (s : Session)
    (keys : LinkKeys) where
  -- The first exchange, for a user number.
  abbrev asked : ℕ → Exchanged
  asked n =
      send (record { command_id = CommandId.user_auth_begin; bytes = n ∷ owner.device_id }) false t
        s

  -- The exchange of a command that names the user and the device, an answer that carries a challenge,
  -- and the exchange of an answer that decrypts to the bitwise inverse of the challenge.
  abbrev pub ProvesKey : Type 0
  ProvesKey =
      (n : ℕ) × (r r' : Response) × (challenge answer : List ℕ) × (owner.user_id ≡ pos n)
      × (n < 256)
      × (length owner.device_id ≡ 6)
      × ((asked n).outcome ≡ ok r)
      × (id_number r ≡ ResponseId.value ResponseId.user_auth_begin)
      × (status_number r ≡ 0)
      × (challenge ≡ take 16 r.payload)
      × (length challenge ≡ 16)
      × (length answer ≡ 16)
      × (library.decrypt owner.key keys.iv answer
          ≡ map (λ b. bit_xor b 0xff) (library.decrypt owner.key keys.iv challenge))
      × ((send (record { command_id = CommandId.user_auth_finalize; bytes = answer }) false t'
            (asked n).session).outcome
          ≡ ok r')

  proves_key :
      IsCbc library
      → length owner.key ≡ 16
      → length keys.iv ≡ 16
      → s.link_keys ≡ some keys
      → LoggedIn library owner t t' s
      → ProvesKey
  proves_key law key_size iv_size linked
        (c, r, challenge, keys', answer, d, r', built, came, read, link, made, final, done) =
      let (n, user, low, device_size, is_c) = begin_command owner.user_id owner.device_id c built in
      let is_d = finalize_command answer d final in
      let (size, front, id, zero_status) = parse_fixed_exact _ _ r challenge read in
      let kept = send_link_keys c t s ∙ linked in
      let same_keys : keys' ≡ keys = cc (link, kept) in
      let (answer_size, undone) =
        answer_undone library challenge owner.key keys.iv answer law size key_size iv_size (
          ap (λ k. answer_owner_challenge library challenge owner.key k.iv) (sym same_keys)
          ∙ made) in
      (
        n,
        r,
        r',
        challenge,
        answer,
        user,
        low,
        device_size,
        ap (λ x. (send x false t s).outcome) (sym is_c) ∙ came,
        id,
        zero_status,
        front,
        size,
        answer_size,
        undone,
        ap (λ x. (send x false t' (asked n).session).outcome) (sym is_d)
            ∙ (ap (λ x. (send d false t' (send x false t s).session).outcome) (sym is_c) ∙ done),
      )

  logged_in :
      IsCbc library
      → length owner.key ≡ 16
      → length keys.iv ≡ 16
      → s.link_keys ≡ some keys
      → ProvesKey
      → (authenticate_owner library owner t t' s).outcome ≡ ok tt
  unfolding authenticate_owner
  logged_in law key_size iv_size linked
        (
          n, r, r', challenge, answer, user, low, device_size, came, id, zero_status, front, size,
          answer_size, undone, done,
        ) =
      let built : user_auth_begin owner.user_id owner.device_id ≡ ok _ =
        ap (λ u. user_auth_begin u owner.device_id) user
        ∙ command_begun n owner.device_id low device_size in
      let taken : length (take 16 r.payload) ≡ 16 = ap length (sym front) ∙ size in
      let long : 16 ≤ length r.payload = omega (arith, length-take 16 r.payload, taken) in
      let read : parse_user_auth_begin r ≡ ok challenge =
        parse_fixed_ok ResponseId.user_auth_begin 16 r id zero_status long ∙ ap ok (sym front) in
      let link : (asked n).session.link_keys ≡ some keys = send_link_keys _ t s ∙ linked in
      let made =
        answer_only library challenge owner.key keys.iv answer law size key_size iv_size answer_size
          undone in
      rw built (
        rw came
          (rw read (rw link (rw made (rw (command_finalized answer answer_size) (rw done refl))))))

  -- Over a library whose AES-CBC decrypts what it encrypts and back, and on a session that has link
  -- keys with an IV of 16 bytes, with an owner key of 16 bytes as every credential has: a login returns
  -- exactly where the user id is a byte and the device id has 6 bytes, the first command, which carries
  -- the two, got the answer to UserAuthBegin with status 0, and the second command got an answer too.
  -- The challenge is the first 16 bytes of the first answer, and the second command carries 16 bytes
  -- that the owner key and the IV of the link decrypt to the bitwise inverse of what they decrypt the
  -- challenge to.
  pub authenticate_owner_iff :
      IsCbc library
      → length owner.key ≡ 16
      → length keys.iv ≡ 16
      → s.link_keys ≡ some keys
      → ((authenticate_owner library owner t t' s).outcome ≡ ok tt) ↔ ProvesKey
  authenticate_owner_iff law key_size iv_size linked = (
    λ h. proves_key law key_size iv_size linked (authenticate_owner_ok library owner t t' s h),
    logged_in law key_size iv_size linked,
  )
