-- ===== src/Ble/Streams/Text.antt =====
-- A text in its zero-padded field.
use onesti_lock.Base.{
  ℕ, suc, ◌+◌, ◌-◌, ◌<◌, pos, true, false, ok, List, [], ◌∷◌, ◌++◌, some, ◌≡◌, refl, arith, ltb,
  leb, length, replicate, All, length-append, length-replicate, take_front,
}
use onesti_lock.Ble.Streams.{
  writer, written, write_string, reader, read_string, ByteReader, remaining, before_nul,
  decode_ascii, is_ascii, take_bytes,
}

abbrev pub IsPlain : ℕ → Type 0
IsPlain c = (0 < c) × (c < 128)

plain-is_ascii : (text : List ℕ) → All IsPlain text → is_ascii text ≡ true
unfolding is_ascii
plain-is_ascii [] h = refl
plain-is_ascii (c ∷ cs) h = ground (arith, plain-is_ascii cs h.1)

plain-decode_ascii : (text : List ℕ) → All IsPlain text → decode_ascii text ≡ text
unfolding decode_ascii
plain-decode_ascii [] h = refl
plain-decode_ascii (c ∷ cs) h = ground (arith, plain-decode_ascii cs h.1)

before_nul-padded :
    (text : List ℕ) (n : ℕ)
    → All IsPlain text
    → before_nul (text ++ replicate (suc n) 0) ≡ some text
unfolding before_nul
before_nul-padded [] n h = refl
before_nul-padded (c ∷ cs) n h = ground (arith, before_nul-padded cs n h.1)

padded : (text : List ℕ) (size : ℕ) → length text < size → (n : ℕ) × (size - length text ≡ suc n)
padded text size h = (size - length text - 1, omega arith)

take_bytes-field :
    (field extra : List ℕ) (size : ℕ)
    → length field ≡ size
    → take_bytes (pos size) (reader (field ++ extra))
      ≡ ok (field, record { bytes = field ++ extra; at = size })
unfolding take_bytes
take_bytes-field field extra size h =
    let enough : ltb (remaining (reader (field ++ extra))) size ≡ false =
      ground (arith, length-append field extra) in
    let at_end : 0 + size ≡ size = omega arith in
    rw (enough, take_front size field extra h, at_end) refl

read_string-field :
    (text field extra : List ℕ) (size : ℕ)
    → length field ≡ size
    → before_nul field ≡ some text
    → decode_ascii text ≡ text
    → read_string (pos size) (reader (field ++ extra))
      ≡ ok (text, record { bytes = field ++ extra; at = size })
unfolding read_string
read_string-field text field extra size sized cut plain =
    ground (arith, take_bytes-field field extra size sized)

-- A text of ASCII characters without NUL that is shorter than its field is written, and is read back
-- from the field whatever follows it.
pub read_string-write_string :
    (text extra : List ℕ) (size : ℕ)
    → All IsPlain text
    → length text < size
    → (field : List ℕ) × (r : ByteReader) × (written (write_string text size writer) ≡ ok field)
      × (length field ≡ size)
      × (read_string (pos size) (reader (field ++ extra)) ≡ ok (text, r))
read_string-write_string text extra size plain short =
    let (n, room) = padded text size short in
    let field : List ℕ = text ++ replicate (suc n) 0 in
    let sized : length field ≡ size =
      omega (arith, length-append text (replicate (suc n) 0), length-replicate {A = ℕ} (suc n) 0) in
    let fits : leb size (length text) ≡ false = ground arith in
    (
      field,
      record { bytes = field ++ extra; at = size },
      unfold write_string in rw (plain-is_ascii text plain, fits, room) refl,
      sized,
      read_string-field text field extra size sized (before_nul-padded text n plain)
          (plain-decode_ascii text plain),
    )
