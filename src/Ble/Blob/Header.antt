-- ===== src/Ble/Blob/Header.antt =====
-- The header of a BlobStart payload: its layout, and that `split` reads it back.
use onesti_lock.Base.{
  ℕ, ◌/◌, ◌%◌, ◌≤◌, ◌<◌, Bool, true, false, ok, List, [], ◌∷◌, ◌++◌, ◌≡◌, arith, length, take_all,
}
use onesti_lock.Base.Bits.{bit_and_bit}
use onesti_lock.Ble.Blob.{BlobHeader, for_payload, is_encrypted, header_bytes, split, start}

-- [flags][length, low byte first][rfu]
abbrev pub header_layout : BlobHeader → List ℕ
header_layout h = h.flags ∷ h.length % 256 ∷ h.length / 256 % 256 ∷ h.rfu ∷ []

pub record FitsHeader (h : BlobHeader) : Type 0 where
  pub flags : h.flags < 256
  pub length : h.length < 65536
  pub rfu : h.rfu < 256

pub header_bytes-layout : (h : BlobHeader) → FitsHeader h → header_bytes h ≡ ok (header_layout h)
unfolding header_bytes
header_bytes-layout h fits = ground arith

pub split-layout :
    (h : BlobHeader) (chunk : List ℕ)
    → FitsHeader h
    → split (header_layout h ++ chunk) ≡ ok (h, chunk)
unfolding split
split-layout h chunk fits = ground (arith, take_all (length chunk) chunk)

pub is_encrypted-for_payload :
    (n : ℕ) (encrypted : Bool) → is_encrypted (for_payload n encrypted) ≡ encrypted
unfolding is_encrypted
is_encrypted-for_payload n true = ground (arith, bit_and_bit 1)
is_encrypted-for_payload n false = ground (arith, bit_and_bit 0)

-- A first chunk that the declared length has room for starts an assembler.
pub start-layout :
    (h : BlobHeader) (chunk : List ℕ)
    → FitsHeader h
    → length chunk ≤ h.length
    → start (header_layout h ++ chunk)
      ≡ ok (record { header = h; buffer = chunk; is_complete = false })
unfolding start
start-layout h chunk fits room = ground (arith, split-layout h chunk fits)
