-- ===== src/Ble/Streams.antt =====
-- ble/protocol/streams.py: the little-endian reader and writer. A byte is a number below 256, and
-- a byte string a list of them. A reader that raised is not used again, so it is not returned.
pub mod Numbers
pub mod Text
use onesti_lock.Base.{
  ℕ, zero, suc, ◌+◌, ◌-◌, ◌*◌, ◌/◌, ◌%◌, ◌^◌, ◌<◌, ℤ, pos, negsuc, Result, ok, err, ◌>>=◌, Bool,
  true, List, [], ◌∷◌, ◌++◌, Option, none, some, ltb, leb, ◌==◌, ◌&&◌, if◌then◌else◌, length, take,
  drop, replicate,
}
use onesti_lock.Ble.Error.{BleError, validation, protocol}

abbrev pub IsByte : ℕ → Type 0
IsByte b = b < 256

-- `int.from_bytes(data, "little")` and `value.to_bytes(size, "little")`.
abbrev pub from_bytes : List ℕ → ℕ
from_bytes [] = 0
from_bytes (b ∷ bs) = b + 256 * from_bytes bs

abbrev pub to_bytes : ℕ → ℕ → List ℕ
to_bytes zero value = []
to_bytes (suc size) value = value % 256 ∷ to_bytes size (value / 256)

pub record ByteReader : Type 0 where
  pub bytes : List ℕ
  pub at : ℕ

abbrev pub reader : List ℕ → ByteReader
reader bytes = record { bytes = bytes; at = 0 }

abbrev pub remaining : ByteReader → ℕ
remaining r = length r.bytes - r.at

unfoldable pub take_bytes : ℤ → ByteReader → Result BleError (List ℕ × ByteReader)
take_bytes (negsuc n) r = err validation
take_bytes (pos count) r =
    if ltb (remaining r) count
    then err protocol
    else ok (take count (drop r.at r.bytes), record r { at = r.at + count })

-- `self._take(1)[0]`: the taken list has one element, so the index is in range.
abbrev first_byte : List ℕ → ℕ
first_byte [] = 0
first_byte (b ∷ bs) = b

unfoldable pub read_uint8 : ByteReader → Result BleError (ℕ × ByteReader)
unfolding take_bytes
read_uint8 r = do (bs, r') ← take_bytes (pos 1) r; ok (first_byte bs, r')

unfoldable pub read_uint16 : ByteReader → Result BleError (ℕ × ByteReader)
unfolding take_bytes
read_uint16 r = do (bs, r') ← take_bytes (pos 2) r; ok (from_bytes bs, r')

unfoldable pub read_uint32 : ByteReader → Result BleError (ℕ × ByteReader)
unfolding take_bytes
read_uint32 r = do (bs, r') ← take_bytes (pos 4) r; ok (from_bytes bs, r')

unfoldable pub read_bytes : ℤ → ByteReader → Result BleError (List ℕ × ByteReader)
unfolding take_bytes
read_bytes count r = take_bytes count r

unfoldable pub read_rest : ByteReader → Result BleError (List ℕ × ByteReader)
unfolding take_bytes
read_rest r = take_bytes (pos (remaining r)) r

-- `raw.find(0)`: what stands before the first NUL, or `none` where there is none.
unfoldable pub before_nul : List ℕ → Option (List ℕ)
before_nul [] = none
before_nul (b ∷ bs) =
    let rest = before_nul bs in
    if b == 0 then some [] else elim rest [ none ↦ none | some s ↦ some (b ∷ s) ]

-- `decode("ascii", errors="replace")`: the code points of the text.
abbrev pub replacement_character : ℕ
replacement_character = 0xfffd

unfoldable pub decode_ascii : List ℕ → List ℕ
decode_ascii [] = []
decode_ascii (b ∷ bs) = (if ltb b 128 then b else replacement_character) ∷ decode_ascii bs

unfoldable pub read_string : ℤ → ByteReader → Result BleError (List ℕ × ByteReader)
unfolding take_bytes before_nul decode_ascii
read_string size r = do
  (raw, r') ← take_bytes size r
  elim (before_nul raw) [ none ↦ err protocol | some s ↦ ok (decode_ascii s, r') ]

pub record ByteWriter : Type 0 where
  pub buffer : List ℕ

abbrev pub writer : ByteWriter
writer = record { buffer = [] }

-- The chain `ByteWriter().write_uint8(a).write_bytes(b)` is `ok writer >>= write_uint8 a >>= …`.
unfoldable pub write_uint : ℕ → ℤ → ByteWriter → Result BleError ByteWriter
write_uint size (negsuc n) w = err validation
write_uint size (pos n) w =
    if ltb n (2 ^ (8 * size))
    then ok (record w { buffer = w.buffer ++ to_bytes size n })
    else err validation

abbrev pub write_uint8 : ℤ → ByteWriter → Result BleError ByteWriter
write_uint8 = write_uint 1

abbrev pub write_uint16 : ℤ → ByteWriter → Result BleError ByteWriter
write_uint16 = write_uint 2

abbrev pub write_uint32 : ℤ → ByteWriter → Result BleError ByteWriter
write_uint32 = write_uint 4

abbrev pub write_bytes : List ℕ → ByteWriter → Result BleError ByteWriter
write_bytes bytes w = ok (record w { buffer = w.buffer ++ bytes })

-- A text is the list of its code points; an ASCII text is its own encoding.
unfoldable pub is_ascii : List ℕ → Bool
is_ascii [] = true
is_ascii (c ∷ cs) = ltb c 128 && is_ascii cs

unfoldable pub write_raw_string : List ℕ → ByteWriter → Result BleError ByteWriter
unfolding is_ascii
write_raw_string text w = if is_ascii text then write_bytes text w else err validation

unfoldable pub write_string : List ℕ → ℕ → ByteWriter → Result BleError ByteWriter
unfolding is_ascii
write_string text size w =
    if is_ascii text
    then (if leb size (length text)
        then err validation
        else write_bytes (text ++ replicate (size - length text) 0) w)
    else err validation

abbrev pub written : Result BleError ByteWriter → Result BleError (List ℕ)
written r = r >>= λ w. ok w.buffer
