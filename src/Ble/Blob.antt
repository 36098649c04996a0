-- ===== src/Ble/Blob.antt =====
-- ble/protocol/blob.py: one payload spread over several packets.
pub mod Header
use onesti_lock.Base.{
  ℕ, ◌+◌, pos, Bool, true, false, not, Result, ok, err, Exec, ◌>>=◌, List, [], ◌++◌, bit_and, ltb,
  ◌==◌, if◌then◌else◌, length,
}
use onesti_lock.Ble.Error.{BleError, protocol}
use onesti_lock.Ble.Const.{blob_flag_encrypted, blob_header_size}
use onesti_lock.Ble.Streams.{
  reader, read_uint8, read_uint16, read_rest, writer, write_uint, write_uint8, write_uint16,
  written,
}

abbrev pub blob_length_max : ℕ
blob_length_max = 0xffff

pub record BlobHeader : Type 0 where
  pub length : ℕ
  pub flags : ℕ
  pub rfu : ℕ

abbrev pub for_payload : ℕ → Bool → BlobHeader
for_payload len encrypted = record {
  length = len;
  flags = if encrypted then blob_flag_encrypted else 0;
  rfu = 0;
}

-- `bool(flags & BLOB_FLAG_ENCRYPTED)`
unfoldable pub is_encrypted : BlobHeader → Bool
is_encrypted h = not (bit_and h.flags blob_flag_encrypted == 0)

unfoldable pub header_bytes : BlobHeader → Result BleError (List ℕ)
unfolding write_uint
header_bytes h = written (
    ok writer
    >>= write_uint8 (pos h.flags)
    >>= write_uint16 (pos h.length)
    >>= write_uint8 (pos h.rfu))

-- `BlobHeader.split`
unfoldable pub split : List ℕ → Result BleError (BlobHeader × List ℕ)
unfolding read_uint8 read_uint16 read_rest
split start_payload = if ltb (length start_payload) blob_header_size then err protocol else do
  (flags, r1) ← read_uint8 (reader start_payload)
  (len, r2) ← read_uint16 r1
  (rfu, r3) ← read_uint8 r2
  (rest, r4) ← read_rest r3
  ok (record { length = len; flags = flags; rfu = rfu }, rest)

pub record BlobAssembler : Type 0 where
  pub header : BlobHeader
  pub buffer : List ℕ
  pub is_complete : Bool

-- The methods of the assembler change it and may raise; `append` raises before it writes.
unfoldable pub append : List ℕ → Exec BlobAssembler BleError (Unit {0})
append chunk a =
    if a.is_complete
    then (err protocol, a)
    else if ltb a.header.length (length a.buffer + length chunk)
    then (err protocol, a)
    else (ok tt, record a { buffer = a.buffer ++ chunk })

abbrev started :
    BlobHeader → Result BleError (Unit {0}) × BlobAssembler → Result BleError BlobAssembler
started header (ok _, a) = ok a
started header (err e, a) = err e

-- `BlobAssembler(start_payload)`
unfoldable pub start : List ℕ → Result BleError BlobAssembler
unfolding append
start start_payload = do
  (header, first_chunk) ← split start_payload
  started header (append first_chunk (record { header = header; buffer = []; is_complete = false }))

unfoldable pub add : List ℕ → Exec BlobAssembler BleError (Unit {0})
unfolding append
add chunk a = append chunk a

abbrev finished :
    Result BleError (Unit {0}) × BlobAssembler → Result BleError (List ℕ) × BlobAssembler
finished (err e, a) = (err e, a)
finished (ok _, a) =
    if length a.buffer == a.header.length
    then (ok a.buffer, record a { is_complete = true })
    else (err protocol, a)

unfoldable pub complete : List ℕ → Exec BlobAssembler BleError (List ℕ)
unfolding append
complete chunk a = finished (append chunk a)
