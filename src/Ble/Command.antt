-- ===== src/Ble/Command.antt =====
-- ble/protocol/command.py: Layer 2 commands and the counter that hands out their refs.
pub mod RoundTrip
pub mod Refs
use onesti_lock.Base.{
  ℕ, ◌+◌, pos, Bool, Result, ok, err, ◌>>=◌, List, ltb, leb, ◌==◌, ◌&&◌, ◌||◌, if◌then◌else◌,
  length,
}
use onesti_lock.Ble.Error.{BleError, validation, protocol}
use onesti_lock.Ble.Const.{
  command_header_size, command_ref_counter_wrap, command_ref_max, command_ref_min,
  command_ref_static, packet_payload_max, FirmwareVersion, min_firmware_admin,
}
use onesti_lock.Ble.Const.CommandId
use onesti_lock.Ble.Const.CommandId.{CommandId}
use onesti_lock.Ble.Packet.{required}
use onesti_lock.Ble.Streams.{
  reader, remaining, read_uint8, read_bytes, writer, write_uint, write_uint8, write_bytes, written,
}

-- What a command says, before it is given a ref; `bytes` is the field `data`.
pub record CommandPayload : Type 0 where
  pub command_id : CommandId
  pub bytes : List ℕ

pub record Command : Type 0 where
  pub command_id : CommandId
  pub command_ref : ℕ
  pub payload : List ℕ
  pub rfu : ℕ

abbrev pub with_ref : CommandPayload → ℕ → Command
with_ref c command_ref = record {
  command_id = c.command_id;
  command_ref = command_ref;
  payload = c.bytes;
  rfu = 0;
}

unfoldable pub to_bytes : Command → Result BleError (List ℕ)
unfolding write_uint
to_bytes c =
    if leb command_ref_min c.command_ref && leb c.command_ref command_ref_max
    then (if ltb packet_payload_max (length c.payload)
        then err validation
        else written (
            ok writer
            >>= write_uint8 (pos (CommandId.value c.command_id))
            >>= write_uint8 (pos (length c.payload))
            >>= write_uint8 (pos c.command_ref)
            >>= write_uint8 (pos c.rfu)
            >>= write_bytes c.payload))
    else err validation

unfoldable pub from_bytes : List ℕ → Result BleError Command
unfolding read_uint8 read_bytes
from_bytes bytes = if ltb (remaining (reader bytes)) command_header_size then err protocol else do
  (raw_id, r1) ← read_uint8 (reader bytes)
  command_id ← required (CommandId.of_value raw_id)
  (len, r2) ← read_uint8 r1
  (command_ref, r3) ← read_uint8 r2
  (rfu, r4) ← read_uint8 r3
  (payload, r5) ← read_bytes (pos len) r4
  ok (record { command_id = command_id; command_ref = command_ref; payload = payload; rfu = rfu })

-- `firmware < required` on tuples: the first difference decides.
unfoldable pub older_than : FirmwareVersion → FirmwareVersion → Bool
older_than a b =
    ltb a.major b.major
    || (a.major == b.major
        && (ltb a.minor b.minor || (a.minor == b.minor && ltb a.bugfix b.bugfix)))

pub record CommandRefCounter : Type 0 where
  pub static : Bool
  pub upcoming : ℕ

abbrev pub counter : Bool → CommandRefCounter
counter static = record { static = static; upcoming = command_ref_min }

unfoldable pub for_firmware : FirmwareVersion → CommandRefCounter
unfolding older_than
for_firmware firmware = counter (older_than firmware min_firmware_admin)

unfoldable pub next : CommandRefCounter → ℕ × CommandRefCounter
next c = if c.static then (command_ref_static, c) else (
  c.upcoming,
  record c {
    upcoming =
        if ltb (c.upcoming + 1) command_ref_counter_wrap then c.upcoming + 1 else command_ref_min;
  },
)
