-- ===== src/Ble/Const.antt =====
-- ble/protocol/const.py: the wire constants, and its enums, one to a child module.
pub mod PacketTypeId
pub mod CommandId
pub mod ResponseId
pub mod ResponseStatusId
pub mod LockStatusId
pub mod LockModelId
pub mod LockStateId
pub mod DoorlockMethodId
pub mod EkeyOperationId
pub mod LockVolumeId
pub mod UserAddedStatusId
pub mod DeviceFeature
pub mod ModelFeatures
use onesti_lock.Base.{ℕ, ◌≤◌, ◌<◌}

abbrev pub default_mtu : ℕ
default_mtu = 23

abbrev pub att_overhead : ℕ
att_overhead = 3

abbrev pub packet_header_size : ℕ
packet_header_size = 4

abbrev pub packet_payload_max : ℕ
packet_payload_max = 255

abbrev pub first_sequence_number : ℕ
first_sequence_number = 1

abbrev pub command_header_size : ℕ
command_header_size = 4

abbrev pub command_ref_min : ℕ
command_ref_min = 1

abbrev pub command_ref_max : ℕ
command_ref_max = 254

abbrev pub command_ref_static : ℕ
command_ref_static = 16

abbrev pub command_ref_counter_wrap : ℕ
command_ref_counter_wrap = 128

abbrev pub response_header_size : ℕ
response_header_size = 4

abbrev pub blob_header_size : ℕ
blob_header_size = 4

abbrev pub blob_flag_encrypted : ℕ
blob_flag_encrypted = 0x01

abbrev pub public_key_length : ℕ
public_key_length = 64

abbrev pub challenge_length : ℕ
challenge_length = 16

abbrev pub device_id_length : ℕ
device_id_length = 6

abbrev pub device_id_seed_length : ℕ
device_id_seed_length = 2

abbrev pub device_name_max_length : ℕ
device_name_max_length = 9

abbrev pub pin_length_min : ℕ
pin_length_min = 4

abbrev pub pin_length_max : ℕ
pin_length_max = 8

-- `range(start, stop)`.
pub record SlotRange : Type 0 where
  pub start : ℕ
  pub stop : ℕ

abbrev pub pin_slots : SlotRange
pin_slots = record { start = 800; stop = 900 }

abbrev pub fingerprint_slots : SlotRange
fingerprint_slots = record { start = 150; stop = 200 }

abbrev pub rfid_slots : SlotRange
rfid_slots = record { start = 900; stop = 1000 }

-- major, minor, bugfix; Python compares the tuples in that order.
pub record FirmwareVersion : Type 0 where
  pub major : ℕ
  pub minor : ℕ
  pub bugfix : ℕ

abbrev pub min_firmware_admin : FirmwareVersion
min_firmware_admin = record { major = 4; minor = 7; bugfix = 90 }
