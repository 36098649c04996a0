-- ===== src/Ble.antt =====
-- The Bluetooth library under custom_components/onesti_lock/ble.
pub mod Const
pub mod Error
pub mod Streams
pub mod Packet
pub mod Blob
pub mod Packetize
pub mod Stream
pub mod Command
pub mod Response
pub mod Commands
pub mod Responses
pub mod Features
pub mod Crypto
pub mod Link
pub mod Auth
pub mod Enrollment
pub mod Advertisement
pub mod Session
mod Examples
