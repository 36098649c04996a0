-- ===== src/Ble/Examples.antt =====
-- Concrete inputs on which the theorems about the Bluetooth library apply: a cipher that reverses
-- what it reads, a curve of two keys, and a session with a lock.
pub mod Setup
mod Sessions
mod Wire
mod Keys
mod Enrolling
