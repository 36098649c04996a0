-- ===== src/Integration.antt =====
-- The Home Assistant integration: custom_components/onesti_lock, without ble.
pub mod PinRules
pub mod Redact
pub mod Events
pub mod Zha
pub mod Coordinator
pub mod Services
pub mod OptionsFlow
pub mod ZhaDevices
pub mod Lifecycle
pub mod Migration
pub mod ConfigFlow
mod Examples
