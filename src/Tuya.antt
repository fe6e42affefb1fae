-- ===== src/Tuya.antt =====
-- src/openhdo_linker/tuya.py: the local Tuya driver.
pub mod Mapping
pub mod Frame
pub mod Payload
pub mod Dps
pub mod Control
pub mod Local
pub mod Config
pub mod Frame6699
pub mod Discovery
pub mod Scan
