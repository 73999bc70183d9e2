-- ===== src/Ota.antt =====
-- The in-app firmware update: the flash driver (src/drivers/flash.rs) and the transfer handlers
-- (src/ota/mod.rs).
pub mod Flash
pub mod Device
pub mod Crc
pub mod Flag
pub mod Handlers
pub mod Transfer
pub mod Commit
pub mod Image
pub mod Confined
