-- ===== src/Platform.antt =====
-- The tables and callbacks of the platform (src/uds): the engine over the update handlers.
pub mod Tables
pub mod Updates
pub mod Keys
pub mod Boot
pub mod Upload
pub mod Client
pub mod Handshake
pub mod Bus
pub mod Unarmed
pub mod Panics
