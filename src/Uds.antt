-- ===== src/Uds.antt =====
-- The UDS engine (uds-core): types, state, tables, services, pending queue and trouble codes.
pub mod Types
pub mod State
pub mod Config
pub mod Pending
pub mod Dtc
pub mod Services
pub mod Security
pub mod Dispatch
pub mod Response
pub mod Frames
pub mod Effect
pub mod Access
pub mod Sessions
pub mod Queue
pub mod Tick
pub mod Requests
pub mod Histories
pub mod Totality
pub mod Handshake
