-- ===== src/Can.antt =====
-- src/drivers/can: how the CAN-FD bus reaches the UDS engine, and the CANopen network state.
pub mod Nmt
pub mod Bridge
pub mod Addressing
pub mod Stale
pub mod Task
pub mod Reset
pub mod Timeout
pub mod Loop
pub mod Heartbeat
