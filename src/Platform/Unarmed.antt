-- ===== src/Platform/Unarmed.antt =====
-- src/uds/static_config.rs: the flag of the reset after an update, on the platform's own tables.
pub mod Services
pub mod Jobs
pub mod Route
pub mod Runs
