-- ===== src/Tests.antt =====
-- Concrete machines, and the theorems at inputs that meet their hypotheses.
mod Fixed
mod Rounded
mod Motor
mod Shell
mod Platform
mod Fixtures
mod Access
mod Jobs
mod Codes
mod Updates
mod Bus
mod Starts
mod Traffic
