-- ===== src/Foc.antt =====
-- The control crate (foc-algo): floating-point numbers, the mathematical blocks and the controller.
pub mod Float
pub mod Math
pub mod Pwm
pub mod Loops
pub mod State
pub mod Controller
pub mod Settings
pub mod Total
pub mod Calls
pub mod Valid
pub mod Chains
pub mod Cycle
pub mod Safety
pub mod Demag
pub mod Align
pub mod Protection
pub mod Thermal
pub mod Observer
pub mod Observing
pub mod Weakening
pub mod Gains
