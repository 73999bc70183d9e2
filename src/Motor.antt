-- ===== src/Motor.antt =====
-- The open-loop drive (src/motor, src/tasks/motor.rs, src/drivers/motor_pwm.rs) and the commands of
-- the shell that it obeys.
pub mod OpenLoop
pub mod Bridge
pub mod Task
pub mod Rounding
pub mod Turn
pub mod Gate
