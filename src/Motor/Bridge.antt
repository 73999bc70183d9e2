-- ===== src/Motor/Bridge.antt =====
-- src/drivers/motor_pwm.rs: the timer of the bridge. The timer of the hardware crate is a record of
-- the master output enable and of the three compare values.
use rust_foc.Common.{ℕ, Bool, true, false, if◌then◌else◌}
use rust_foc.Foc.Float.{Float, ◌⊗◌, zero_f, one_f}
use rust_foc.Foc.Pwm.{Duty}

pub record MotorPwm : Type 0 where
  pub moe : Bool
  pub ch1 : ℕ
  pub ch2 : ℕ
  pub ch3 : ℕ
  pub max_duty : ℕ

unfoldable pub enable : MotorPwm → MotorPwm
enable pwm = record pwm { moe = true }

unfoldable pub disable : MotorPwm → MotorPwm
disable pwm = record pwm { moe = false }

abbrev pub is_enabled : MotorPwm → Bool
is_enabled pwm = pwm.moe

-- The cast `as u32` of a float, which truncates and saturates, is a parameter.
module _ {W : Type 0} ⦃fl : Float W⦄ (to_u32 : W → ℕ) where
  unfoldable pub scale_duty : W → ℕ → ℕ
  scale_duty d max =
      if fl.le d zero_f then 0 else if fl.le one_f d then max else to_u32 (d ⊗ fl.from max)

  unfoldable pub apply : MotorPwm → Duty W → MotorPwm
  apply pwm duty = record pwm {
    ch1 = scale_duty duty.ta pwm.max_duty;
    ch2 = scale_duty duty.tb pwm.max_duty;
    ch3 = scale_duty duty.tc pwm.max_duty;
  }
