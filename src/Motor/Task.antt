-- ===== src/Motor/Task.antt =====
-- src/tasks/motor.rs: one turn of the task's loop; and the commands of src/shell/commands.rs that
-- write the cell which it reads. Both sides take the cell in a critical section.
use rust_foc.Common.{ℕ, Bool, true, false, not, Option, some, if◌then◌else◌, ◌>>=◌, ◌&&◌, ◌||◌}
use rust_foc.Foc.Float.{Float, Trig, ◌⊖◌, ◌⊘◌, zero_f, half_f, max_f}
use rust_foc.Foc.Pwm.{Duty}
use rust_foc.Motor.OpenLoop.{
  OpenLoop, OpenLoopCmd, open_loop_new, step, cmd_default, max_openloop_v,
}
use rust_foc.Motor.Bridge.{MotorPwm, enable, disable, apply}

-- The variables of the task, the timer that it owns, and the cell.
pub record Motor (W : Type 0) : Type 0 where
  pub cmd : OpenLoopCmd W
  pub open_loop : OpenLoop W
  pub prev_enabled : Bool
  pub pwm : MotorPwm

-- What `run_spin` answers.
pub data Reply : Type 0 where
  spin_ok not_finite negative_freq negative_voltage : Reply

module _ {W : Type 0} ⦃fl : Float W⦄ where
  -- The task's period: 100 microseconds.
  abbrev pub tick_s : W
  tick_s = fl.literal 100 0 ⊘ fl.literal 1000000 0

  abbrev pub max_spin_freq_hz : W
  max_spin_freq_hz = fl.literal 5000 1

  unfoldable pub motor_new : MotorPwm → Motor W
  motor_new pwm = record {
    cmd = cmd_default;
    open_loop = open_loop_new (fl.literal 240 1);
    prev_enabled = false;
    pwm = pwm;
  }

  -- The largest distance of a phase from the centre.
  unfoldable pub max_deviation : Duty W → W
  max_deviation duty =
      max_f (max_f (fl.abs (duty.ta ⊖ half_f)) (fl.abs (duty.tb ⊖ half_f)))
        (fl.abs (duty.tc ⊖ half_f))

  -- The edge of `enabled`, the step, the duty, and the gate.
  unfoldable pub motor_tick : (W → ℕ) → Trig W → ℕ → Motor W → Option (Motor W)
  motor_tick to_u32 trig fuel m = do
    let gated = if not m.cmd.enabled && m.prev_enabled then disable m.pwm else m.pwm
    (open_loop, duty) ← step trig fuel m.open_loop m.cmd tick_s
    let driven = apply to_u32 gated duty
    let rising = m.cmd.enabled && not driven.moe && fl.lt (fl.literal 2 2) (max_deviation duty)
    some (record m {
      open_loop = open_loop;
      prev_enabled = m.cmd.enabled;
      pwm = if rising then enable driven else driven;
    })

  unfoldable pub run_spin : Motor W → W → W → Motor W × Reply
  run_spin m freq_hz voltage =
      if not (fl.is_finite freq_hz) || not (fl.is_finite voltage)
      then (m, not_finite)
      else if fl.lt freq_hz zero_f
      then (m, negative_freq)
      else if fl.lt voltage zero_f
      then (m, negative_voltage)
      else (
        record m {
          cmd = record {
            enabled = true;
            freq_hz = if fl.lt max_spin_freq_hz freq_hz then max_spin_freq_hz else freq_hz;
            voltage = if fl.lt max_openloop_v voltage then max_openloop_v else voltage;
          };
        },
        spin_ok,
      )

  unfoldable pub run_stop_inner : Motor W → Motor W
  run_stop_inner m = record m { cmd = record m.cmd { enabled = false } }
