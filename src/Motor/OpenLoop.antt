-- ===== src/Motor/OpenLoop.antt =====
-- src/motor/open_loop.rs and src/motor/cmd.rs: the rotating voltage vector. `none` is a panic, or a
-- loop that has not ended on its fuel.
use rust_foc.Common.{ℕ, zero, suc, Bool, false, Option, none, some, if◌then◌else◌, ◌>>=◌, ◌&&◌}
use rust_foc.Foc.Float.{Float, Trig, ◌⊕◌, ◌⊖◌, ◌⊗◌, zero_f, clamp}
use rust_foc.Foc.Math.{Ramp, ramp_new, ramp_update}
use rust_foc.Foc.Pwm.{Svpwm, svpwm_new, svpwm_update, Duty}

pub record OpenLoopCmd (W : Type 0) : Type 0 where
  pub enabled : Bool
  pub freq_hz : W
  pub voltage : W

pub record OpenLoop (W : Type 0) : Type 0 where
  pub theta : W
  pub voltage_ramp : Ramp W
  pub svpwm : Svpwm W

module _ {W : Type 0} ⦃fl : Float W⦄ where
  -- `core::f32::consts::TAU`
  abbrev pub tau : W
  tau = fl.literal 628318530717958647692528676655900577 35

  abbrev pub max_openloop_v : W
  max_openloop_v = fl.literal 30 1

  abbrev pub cmd_default : OpenLoopCmd W
  cmd_default = record { enabled = false; freq_hz = zero_f; voltage = zero_f }

  -- The first loop of `advance_angle`, then the second.
  unfoldable pub raise : ℕ → W → Option W
  raise zero next = none
  raise (suc fuel) next =
      let rest = raise fuel (next ⊕ tau) in if fl.lt next zero_f then rest else some next

  unfoldable pub lower : ℕ → W → Option W
  lower zero next = none
  lower (suc fuel) next =
      let rest = lower fuel (next ⊖ tau) in if fl.le tau next then rest else some next

  unfoldable pub advance_angle : ℕ → W → W → W → Option W
  advance_angle fuel theta freq_hz dt =
      if fl.le dt zero_f then some theta else raise fuel (theta ⊕ tau ⊗ freq_hz ⊗ dt) >>= lower fuel

  abbrev pub voltage_vector : Trig W → W → W → W × W
  voltage_vector trig voltage theta = (voltage ⊗ trig.cos theta, voltage ⊗ trig.sin theta)

  unfoldable pub open_loop_new : W → OpenLoop W
  open_loop_new vdc = record {
    theta = zero_f;
    voltage_ramp = ramp_new (fl.literal 50 1);
    svpwm = svpwm_new vdc;
  }

  unfoldable pub target_voltage : OpenLoopCmd W → Option W
  target_voltage cmd = if cmd.enabled then clamp cmd.voltage zero_f max_openloop_v else some zero_f

  -- The angle only moves while the command is enabled and the voltage is not near 0.
  unfoldable pub next_theta : ℕ → OpenLoop W → OpenLoopCmd W → W → W → Option W
  next_theta fuel o cmd v dt =
      if cmd.enabled && fl.lt (fl.literal 1 6) (fl.abs v)
      then advance_angle fuel o.theta cmd.freq_hz dt
      else some o.theta

  unfoldable pub step : Trig W → ℕ → OpenLoop W → OpenLoopCmd W → W → Option (OpenLoop W × Duty W)
  step trig fuel o cmd dt = do
    target_v ← target_voltage cmd
    (voltage_ramp, v) ← ramp_update o.voltage_ramp target_v dt
    theta ← next_theta fuel o cmd v dt
    let (v_alpha, v_beta) = voltage_vector trig v theta
    svpwm ← svpwm_update o.svpwm v_alpha v_beta
    some (record { theta = theta; voltage_ramp = voltage_ramp; svpwm = svpwm }, svpwm.duty)
