-- ===== src/Foc/State.antt =====
-- foc-algo/src: state.rs, MotorParams of motor.rs, and the fields of the controller of cascade.rs.
use rust_foc.Foc.Loops.{
  CurrentLoop, current_loop_new, SpeedLoopController, speed_loop_default, position_loop_default,
  PositionLoopController,
}
use rust_foc.Foc.Pwm.{zero_duty, Duty}
use rust_foc.Foc.Math.{Ramp, ramp_new}
use rust_foc.Common.{ℕ, Bool, true, false, Option, none}
use rust_foc.Foc.Float.{Float, zero_f}

pub data Mode : Type 0 where
  off align torque speed position : Mode

pub record Target (W : Type 0) : Type 0 where
  pub iq : W
  pub speed_ref : W
  pub position : W
  pub id_ref : W

pub record Meas (W : Type 0) : Type 0 where
  pub position : W
  pub speed : W
  pub accel : W
  pub ia : W
  pub ib : W
  pub theta : W
  pub vdc : W

pub record ControllerState (W : Type 0) : Type 0 where
  pub iq_target : W
  pub id_command : W
  pub iq_command : W
  pub speed_target : W
  pub current_limited : Bool
  pub demag_limited : Bool

pub record MotorParams (W : Type 0) : Type 0 where
  pub r : W
  pub ld : W
  pub lq : W
  pub flux_linkage : W
  pub pole_pairs : ℕ
  pub continuous_current : W
  pub inertia : W

pub record FocController (W : Type 0) : Type 0 where
  pub mode : Mode
  pub target : Target W
  pub meas : Meas W
  pub runtime : ControllerState W
  pub duty : Duty W
  pub pos_ramp : Ramp W
  pub speed_ramp : Ramp W
  pub iq_ramp : Ramp W
  pub current_limit : W
  pub motor : Option (MotorParams W)
  pub decoupling : Bool
  pub decoupling_speed_threshold : W
  pub i_demag : W
  pub align_elapsed_s : W
  pub align_duration_s : W
  pub reset_on_off : Bool
  pub position_loop : PositionLoopController W
  pub speed_loop : SpeedLoopController W
  pub current : CurrentLoop W
  pub prev_mode : Mode

abbrev pub same_mode : Mode → Mode → Bool
same_mode off off = true
same_mode align align = true
same_mode torque torque = true
same_mode speed speed = true
same_mode position position = true
same_mode _ _ = false

abbrev pub is_off : Mode → Bool
is_off m = same_mode m off

module _ {W : Type 0} ⦃fl : Float W⦄ where
  abbrev pub controller_new : Mode → FocController W
  controller_new mode = record {
    mode = mode;
    target = record { iq = zero_f; speed_ref = zero_f; position = zero_f; id_ref = zero_f };
    meas = record {
      position = zero_f;
      speed = zero_f;
      accel = zero_f;
      ia = zero_f;
      ib = zero_f;
      theta = zero_f;
      vdc = zero_f;
    };
    runtime = record {
      iq_target = zero_f;
      id_command = zero_f;
      iq_command = zero_f;
      speed_target = zero_f;
      current_limited = false;
      demag_limited = false;
    };
    duty = zero_duty;
    pos_ramp = ramp_new zero_f;
    speed_ramp = ramp_new zero_f;
    iq_ramp = ramp_new (fl.literal 10000 1);
    current_limit = zero_f;
    motor = none;
    decoupling = false;
    decoupling_speed_threshold = zero_f;
    i_demag = zero_f;
    align_elapsed_s = zero_f;
    align_duration_s = zero_f;
    reset_on_off = false;
    position_loop = position_loop_default;
    speed_loop = speed_loop_default;
    current = current_loop_new;
    prev_mode = off;
  }
