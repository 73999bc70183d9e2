-- ===== src/Foc/Loops.antt =====
-- foc-algo/src/loops: speed.rs, position.rs and current.rs. A feedforward callback is a function.
use rust_foc.Common.{Bool, false, not, ◌&&◌, ◌||◌, Option, none, some, if◌then◌else◌, ◌>>=◌}
use rust_foc.Foc.Float.{Float, Trig, ◌⊕◌, zero_f}
use rust_foc.Foc.Math.{Pid, pid_new, pid_update, combine_pi_ff, circle_limitation}
use rust_foc.Foc.Pwm.{
  Duty, Svpwm, zero_duty, svpwm_new, svpwm_update, set_vdc, clark_balanced, park, inv_park,
}

pub record SpeedRuntime (W : Type 0) : Type 0 where
  pub pi_output : W
  pub ff_total : W
  pub speed_measured : W

pub record SpeedLoopController (W : Type 0) : Type 0 where
  pub pid : Pid W
  pub ff_callback : Option (W → W → W → W)
  pub runtime : SpeedRuntime W

pub record PositionRuntime (W : Type 0) : Type 0 where
  pub pi_output : W
  pub ff_total : W
  pub position_measured : W

pub record PositionLoopController (W : Type 0) : Type 0 where
  pub pid : Pid W
  pub ff_callback : Option (W → W → W → W → W)
  pub runtime : PositionRuntime W

pub record CurrentRuntime (W : Type 0) : Type 0 where
  pub id : W
  pub iq : W
  pub vd : W
  pub vq : W
  pub pi_d_output : W
  pub pi_q_output : W
  pub vd_ff : W
  pub vq_ff : W
  pub voltage_limited : Bool
  pub duty : Duty W

pub record CurrentLoop (W : Type 0) : Type 0 where
  pub d_pid : Pid W
  pub q_pid : Pid W
  pub runtime : CurrentRuntime W
  pub svpwm : Svpwm W
  pub v_max : W

module _ {W : Type 0} ⦃fl : Float W⦄ where
  abbrev pub speed_runtime_default : SpeedRuntime W
  speed_runtime_default = record { pi_output = zero_f; ff_total = zero_f; speed_measured = zero_f }

  abbrev pub speed_loop_default : SpeedLoopController W
  speed_loop_default = record {
    pid = record pid_new { output_limit = fl.literal 300 1 };
    ff_callback = none;
    runtime = speed_runtime_default;
  }

  unfoldable pub speed_update :
      SpeedLoopController W → W → W → W → W → Option (SpeedLoopController W × W)
  speed_update c speed_ref speed accel dt = do
    (pid, pi_out) ← pid_update c.pid speed_ref speed dt
    let ff : W = elim c.ff_callback [ none ↦ zero_f | some f ↦ f speed_ref speed accel ]
    out ← combine_pi_ff pid pi_out ff
    some (
      record c {
        pid = pid;
        runtime = record { pi_output = pi_out; ff_total = ff; speed_measured = speed };
      },
      out,
    )

  abbrev pub position_runtime_default : PositionRuntime W
  position_runtime_default = record {
    pi_output = zero_f;
    ff_total = zero_f;
    position_measured = zero_f;
  }

  abbrev pub position_loop_default : PositionLoopController W
  position_loop_default = record {
    pid = record pid_new { output_limit = fl.literal 1000 1 };
    ff_callback = none;
    runtime = position_runtime_default;
  }

  unfoldable pub position_update :
      PositionLoopController W → W → W → W → W → W → Option (PositionLoopController W × W)
  position_update c position_ref position velocity accel dt = do
    (pid, pi_out) ← pid_update c.pid position_ref position dt
    let ff : W = elim c.ff_callback [
      | none ↦ zero_f
      | some f ↦ f position_ref position velocity accel
    ]
    out ← combine_pi_ff pid pi_out ff
    some (
      record c {
        pid = pid;
        runtime = record { pi_output = pi_out; ff_total = ff; position_measured = position };
      },
      out,
    )

  abbrev pub current_runtime_default : CurrentRuntime W
  current_runtime_default = record {
    id = zero_f;
    iq = zero_f;
    vd = zero_f;
    vq = zero_f;
    pi_d_output = zero_f;
    pi_q_output = zero_f;
    vd_ff = zero_f;
    vq_ff = zero_f;
    voltage_limited = false;
    duty = zero_duty;
  }

  abbrev pub current_loop_new : CurrentLoop W
  current_loop_new = record {
    d_pid = pid_new;
    q_pid = pid_new;
    runtime = current_runtime_default;
    svpwm = svpwm_new zero_f;
    v_max = fl.max_value;
  }

  abbrev pub current_set_vdc : CurrentLoop W → W → CurrentLoop W
  current_set_vdc c vdc = record c { svpwm = set_vdc c.svpwm vdc }

  abbrev pub set_v_max : CurrentLoop W → W → CurrentLoop W
  set_v_max c v_max = record c { v_max = if fl.lt zero_f v_max then v_max else fl.max_value }

  -- `!=` on `f32`: a NaN differs from everything.
  abbrev pub differs : W → W → Bool
  differs x y = not (fl.le x y && fl.le y x)

  -- The voltage limit: the voltages that are applied, and whether they were limited.
  unfoldable pub limit_voltage : W → W → W → W × W × Bool
  limit_voltage v_max vd vq =
      if fl.lt v_max fl.max_value
      then (let (vd_c, vq_c) = circle_limitation vd vq v_max in
          (vd_c, vq_c, differs vd_c vd || differs vq_c vq))
      else (vd, vq, false)

  unfoldable pub current_update :
      Trig W → CurrentLoop W → W → W → W → W → W → W → W → W → Option (CurrentLoop W × Duty W)
  current_update trig c ia ib angle id_ref iq_ref vd_ff vq_ff dt = do
    let dq = park trig (clark_balanced ia ib) angle
    (d_pid, vd_pi) ← pid_update c.d_pid id_ref dq.d dt
    (q_pid, vq_pi) ← pid_update c.q_pid iq_ref dq.q dt
    let (vd, vq, limited) = limit_voltage c.v_max (vd_pi ⊕ vd_ff) (vq_pi ⊕ vq_ff)
    let v_ab = inv_park trig (record { d = vd; q = vq }) angle
    svpwm ← svpwm_update c.svpwm v_ab.alpha v_ab.beta
    some (
      record c {
        d_pid = d_pid;
        q_pid = q_pid;
        svpwm = svpwm;
        runtime = record {
          id = dq.d;
          iq = dq.q;
          vd = vd;
          vq = vq;
          pi_d_output = vd_pi;
          pi_q_output = vq_pi;
          vd_ff = vd_ff;
          vq_ff = vq_ff;
          voltage_limited = limited;
          duty = svpwm.duty;
        };
      },
      svpwm.duty,
    )
