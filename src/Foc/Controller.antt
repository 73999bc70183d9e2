-- ===== src/Foc/Controller.antt =====
-- foc-algo/src/cascade.rs: one cycle of the controller. `none` is a panic.
use rust_foc.Foc.Pwm.{inv_sqrt_3, zero_duty}
use rust_foc.Foc.Loops.{
  current_update, position_runtime_default, speed_runtime_default, speed_update, current_set_vdc,
  position_update, current_runtime_default, set_v_max,
}
use rust_foc.Foc.Math.{
  ramp_reset, decoupling_voltage, ramp_set, pid_reset, ramp_update, circle_limitation, Pid,
}
use rust_foc.Common.{Bool, true, false, not, ◌&&◌, ◌||◌, Option, none, some, if◌then◌else◌, ◌>>=◌}
use rust_foc.Foc.Float.{Float, Trig, ◌⊕◌, ◌⊖◌, ◌⊗◌, zero_f}
use rust_foc.Foc.State.{
  Target, Meas, Mode, is_off, same_mode, FocController, off, align, torque, speed, position,
}

module _ {W : Type 0} ⦃fl : Float W⦄ where
  -- All measurements and setpoints are finite.
  abbrev pub all_finite : Meas W → Target W → Bool
  all_finite m t =
      fl.is_finite m.ia
      && fl.is_finite m.ib
      && fl.is_finite m.theta
      && fl.is_finite m.vdc
      && fl.is_finite m.speed
      && fl.is_finite m.position
      && fl.is_finite m.accel
      && fl.is_finite t.iq
      && fl.is_finite t.id_ref
      && fl.is_finite t.speed_ref
      && fl.is_finite t.position

  abbrev pub inputs_finite : FocController W → Bool
  inputs_finite c = all_finite c.meas c.target

  abbrev pub seed_ramps : Mode → FocController W → FocController W
  seed_ramps speed c = record c { speed_ramp = ramp_set c.speed_ramp c.meas.speed }
  seed_ramps position c = record c {
    speed_ramp = ramp_set c.speed_ramp c.meas.speed;
    pos_ramp = ramp_set c.pos_ramp c.meas.position;
  }
  seed_ramps torque c = c
  seed_ramps off c = c
  seed_ramps align c = c

  abbrev pub seed_ramps_on_mode_change : FocController W → FocController W
  seed_ramps_on_mode_change c = seed_ramps c.mode c

  abbrev cleared : Pid W → Pid W
  cleared p = record p { integral = zero_f; prev_measurement = none }

  unfoldable pub zero_integrators : FocController W → FocController W
  zero_integrators c = record c {
    current = record c.current { d_pid = cleared c.current.d_pid; q_pid = cleared c.current.q_pid };
    speed_loop = record c.speed_loop { pid = record c.speed_loop.pid { integral = zero_f } };
    position_loop = record c.position_loop {
      pid = record c.position_loop.pid { integral = zero_f };
    };
  }

  unfoldable pub reset : FocController W → FocController W
  reset c = record c {
    position_loop = record c.position_loop { pid = pid_reset c.position_loop.pid };
    speed_loop = record c.speed_loop { pid = pid_reset c.speed_loop.pid };
    current = record c.current {
      d_pid = pid_reset c.current.d_pid;
      q_pid = pid_reset c.current.q_pid;
    };
    pos_ramp = ramp_reset c.pos_ramp;
    speed_ramp = ramp_reset c.speed_ramp;
    iq_ramp = ramp_reset c.iq_ramp;
  }

  unfoldable pub apply_off_state : FocController W → FocController W
  unfolding reset
  apply_off_state c =
      let quiet = record c {
        runtime = record c.runtime {
          iq_target = zero_f;
          iq_command = zero_f;
          id_command = zero_f;
          speed_target = zero_f;
          current_limited = false;
          demag_limited = false;
        };
        duty = zero_duty;
        current = record c.current { runtime = current_runtime_default };
        speed_loop = record c.speed_loop { runtime = speed_runtime_default };
        position_loop = record c.position_loop { runtime = position_runtime_default };
      } in
      let after = if c.reset_on_off then reset quiet else quiet in record after { prev_mode = off }

  -- The speed loop and the ramp behind it.
  unfoldable pub speed_chain : FocController W → W → W → Option (FocController W × W × W)
  speed_chain c target dt = do
    (speed_ramp, speed_ref) ← ramp_update c.speed_ramp target dt
    (speed_loop, iq) ← speed_update c.speed_loop speed_ref c.meas.speed c.meas.accel dt
    (iq_ramp, iq_final) ← ramp_update c.iq_ramp iq dt
    some (
      record c { speed_ramp = speed_ramp; speed_loop = speed_loop; iq_ramp = iq_ramp },
      iq_final,
      speed_ref,
    )

  unfoldable pub position_chain : FocController W → W → Option (FocController W × W × W)
  position_chain c dt = do
    (pos_ramp, pos_ref) ← ramp_update c.pos_ramp c.target.position dt
    (position_loop, omega) ←
        position_update c.position_loop pos_ref c.meas.position c.meas.speed c.meas.accel dt
    speed_chain (record c { pos_ramp = pos_ramp; position_loop = position_loop }) omega dt

  unfoldable pub torque_chain : FocController W → W → Option (FocController W × W × W)
  torque_chain c dt = do
    (iq_ramp, iq) ← ramp_update c.iq_ramp c.target.iq dt
    some (record c { iq_ramp = iq_ramp }, iq, zero_f)

  -- The targets of iq and of the speed in a mode; the arm for `off` is unreachable.
  unfoldable pub loop_output : Mode → FocController W → W → Option (FocController W × W × W)
  loop_output off c dt = none
  loop_output align c dt = some (c, zero_f, zero_f)
  loop_output torque c dt = torque_chain c dt
  loop_output speed c dt = speed_chain c c.target.speed_ref dt
  loop_output position c dt = position_chain c dt

  unfoldable pub apply_circle_limit : FocController W → W → W × W × Bool
  apply_circle_limit c iq_target =
      if fl.le c.current_limit zero_f
      then (c.target.id_ref, iq_target, false)
      else let (id, iq) = circle_limitation c.target.id_ref iq_target c.current_limit in
        let eps = fl.literal 1 4 ⊗ c.current_limit in
        (id, iq, fl.lt eps (fl.abs (id ⊖ c.target.id_ref)) || fl.lt eps (fl.abs (iq ⊖ iq_target)))

  -- Step 4b: the floor of the d-axis current.
  unfoldable pub demag_limit : W → W → W × Bool
  demag_limit i_demag id_cmd =
      if fl.lt i_demag zero_f && fl.lt id_cmd i_demag then (i_demag, true) else (id_cmd, false)

  -- Step 5: the feedforward voltages.
  unfoldable pub feedforward : FocController W → W → W → W × W
  feedforward c id_cmd iq_cmd =
      if c.decoupling
      then elim c.motor [
        | none ↦ (zero_f, zero_f)
        | some m ↦
            let omega_e = c.meas.speed ⊗ fl.from m.pole_pairs in
            if fl.lt zero_f c.decoupling_speed_threshold
              && fl.lt (fl.abs omega_e) c.decoupling_speed_threshold
            then (zero_f, zero_f)
            else decoupling_voltage omega_e m.ld m.lq m.flux_linkage id_cmd iq_cmd
      ]
      else (zero_f, zero_f)

  -- Steps 4 to 6, after the loops.
  unfoldable pub drive : Trig W → FocController W → W → W → W → Option (FocController W)
  drive trig c iq_target speed_target dt = do
    let (id_raw, iq_cmd, limited) = apply_circle_limit c iq_target
    let (id_cmd, demag) = demag_limit c.i_demag id_raw
    let (vd_ff, vq_ff) = feedforward c id_cmd iq_cmd
    let current = set_v_max (current_set_vdc c.current c.meas.vdc) (c.meas.vdc ⊗ inv_sqrt_3)
    (current', duty) ←
        current_update trig current c.meas.ia c.meas.ib c.meas.theta id_cmd iq_cmd vd_ff vq_ff dt
    some (record c {
      prev_mode = c.mode;
      runtime = record {
        iq_target = iq_target;
        speed_target = speed_target;
        id_command = id_cmd;
        iq_command = iq_cmd;
        current_limited = limited;
        demag_limited = demag;
      };
      current = current';
      duty = duty;
    })

  -- Step 1: the ramps are seeded when the mode has changed.
  unfoldable pub seeded : FocController W → FocController W
  seeded c = if same_mode c.mode c.prev_mode then c else seed_ramps_on_mode_change c

  -- `update_align_timer`, in the mode that it is for.
  unfoldable pub timed : Mode → FocController W → W → FocController W
  timed mode c dt =
      if same_mode mode align then record c { align_elapsed_s = c.align_elapsed_s ⊕ dt } else c

  -- Steps 2 to 6.
  unfoldable pub in_mode : Trig W → Mode → FocController W → W → Option (FocController W)
  in_mode trig mode c dt = if is_off mode then some (apply_off_state c) else do
    (c', iq_target, speed_target) ← loop_output mode (timed mode c dt) dt
    drive trig c' iq_target speed_target dt

  -- Steps 1 to 6, with finite inputs; the seeding leaves the mode as it is.
  unfoldable pub run_cycle : Trig W → FocController W → W → Option (FocController W)
  run_cycle trig c dt = in_mode trig c.mode (seeded c) dt

  unfoldable pub update : Trig W → FocController W → W → Option (FocController W)
  update trig c dt =
      if not (fl.is_finite dt) || fl.le dt zero_f
      then some c
      else if inputs_finite c
      then run_cycle trig c dt
      else some (record (zero_integrators c) { duty = zero_duty })
