-- ===== src/Foc/Chains.antt =====
-- foc-algo/src/cascade.rs: the loops of a mode and the drive of the bridge succeed on a controller
-- that meets the invariant.

use rust_foc.Foc.Loops.{position_update, current_update, speed_update}
use rust_foc.Foc.Math.{ramp_update}
use rust_foc.Foc.Total.{
  position_update-Yields, current_update-Yields, speed_update-Yields, ramp_update-Yields,
  Yields->>=, Yields, IsPeriod,
}
use rust_foc.Foc.Controller.{
  demag_limit, torque_chain, loop_output, drive, position_chain, speed_chain,
}
use rust_foc.Foc.Float.{zero_f, Trig, IsIeee, Float}
use rust_foc.Common.{true, ◌≡◌, Bool-cases, refl, false, inl, inr, arith}
use rust_foc.Foc.State.{is_off, FocController, Mode, off, align, torque, speed, position}
use rust_foc.Foc.Valid.{IsValid, IsKept}

module _ {W : Type 0} ⦃fl : Float W⦄ (ieee : IsIeee fl) where
  speed_chain-Yields :
      (c : FocController W) (target dt : W)
      → IsValid ieee c
      → IsPeriod ieee dt
      → Yields (speed_chain c target dt) (λ x. IsKept ieee c c.align_elapsed_s x.0)
  unfolding speed_chain
  speed_chain-Yields c target dt v h =
      Yields->>= (ramp_update c.speed_ramp target dt) _ _ _
        (ramp_update-Yields ieee c.speed_ramp target dt v.speed_ramp h)
        (λ (speed_ramp, speed_ref) same_speed.
          Yields->>= (speed_update c.speed_loop speed_ref c.meas.speed c.meas.accel dt) _ _ _
            (speed_update-Yields ieee c.speed_loop speed_ref c.meas.speed c.meas.accel dt
              v.speed_pid)
            (λ (speed_loop, iq) pid.
              Yields->>= (ramp_update c.iq_ramp iq dt) _ _ _
                (ramp_update-Yields ieee c.iq_ramp iq dt v.iq_ramp h)
                (λ (iq_ramp, iq_final) same_iq. (
                  _,
                  refl,
                  (
                    record {
                      pos_ramp = v.pos_ramp;
                      speed_ramp = rw same_speed v.speed_ramp;
                      iq_ramp = rw same_iq v.iq_ramp;
                      position_pid = v.position_pid;
                      speed_pid = pid;
                      d_pid = v.d_pid;
                      q_pid = v.q_pid;
                      duty = v.duty;
                    },
                    refl,
                    refl,
                  ),
                ))))

  position_chain-Yields :
      (c : FocController W) (dt : W)
      → IsValid ieee c
      → IsPeriod ieee dt
      → Yields (position_chain c dt) (λ x. IsKept ieee c c.align_elapsed_s x.0)
  unfolding position_chain
  position_chain-Yields c dt v h =
      Yields->>= (ramp_update c.pos_ramp c.target.position dt) _ _ _
        (ramp_update-Yields ieee c.pos_ramp c.target.position dt v.pos_ramp h)
        (λ (pos_ramp, pos_ref) same.
          Yields->>=
            (position_update c.position_loop pos_ref c.meas.position c.meas.speed c.meas.accel dt) _
            _ _
            (position_update-Yields ieee c.position_loop pos_ref c.meas.position c.meas.speed
              c.meas.accel dt v.position_pid)
            (λ (position_loop, omega) pid.
              speed_chain-Yields (record c { pos_ramp = pos_ramp; position_loop = position_loop })
                omega dt
                (record {
                  pos_ramp = rw same v.pos_ramp;
                  speed_ramp = v.speed_ramp;
                  iq_ramp = v.iq_ramp;
                  position_pid = pid;
                  speed_pid = v.speed_pid;
                  d_pid = v.d_pid;
                  q_pid = v.q_pid;
                  duty = v.duty;
                })
                h))

  torque_chain-Yields :
      (c : FocController W) (dt : W)
      → IsValid ieee c
      → IsPeriod ieee dt
      → Yields (torque_chain c dt) (λ x. IsKept ieee c c.align_elapsed_s x.0)
  unfolding torque_chain
  torque_chain-Yields c dt v h =
      Yields->>= (ramp_update c.iq_ramp c.target.iq dt) _ _ _
        (ramp_update-Yields ieee c.iq_ramp c.target.iq dt v.iq_ramp h)
        (λ (iq_ramp, iq) same. (
          _,
          refl,
          (
            record {
              pos_ramp = v.pos_ramp;
              speed_ramp = v.speed_ramp;
              iq_ramp = rw same v.iq_ramp;
              position_pid = v.position_pid;
              speed_pid = v.speed_pid;
              d_pid = v.d_pid;
              q_pid = v.q_pid;
              duty = v.duty;
            },
            refl,
            refl,
          ),
        ))

  -- The loops of a mode other than `off`.
  pub loop_output-Yields :
      (mode : Mode) (c : FocController W) (dt : W)
      → is_off mode ≡ false
      → IsValid ieee c
      → IsPeriod ieee dt
      → Yields (loop_output mode c dt) (λ x. IsKept ieee c c.align_elapsed_s x.0)
  unfolding loop_output
  loop_output-Yields off c dt on v h = absurd (ground arith)
  loop_output-Yields align c dt on v h = ((c, zero_f, zero_f), refl, (v, refl, refl))
  loop_output-Yields torque c dt on v h = torque_chain-Yields c dt v h
  loop_output-Yields speed c dt on v h = speed_chain-Yields c c.target.speed_ref dt v h
  loop_output-Yields position c dt on v h = position_chain-Yields c dt v h

  -- With a limit of the demagnetising current, the command on the d axis is not below it.
  abbrev pub IsFloored : W → FocController W → Type 0
  IsFloored i_demag c = fl.lt i_demag zero_f ≡ true → fl.lt c.runtime.id_command i_demag ≡ false

  demag_limit-above :
      (i_demag id_cmd : W)
      → fl.lt i_demag zero_f ≡ true
      → fl.lt (demag_limit i_demag id_cmd).0 i_demag ≡ false
  unfolding demag_limit
  demag_limit-above i_demag id_cmd h = elim (Bool-cases (fl.lt id_cmd i_demag)) [
    | inl low ↦ rw (h, low) (ieee.lt_irrefl i_demag)
    | inr fine ↦ rw (h, fine) fine
  ]

  pub drive-Yields :
      (trig : Trig W) (c : FocController W) (iq_target speed_target dt : W)
      → IsValid ieee c
      → Yields
          (drive trig c iq_target speed_target dt)
          (λ c'. IsKept ieee c c.align_elapsed_s c' × IsFloored c.i_demag c')
  unfolding drive
  drive-Yields trig c iq_target speed_target dt v =
      Yields->>= (current_update trig _ _ _ _ _ _ _ _ dt) _ _ _
        (current_update-Yields ieee trig _ _ _ _ _ _ _ _ dt v.d_pid v.q_pid)
        (λ (current, duty) (d, q, within). (
          _,
          refl,
          (
            (
              record {
                pos_ramp = v.pos_ramp;
                speed_ramp = v.speed_ramp;
                iq_ramp = v.iq_ramp;
                position_pid = v.position_pid;
                speed_pid = v.speed_pid;
                d_pid = d;
                q_pid = q;
                duty = within;
              },
              refl,
              refl,
            ),
            λ h. demag_limit-above c.i_demag _ h,
          ),
        ))
