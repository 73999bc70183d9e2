-- ===== src/Foc/Gains.antt =====
-- foc-algo/src/motor.rs: gains and references from the constants of the motor. `none` is a failed debug
-- assertion. `f32::consts::PI` is the literal that it is defined by.
use rust_foc.Common.{Bool, ◌&&◌, Option, none, some, if◌then◌else◌, ltb}
use rust_foc.Foc.Float.{Float, half_f, zero_f, ◌⊕◌, ◌⊖◌, ◌⊗◌, ◌⊘◌}
use rust_foc.Foc.State.{MotorParams}

module _ {W : Type 0} ⦃fl : Float W⦄ where
  -- `2.0 * PI * bandwidth_hz`
  abbrev pub angular : W → W
  angular bandwidth_hz =
      fl.literal 2 0 ⊗ fl.literal 314159265358979323846264338327950288 35 ⊗ bandwidth_hz

  abbrev pub positive : W → Bool
  positive x = fl.lt zero_f x

  unfoldable pub current_pi_gains : MotorParams W → W → Option (W × W)
  current_pi_gains p bandwidth_hz =
      let l_avg = half_f ⊗ (p.ld ⊕ p.lq) in
      if positive bandwidth_hz && positive p.r && positive l_avg
      then some (angular bandwidth_hz ⊗ l_avg, angular bandwidth_hz ⊗ p.r)
      else none

  unfoldable pub current_d_pi_gains : MotorParams W → W → Option (W × W)
  current_d_pi_gains p bandwidth_hz =
      if positive bandwidth_hz && positive p.r && positive p.ld
      then some (angular bandwidth_hz ⊗ p.ld, angular bandwidth_hz ⊗ p.r)
      else none

  unfoldable pub current_q_pi_gains : MotorParams W → W → Option (W × W)
  current_q_pi_gains p bandwidth_hz =
      if positive bandwidth_hz && positive p.r && positive p.lq
      then some (angular bandwidth_hz ⊗ p.lq, angular bandwidth_hz ⊗ p.r)
      else none

  unfoldable pub speed_pi_gains : MotorParams W → W → W → Option (W × W)
  speed_pi_gains p bandwidth_hz current_bandwidth_hz =
      if positive bandwidth_hz && fl.lt bandwidth_hz current_bandwidth_hz && positive p.inertia
      then (let kp = p.inertia ⊗ angular bandwidth_hz in
          some (kp, kp ⊗ angular bandwidth_hz ⊘ fl.literal 4 0))
      else none

  unfoldable pub torque_to_iq : MotorParams W → W → Option W
  torque_to_iq p torque =
      if positive p.flux_linkage && ltb 0 p.pole_pairs
      then some (torque ⊘ (fl.literal 15 1 ⊗ fl.from p.pole_pairs ⊗ p.flux_linkage))
      else none

  unfoldable pub torque_to_iq_ipm : MotorParams W → W → W → Option W
  torque_to_iq_ipm p torque id =
      let denom = p.flux_linkage ⊕ (p.ld ⊖ p.lq) ⊗ id in
      if ltb 0 p.pole_pairs && fl.lt (fl.literal 1 12) (fl.abs denom)
      then some (torque ⊘ (fl.literal 15 1 ⊗ fl.from p.pole_pairs ⊗ denom))
      else none

  unfoldable pub smo_slide_gain : MotorParams W → W → W → W
  smo_slide_gain p max_speed_rads safety_factor = safety_factor ⊗ p.flux_linkage ⊗ max_speed_rads
