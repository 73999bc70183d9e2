-- ===== src/Foc/Math.antt =====
-- foc-algo/src/math: ramp.rs, pid.rs, filter.rs, circle_limitation.rs, decoupling.rs, and
-- loops/feedforward.rs. `none` is a panic of `f32::clamp`.
use rust_foc.Common.{ℕ, not, ◌&&◌, ◌||◌, Option, none, some, if◌then◌else◌, ◌>>=◌, ltb}
use rust_foc.Foc.Float.{Float, ◌⊕◌, ◌⊖◌, ◌⊗◌, ◌⊘◌, zero_f, one_f, clamp}

pub record Ramp (W : Type 0) : Type 0 where
  pub rate_limit : W
  pub value : W

pub record Pid (W : Type 0) : Type 0 where
  pub kp : W
  pub ki : W
  pub kd : W
  pub output_limit : W
  pub d_filter_cycles : ℕ
  pub integral : W
  pub prev_measurement : Option W
  pub d_state : W
  pub output : W

pub record LowPassFilter (W : Type 0) : Type 0 where
  pub cutoff_hz : W
  pub state : W

module _ {W : Type 0} ⦃fl : Float W⦄ where
  abbrev pub ramp_new : W → Ramp W
  ramp_new rate_limit = record { rate_limit = rate_limit; value = zero_f }

  abbrev pub ramp_set : Ramp W → W → Ramp W
  ramp_set r value = record r { value = value }

  abbrev pub ramp_reset : Ramp W → Ramp W
  ramp_reset r = record r { value = zero_f }

  unfoldable pub ramp_update : Ramp W → W → W → Option (Ramp W × W)
  ramp_update r target dt =
      if fl.le r.rate_limit zero_f then some (record r { value = target }, target) else do
        let max_step = r.rate_limit ⊗ dt
        step ← clamp (target ⊖ r.value) (fl.neg max_step) max_step
        let value = r.value ⊕ step
        some (record r { value = value }, value)

  abbrev pub pid_new : Pid W
  pid_new = record {
    kp = zero_f;
    ki = zero_f;
    kd = zero_f;
    output_limit = fl.max_value;
    d_filter_cycles = 0;
    integral = zero_f;
    prev_measurement = none;
    d_state = zero_f;
    output = zero_f;
  }

  abbrev pub pid_reset : Pid W → Pid W
  pid_reset p = record p {
    integral = zero_f;
    prev_measurement = none;
    d_state = zero_f;
    output = zero_f;
  }

  -- The derivative term, and the state of its low-pass.
  unfoldable pub derivative : Pid W → W → W → W × W
  derivative p measurement dt = elim p.prev_measurement [
    | none ↦ (zero_f, p.d_state)
    | some prev ↦
        if fl.lt zero_f dt
        then (let raw = (measurement ⊖ prev) ⊘ dt in
            let alpha =
              if ltb 0 p.d_filter_cycles
              then one_f ⊘ (one_f ⊕ fl.from p.d_filter_cycles)
              else one_f in
            let d_state = p.d_state ⊕ alpha ⊗ (raw ⊖ p.d_state) in (fl.neg p.kd ⊗ d_state, d_state))
        else (zero_f, p.d_state)
  ]

  unfoldable pub pid_update : Pid W → W → W → W → Option (Pid W × W)
  pid_update p setpoint measurement dt = do
    let error = setpoint ⊖ measurement
    let (d, d_state) = derivative p measurement dt
    let raw = p.kp ⊗ error ⊕ p.integral ⊕ d
    let integral =
        if fl.lt zero_f dt && fl.lt (fl.abs raw) p.output_limit
        then p.integral ⊕ p.ki ⊗ error ⊗ dt
        else p.integral
    output ← clamp raw (fl.neg p.output_limit) p.output_limit
    some (
      record p {
        integral = integral;
        prev_measurement = some measurement;
        d_state = d_state;
        output = output;
      },
      output,
    )

  unfoldable pub combine_pi_ff : Pid W → W → W → Option W
  combine_pi_ff p pi_output ff_total =
      clamp (pi_output ⊕ ff_total) (fl.neg p.output_limit) p.output_limit

  -- `2.0 * PI`
  abbrev pub two_pi : W
  two_pi = fl.literal 2 0 ⊗ fl.literal 314159274 8

  unfoldable pub filter_update : LowPassFilter W → W → W → Option (LowPassFilter W × W)
  filter_update l input dt = if fl.le l.cutoff_hz zero_f then some (l, input) else do
    alpha ← clamp (two_pi ⊗ l.cutoff_hz ⊗ dt) zero_f one_f
    let state = l.state ⊕ alpha ⊗ (input ⊖ l.state)
    some (record l { state = state }, state)

  unfoldable pub circle_limitation : W → W → W → W × W
  circle_limitation id iq i_max =
      if fl.le i_max zero_f
      then (zero_f, zero_f)
      else let square = id ⊗ id ⊕ iq ⊗ iq in
        if fl.le square (i_max ⊗ i_max)
        then (id, iq)
        else let magnitude = fl.sqrt square in
          if fl.le magnitude zero_f
          then (zero_f, zero_f)
          else (let k = i_max ⊘ magnitude in (id ⊗ k, iq ⊗ k))

  unfoldable pub decoupling_voltage : W → W → W → W → W → W → W × W
  decoupling_voltage omega_e ld lq flux_linkage id iq =
      if not (fl.is_finite omega_e)
        || not (fl.is_finite ld)
        || not (fl.is_finite lq)
        || not (fl.is_finite flux_linkage)
        || not (fl.is_finite id)
        || not (fl.is_finite iq)
      then (zero_f, zero_f)
      else (fl.neg omega_e ⊗ lq ⊗ iq, omega_e ⊗ (ld ⊗ id ⊕ flux_linkage))

  abbrev pub inertia_viscous : W → W → W → W → W
  inertia_viscous inertia_gain viscous_gain accel velocity =
      inertia_gain ⊗ accel ⊕ viscous_gain ⊗ velocity

  abbrev pub coulomb_friction : W → W → W
  coulomb_friction gain velocity =
      if fl.lt zero_f velocity then gain else if fl.lt velocity zero_f then fl.neg gain else zero_f
