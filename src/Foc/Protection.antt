-- ===== src/Foc/Protection.antt =====
-- foc-algo/src/protection.rs: what protects the motor. `none` is a panic of `f32::clamp`.
use rust_foc.Common.{ℕ, Bool, false, Option, none, some, if◌then◌else◌, ◌-◌, ltb, ◌>>=◌}
use rust_foc.Foc.Float.{Float, ◌⊕◌, ◌⊖◌, ◌⊗◌, ◌⊘◌, zero_f, one_f, max_f, clamp}

pub record I2tLimiter (W : Type 0) : Type 0 where
  pub i_rated : W
  pub limit : W
  pub cooling_rate : W
  pub accumulator : W

pub record InstantOvercurrent (W : Type 0) : Type 0 where
  pub threshold_a : W

pub record BusVoltageMonitor (W : Type 0) : Type 0 where
  pub vdc_min : W
  pub vdc_max : W

-- The result of `check`: `Ok`, and `Err` with its two labels.
pub data Bus : Type 0 where
  in_window undervoltage overvoltage : Bus

pub record StallDetector (W : Type 0) : Type 0 where
  pub min_speed_rad_s : W
  pub min_iq_after_ms : ℕ
  pub armed_at_ms : Option ℕ

module _ {W : Type 0} ⦃fl : Float W⦄ where
  unfoldable pub i2t_new : W → W → W → I2tLimiter W
  i2t_new i_rated limit cooling_rate = record {
    i_rated = i_rated;
    limit = limit;
    cooling_rate = cooling_rate;
    accumulator = zero_f;
  }

  unfoldable pub factor : I2tLimiter W → W
  factor l = if fl.le l.limit zero_f then one_f else max_f (one_f ⊖ l.accumulator ⊘ l.limit) zero_f

  -- The accumulator before it is limited.
  unfoldable pub heated : I2tLimiter W → W → W → W
  heated l i_actual dt =
      let warm = l.accumulator ⊕ (i_actual ⊗ i_actual ⊖ l.i_rated ⊗ l.i_rated) ⊗ dt in
      warm ⊖ l.cooling_rate ⊗ warm ⊗ dt

  unfoldable pub foldback : I2tLimiter W → W → W → Option (I2tLimiter W × W)
  foldback l i_actual dt = if fl.le dt zero_f then some (l, factor l) else do
    accumulator ← clamp (heated l i_actual dt) zero_f l.limit
    let l' = record l { accumulator = accumulator }
    some (l', factor l')

  unfoldable pub i2t_reset : I2tLimiter W → I2tLimiter W
  i2t_reset l = record l { accumulator = zero_f }

  unfoldable pub overcurrent_check : InstantOvercurrent W → W → W → Bool
  overcurrent_check o i_alpha i_beta =
      fl.lt o.threshold_a (fl.sqrt (i_alpha ⊗ i_alpha ⊕ i_beta ⊗ i_beta))

  unfoldable pub bus_check : BusVoltageMonitor W → W → Bus
  bus_check m vdc =
      if fl.lt vdc m.vdc_min
      then undervoltage
      else if fl.lt m.vdc_max vdc
      then overvoltage
      else in_window

  unfoldable pub stall_new : W → ℕ → StallDetector W
  stall_new min_speed min_iq_after_ms = record {
    min_speed_rad_s = min_speed;
    min_iq_after_ms = min_iq_after_ms;
    armed_at_ms = none;
  }

  unfoldable pub arm : StallDetector W → ℕ → StallDetector W
  arm d now_ms = record d { armed_at_ms = some now_ms }

  unfoldable pub disarm : StallDetector W → StallDetector W
  disarm d = record d { armed_at_ms = none }

  -- `saturating_sub` is the subtraction of ℕ.
  unfoldable pub stall_check : StallDetector W → W → ℕ → Bool
  stall_check d speed now_ms = elim d.armed_at_ms [
    | none ↦ false
    | some t ↦
        if ltb (now_ms - t) d.min_iq_after_ms then false else fl.lt (fl.abs speed) d.min_speed_rad_s
  ]
