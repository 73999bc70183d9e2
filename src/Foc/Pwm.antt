-- ===== src/Foc/Pwm.antt =====
-- foc-algo/src/math: transforms.rs and svpwm.rs.
use rust_foc.Common.{ℕ, not, ◌||◌, Option, some, if◌then◌else◌, ◌>>=◌, ◌==◌}
use rust_foc.Foc.Float.{Float, Trig, ◌⊕◌, ◌⊖◌, ◌⊗◌, ◌⊘◌, zero_f, one_f, half_f, clamp, max_f, min_f}

pub record AlphaBeta (W : Type 0) : Type 0 where
  pub alpha : W
  pub beta : W

pub record Dq (W : Type 0) : Type 0 where
  pub d : W
  pub q : W

-- Three-phase duty cycles.
pub record Duty (W : Type 0) : Type 0 where
  pub ta : W
  pub tb : W
  pub tc : W

pub record Svpwm (W : Type 0) : Type 0 where
  pub vdc : W
  pub duty : Duty W

module _ {W : Type 0} ⦃fl : Float W⦄ where
  abbrev pub half_sqrt3 : W
  half_sqrt3 = fl.literal 8660254 7

  abbrev pub inv_sqrt_3 : W
  inv_sqrt_3 = fl.literal 57735027 8

  unfoldable pub clark_balanced : W → W → AlphaBeta W
  clark_balanced ia ib = record { alpha = ia; beta = inv_sqrt_3 ⊗ (ia ⊕ fl.literal 2 0 ⊗ ib) }

  unfoldable pub park : Trig W → AlphaBeta W → W → Dq W
  park trig ab theta =
      let s = trig.sin theta in
      let c = trig.cos theta in
      record { d = c ⊗ ab.alpha ⊕ s ⊗ ab.beta; q = fl.neg s ⊗ ab.alpha ⊕ c ⊗ ab.beta }

  unfoldable pub inv_park : Trig W → Dq W → W → AlphaBeta W
  inv_park trig dq theta =
      let s = trig.sin theta in
      let c = trig.cos theta in record { alpha = c ⊗ dq.d ⊖ s ⊗ dq.q; beta = s ⊗ dq.d ⊕ c ⊗ dq.q }

  abbrev pub zero_duty : Duty W
  zero_duty = record { ta = zero_f; tb = zero_f; tc = zero_f }

  abbrev pub svpwm_new : W → Svpwm W
  svpwm_new vdc = record { vdc = vdc; duty = record { ta = half_f; tb = half_f; tc = half_f } }

  abbrev pub set_vdc : Svpwm W → W → Svpwm W
  set_vdc m vdc = record m { vdc = vdc }

  -- Three values clamped to [0, 1].
  unfoldable pub clamp_duty : W → W → W → Option (Duty W)
  clamp_duty a b c = do
    ta ← clamp a zero_f one_f
    tb ← clamp b zero_f one_f
    tc ← clamp c zero_f one_f
    some (record { ta = ta; tb = tb; tc = tc })

  -- The modulation proper, with positive finite `vdc` and finite voltages.
  unfoldable pub modulate : Svpwm W → W → W → Option (Svpwm W)
  modulate m v_alpha v_beta = do
    let va = v_alpha
    let vb = fl.neg half_f ⊗ v_alpha ⊕ half_sqrt3 ⊗ v_beta
    let vc = fl.neg half_f ⊗ v_alpha ⊖ half_sqrt3 ⊗ v_beta
    let vmax = max_f (max_f va vb) vc
    let vmin = min_f (min_f va vb) vc
    let voffset = fl.neg half_f ⊗ (vmax ⊕ vmin)
    let inv_vdc = one_f ⊘ m.vdc
    duty ←
        clamp_duty (half_f ⊕ (va ⊕ voffset) ⊗ inv_vdc) (half_f ⊕ (vb ⊕ voffset) ⊗ inv_vdc)
          (half_f ⊕ (vc ⊕ voffset) ⊗ inv_vdc)
    some (record m { duty = duty })

  unfoldable pub svpwm_update : Svpwm W → W → W → Option (Svpwm W)
  svpwm_update m v_alpha v_beta =
      if fl.le m.vdc zero_f
        || not (fl.is_finite m.vdc)
        || not (fl.is_finite v_alpha)
        || not (fl.is_finite v_beta)
      then some (record m { duty = zero_duty })
      else modulate m v_alpha v_beta

  -- One phase of the dead-time compensation.
  abbrev pub compensate : W → W → W → W
  compensate t offset i =
      if fl.lt zero_f i then t ⊖ offset else if fl.lt i zero_f then t ⊕ offset else t

  unfoldable pub apply_dead_time : Duty W → ℕ → ℕ → W → W → W → Option (Duty W)
  apply_dead_time d dead_time_ns pwm_period_ns ia ib ic =
      if dead_time_ns == 0 || pwm_period_ns == 0
      then some d
      else let offset = fl.from dead_time_ns ⊘ fl.from pwm_period_ns in
        clamp_duty (compensate d.ta offset ia) (compensate d.tb offset ib)
          (compensate d.tc offset ic)
