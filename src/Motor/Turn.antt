-- ===== src/Motor/Turn.antt =====
-- src/motor/open_loop.rs: the angle stays within one turn, and the loops that wrap it end.
use rust_foc.Motor.OpenLoop.{raise, tau, advance_angle, lower}
use rust_foc.Motor.Task.{tick_s, max_spin_freq_hz}
use rust_foc.Common.{if◌then◌else◌, ℕ, suc, Bool-cases, inl, inr, ◌≡◌, true, false, refl}
use rust_foc.Foc.Float.{◌⊖◌, one_f, Float, IsIeee, zero_f, ◌⊕◌, ◌⊗◌}
use rust_foc.Foc.Total.{Yields}
use rust_foc.Motor.Rounding.{IsRounded}

module _ {W : Type 0} ⦃fl : Float W⦄ (ieee : IsIeee fl) (rounded : IsRounded ieee) where
  -- From 0, and below a turn.
  abbrev pub InTurn : W → Type 0
  InTurn x = (fl.le zero_f x ≡ true) × (fl.le tau x ≡ false)

  -- A frequency that the shell lets through.
  abbrev pub IsFreq : W → Type 0
  IsFreq f = (fl.le zero_f f ≡ true) × (fl.le f max_spin_freq_hz ≡ true)

  pub zero-InTurn : InTurn zero_f
  zero-InTurn = (ieee.literal_number 0 0, rounded.tau_positive)

  turned :
      (f : W)
      → IsFreq f
      → (fl.le zero_f (tau ⊗ f ⊗ tick_s) ≡ true) × (fl.le (tau ⊗ f ⊗ tick_s) one_f ≡ true)
  turned f (low, high) =
      let number = ieee.number_of_finite in
      let tau_nonneg = ieee.literal_nonneg 628318530717958647692528676655900577 35 in
      let tau_self = number tau rounded.tau_finite in
      let low' =
        rounded.mul_zero_le tau f tau max_spin_freq_hz tau_nonneg tau_self low high
          rounded.tau_finite rounded.freq_finite in
      let high' =
        rounded.mul_le tau f tau max_spin_freq_hz tau_nonneg tau_self low high rounded.tau_finite
          rounded.freq_finite in
      let tick_self = number tick_s rounded.tick_finite in
      (
        rounded.mul_zero_le (tau ⊗ f) tick_s (tau ⊗ max_spin_freq_hz) tick_s low' high'
            rounded.tick_nonneg tick_self rounded.product_finite rounded.tick_finite,
        rounded.le_trans _ _ _
            (rounded.mul_le (tau ⊗ f) tick_s (tau ⊗ max_spin_freq_hz) tick_s low' high'
              rounded.tick_nonneg tick_self rounded.product_finite rounded.tick_finite)
            rounded.step_le_one,
      )

  lower-InTurn :
      (fuel : ℕ) (next : W)
      → fl.le zero_f next ≡ true
      → fl.le next (tau ⊕ one_f) ≡ true
      → Yields (lower (suc (suc fuel)) next) InTurn
  unfolding lower
  lower-InTurn fuel next low high = elim (Bool-cases (fl.le tau next)) [
    | inl over ↦
        let below = rounded.turn_sub_lt next high in
        rw (over, below) (next ⊖ tau, refl, (rounded.turn_sub_nonneg next over, below))
    | inr within ↦ rw within (next, refl, (low, within))
  ]

  -- With a fuel of 2 or more, one period of the task at a frequency that the shell lets through
  -- advances an angle within a turn to one within a turn: the loops that wrap it end.
  pub advance_angle-InTurn :
      (fuel : ℕ) (theta freq_hz : W)
      → InTurn theta
      → IsFreq freq_hz
      → Yields (advance_angle (suc (suc fuel)) theta freq_hz tick_s) InTurn
  unfolding advance_angle raise
  advance_angle-InTurn fuel theta freq_hz (low, below) freq =
      let (step_low, step_high) = turned freq_hz freq in
      let sum_low = rounded.add_nonneg theta _ low step_low in
      let sum_high = rounded.add_le theta _ low below step_low step_high in
      rw (rounded.tick_positive, ieee.not_lt_of_le zero_f _ sum_low)
        (lower-InTurn fuel _ sum_low sum_high)

  -- What the shell stores of a finite frequency that is not below 0.
  pub capped-IsFreq :
      (f : W)
      → fl.is_finite f ≡ true
      → fl.lt f zero_f ≡ false
      → IsFreq (if fl.lt max_spin_freq_hz f then max_spin_freq_hz else f)
  capped-IsFreq f finite forward =
      let self = ieee.number_of_finite f finite in
      elim (Bool-cases (fl.lt max_spin_freq_hz f)) [
        | inl over ↦ rw over (ieee.literal_nonneg 5000 1, ieee.literal_number 5000 1)
        | inr within ↦ rw within (
          rounded.le_of_not_lt f zero_f self (ieee.literal_number 0 0) forward,
          rounded.le_of_not_lt max_spin_freq_hz f (ieee.literal_number 5000 1) self within,
        )
      ]
