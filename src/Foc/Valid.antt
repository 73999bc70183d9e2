-- ===== src/Foc/Valid.antt =====
-- foc-algo/src/cascade.rs: the invariant of the controller, and the steps of a cycle that keep it.
use rust_foc.Foc.Pwm.{Duty, zero_duty}
use rust_foc.Foc.Total.{InRange, zero_duty-InRange}
use rust_foc.Foc.Controller.{reset, apply_off_state}
use rust_foc.Foc.Float.{IsNumber, zero_f, IsIeee, Float}
use rust_foc.Common.{true, ◌≡◌, Bool-cases, refl, inl, inr}
use rust_foc.Foc.State.{Target, Meas, controller_new, FocController, Mode}

module _ {W : Type 0} ⦃fl : Float W⦄ (ieee : IsIeee fl) where
  -- The limits of the ramps and of the loops are meaningful, and the duty is in range.
  pub record IsSound (pos_rate speed_rate iq_rate pos_limit speed_limit d_limit q_limit : W)
      (pwm : Duty W) : Type 0 where
    pub pos_ramp : IsNumber pos_rate
    pub speed_ramp : IsNumber speed_rate
    pub iq_ramp : IsNumber iq_rate
    pub position_pid : fl.le zero_f pos_limit ≡ true
    pub speed_pid : fl.le zero_f speed_limit ≡ true
    pub d_pid : fl.le zero_f d_limit ≡ true
    pub q_pid : fl.le zero_f q_limit ≡ true
    pub duty : InRange ieee pwm

  pub sound :
      {pos_rate speed_rate iq_rate pos_limit speed_limit d_limit q_limit : W} {pwm : Duty W}
      → IsNumber pos_rate
      → IsNumber speed_rate
      → IsNumber iq_rate
      → fl.le zero_f pos_limit ≡ true
      → fl.le zero_f speed_limit ≡ true
      → fl.le zero_f d_limit ≡ true
      → fl.le zero_f q_limit ≡ true
      → InRange ieee pwm
      → IsSound pos_rate speed_rate iq_rate pos_limit speed_limit d_limit q_limit pwm
  sound a b c d e f g h = record {
    pos_ramp = a;
    speed_ramp = b;
    iq_ramp = c;
    position_pid = d;
    speed_pid = e;
    d_pid = f;
    q_pid = g;
    duty = h;
  }

  abbrev pub IsValid : FocController W → Type 0
  IsValid c =
      IsSound c.pos_ramp.rate_limit c.speed_ramp.rate_limit c.iq_ramp.rate_limit
        c.position_loop.pid.output_limit c.speed_loop.pid.output_limit c.current.d_pid.output_limit
        c.current.q_pid.output_limit c.duty

  -- What a cycle does not change.
  abbrev pub Settings : Type 0
  Settings = Mode × Meas W × Target W × W × W

  abbrev pub settings : FocController W → Settings
  settings c = (c.mode, c.meas, c.target, c.i_demag, c.align_duration_s)

  -- The invariant, the settings of before, and a value of the timer of the alignment.
  abbrev pub IsKept : FocController W → W → FocController W → Type 0
  IsKept c elapsed c' = IsValid c' × (settings c' ≡ settings c) × (c'.align_elapsed_s ≡ elapsed)

  -- The invariant holds with another duty that is in range.
  pub with_duty-IsValid :
      (c : FocController W) (d : Duty W)
      → IsValid c
      → InRange ieee d
      → IsValid (record c { duty = d })
  with_duty-IsValid c d v within = record {
    pos_ramp = v.pos_ramp;
    speed_ramp = v.speed_ramp;
    iq_ramp = v.iq_ramp;
    position_pid = v.position_pid;
    speed_pid = v.speed_pid;
    d_pid = v.d_pid;
    q_pid = v.q_pid;
    duty = within;
  }

  pub controller_new-IsValid : (mode : Mode) → IsValid (controller_new mode)
  controller_new-IsValid mode = record {
    pos_ramp = ieee.literal_number 0 0;
    speed_ramp = ieee.literal_number 0 0;
    iq_ramp = ieee.literal_number 10000 1;
    position_pid = ieee.literal_nonneg 1000 1;
    speed_pid = ieee.literal_nonneg 300 1;
    d_pid = ieee.max_value_nonneg;
    q_pid = ieee.max_value_nonneg;
    duty = zero_duty-InRange ieee;
  }

  pub apply_off_state-IsKept :
      (c : FocController W) → IsValid c → IsKept c c.align_elapsed_s (apply_off_state c)
  unfolding apply_off_state reset
  apply_off_state-IsKept c v =
      let quiet = with_duty-IsValid c zero_duty v (zero_duty-InRange ieee) in
      elim (Bool-cases c.reset_on_off) [
        | inl clear ↦ rw clear (quiet, refl, refl)
        | inr keep ↦ rw keep (quiet, refl, refl)
      ]
