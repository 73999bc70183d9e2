-- ===== src/Foc/Observer.antt =====
-- foc-algo/src/observer.rs: the sliding-mode observer. `libm::atan2f` and the remainder of floats are
-- parameters; `none` is a panic of `f32::clamp`.
use rust_foc.Common.{not, ◌||◌, Option, some, if◌then◌else◌, ◌>>=◌}
use rust_foc.Foc.Float.{Float, Trig, ◌⊕◌, ◌⊖◌, ◌⊗◌, ◌⊘◌, zero_f, one_f, clamp}
use rust_foc.Foc.Math.{LowPassFilter, filter_update}
use rust_foc.Foc.Pwm.{inv_park}

pub record SmoConfig (W : Type 0) : Type 0 where
  pub rs : W
  pub ls : W
  pub k_slide : W
  pub emf_cutoff : W
  pub pll_kp : W
  pub pll_ki : W
  pub max_omega : W

pub record SmoRuntime (W : Type 0) : Type 0 where
  pub i_alpha_hat : W
  pub i_beta_hat : W
  pub e_alpha : W
  pub e_beta : W
  pub theta_raw : W
  pub pll_error : W

pub record SmoObserver (W : Type 0) : Type 0 where
  pub cfg : SmoConfig W
  pub i_alpha_hat : W
  pub i_beta_hat : W
  pub lpf_e_alpha : LowPassFilter W
  pub lpf_e_beta : LowPassFilter W
  pub theta_hat : W
  pub omega_hat : W
  pub pll_integral : W
  pub runtime : SmoRuntime W

module _ {W : Type 0} ⦃fl : Float W⦄ where
  -- `core::f32::consts::PI` and `TAU`
  abbrev pub pi : W
  pi = fl.literal 314159265358979323846264338327950288 35

  abbrev pub full_turn : W
  full_turn = fl.literal 628318530717958647692528676655900577 35

  abbrev pub smo_runtime_default : SmoRuntime W
  smo_runtime_default = record {
    i_alpha_hat = zero_f;
    i_beta_hat = zero_f;
    e_alpha = zero_f;
    e_beta = zero_f;
    theta_raw = zero_f;
    pll_error = zero_f;
  }

  unfoldable pub observer_new : SmoConfig W → SmoObserver W
  observer_new cfg = record {
    cfg = cfg;
    i_alpha_hat = zero_f;
    i_beta_hat = zero_f;
    lpf_e_alpha = record { cutoff_hz = cfg.emf_cutoff; state = zero_f };
    lpf_e_beta = record { cutoff_hz = cfg.emf_cutoff; state = zero_f };
    theta_hat = zero_f;
    omega_hat = zero_f;
    pll_integral = zero_f;
    runtime = smo_runtime_default;
  }

  unfoldable pub set_angle : SmoObserver W → W → SmoObserver W
  set_angle o theta = record o { theta_hat = theta }

  unfoldable pub set_speed : SmoObserver W → W → SmoObserver W
  set_speed o omega = record o { omega_hat = omega }

  unfoldable pub observer_reset : SmoObserver W → SmoObserver W
  observer_reset o = record o {
    i_alpha_hat = zero_f;
    i_beta_hat = zero_f;
    lpf_e_alpha = record o.lpf_e_alpha { state = zero_f };
    lpf_e_beta = record o.lpf_e_beta { state = zero_f };
    theta_hat = zero_f;
    omega_hat = zero_f;
    pll_integral = zero_f;
    runtime = smo_runtime_default;
  }

  abbrev pub sign : W → W
  sign x = if fl.lt zero_f x then one_f else if fl.lt x zero_f then fl.neg one_f else zero_f

  -- The error of the angle, brought within half a turn once.
  abbrev pub wrap_error : W → W
  wrap_error e =
      if fl.lt pi e then e ⊖ full_turn else if fl.lt e (fl.neg pi) then e ⊕ full_turn else e

  -- The angle, brought within a turn once.
  abbrev pub wrap_angle : W → W
  wrap_angle x =
      if fl.le full_turn x then x ⊖ full_turn else if fl.lt x zero_f then x ⊕ full_turn else x

  module _ (atan2 rem : W → W → W) where
    abbrev pub raw_angle : W → W → W
    raw_angle e_alpha e_beta =
        let m = rem (atan2 (fl.neg e_alpha) e_beta) full_turn in
        if fl.lt m zero_f then m ⊕ full_turn else m

    -- The phase-locked loop, from the raw angle on.
    unfoldable pub track : SmoObserver W → W → W → Option (SmoObserver W)
    track o theta_raw dt =
        let pll_error = wrap_error (theta_raw ⊖ o.theta_hat) in
        clamp (o.pll_integral ⊕ o.cfg.pll_ki ⊗ pll_error ⊗ dt) (fl.neg o.cfg.max_omega)
          o.cfg.max_omega
        >>= λ integral.
            let omega = o.cfg.pll_kp ⊗ pll_error ⊕ integral in
            some (record o {
              runtime = record o.runtime { theta_raw = theta_raw; pll_error = pll_error };
              pll_integral = integral;
              omega_hat = omega;
              theta_hat = wrap_angle (o.theta_hat ⊕ omega ⊗ dt);
            })

    -- The currents, the filters and the loop, with finite inputs and a positive inductance.
    unfoldable pub observe : SmoObserver W → W → W → W → W → W → Option (SmoObserver W)
    observe o v_alpha v_beta i_alpha i_beta dt = do
      let z_alpha = o.cfg.k_slide ⊗ sign (o.i_alpha_hat ⊖ i_alpha)
      let z_beta = o.cfg.k_slide ⊗ sign (o.i_beta_hat ⊖ i_beta)
      let inv_ls = one_f ⊘ o.cfg.ls
      let alpha = o.i_alpha_hat ⊕ (v_alpha ⊖ o.cfg.rs ⊗ o.i_alpha_hat ⊕ z_alpha) ⊗ inv_ls ⊗ dt
      let beta = o.i_beta_hat ⊕ (v_beta ⊖ o.cfg.rs ⊗ o.i_beta_hat ⊕ z_beta) ⊗ inv_ls ⊗ dt
      (lpf_e_alpha, e_alpha) ← filter_update o.lpf_e_alpha z_alpha dt
      (lpf_e_beta, e_beta) ← filter_update o.lpf_e_beta z_beta dt
      track
          (record o {
            i_alpha_hat = alpha;
            i_beta_hat = beta;
            lpf_e_alpha = lpf_e_alpha;
            lpf_e_beta = lpf_e_beta;
            runtime = record o.runtime {
              i_alpha_hat = alpha;
              i_beta_hat = beta;
              e_alpha = e_alpha;
              e_beta = e_beta;
            };
          })
          (raw_angle e_alpha e_beta) dt

    unfoldable pub observer_update : SmoObserver W → W → W → W → W → W → Option (SmoObserver W)
    observer_update o v_alpha v_beta i_alpha i_beta dt =
        if fl.le dt zero_f
        then some o
        else if not (fl.is_finite v_alpha)
            || not (fl.is_finite v_beta)
            || not (fl.is_finite i_alpha)
            || not (fl.is_finite i_beta)
            || not (fl.is_finite dt)
        then some o
        else if fl.le o.cfg.ls zero_f
        then some o
        else observe o v_alpha v_beta i_alpha i_beta dt

    unfoldable pub update_dq :
        Trig W → SmoObserver W → W → W → W → W → W → W → Option (SmoObserver W)
    update_dq trig o v_d v_q theta i_d i_q dt =
        if fl.le dt zero_f
        then some o
        else if not (fl.is_finite v_d)
            || not (fl.is_finite v_q)
            || not (fl.is_finite theta)
            || not (fl.is_finite i_d)
            || not (fl.is_finite i_q)
            || not (fl.is_finite dt)
        then some o
        else let v_ab = inv_park trig (record { d = v_d; q = v_q }) theta in
          let i_ab = inv_park trig (record { d = i_d; q = i_q }) theta in
          observer_update o v_ab.alpha v_ab.beta i_ab.alpha i_ab.beta dt
