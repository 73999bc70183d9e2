-- ===== src/Foc/Observing.antt =====
-- foc-algo/src/observer.rs: the integrator of the phase-locked loop over a whole run.
use rust_foc.Foc.Observer.{
  SmoConfig, observer_new, observe, update_dq, observer_update, observer_reset, set_speed,
  set_angle, SmoObserver, track,
}
use rust_foc.Foc.Math.{two_pi, LowPassFilter, filter_update}
use rust_foc.Foc.Float.{one_f, ◌⊗◌, clamp-Within, clamp, zero_f, Within, IsIeee, Trig, Float}
use rust_foc.Common.{
  ◌||◌, not, subst, ◌≡◌, true, Option, some, refl, inl, inr, Bool-cases, List, [], ◌∷◌, ◌>>=◌,
}
use rust_foc.Foc.Total.{Yields, Yields->>=}

-- What an application asks of the observer.
pub data Ask (W : Type 0) : Type 0 where
  seed_angle seed_speed : W → Ask W
  clear : Ask W
  step : W → W → W → W → W → Ask W
  step_dq : W → W → W → W → W → W → Ask W

module _ {W : Type 0} ⦃fl : Float W⦄ (trig : Trig W) (atan2 rem : W → W → W) where
  abbrev pub ask : SmoObserver W → Ask W → Option (SmoObserver W)
  ask o (seed_angle theta) = some (set_angle o theta)
  ask o (seed_speed omega) = some (set_speed o omega)
  ask o clear = some (observer_reset o)
  ask o (step v_alpha v_beta i_alpha i_beta dt) =
      observer_update atan2 rem o v_alpha v_beta i_alpha i_beta dt
  ask o (step_dq v_d v_q theta i_d i_q dt) = update_dq atan2 rem trig o v_d v_q theta i_d i_q dt

  abbrev pub ask_all : SmoObserver W → List (Ask W) → Option (SmoObserver W)
  ask_all o [] = some o
  ask_all o (x ∷ xs) = ask o x >>= λ o'. ask_all o' xs

module _ {W : Type 0} ⦃fl : Float W⦄ (ieee : IsIeee fl) (trig : Trig W)
    (atan2 rem : W → W → W) where
  -- The integrator is within the bound of the speed, which is the one of the start.
  abbrev IsBounded : W → SmoObserver W → Type 0
  IsBounded max o = (o.cfg.max_omega ≡ max) × Within ieee (fl.neg max) max o.pll_integral

  zero-IsBounded : (max : W) → fl.le zero_f max ≡ true → Within ieee (fl.neg max) max zero_f
  zero-IsBounded max h = (ieee.neg_nonpos max h, ieee.not_lt_of_le zero_f max h)

  filter-Yields :
      (l : LowPassFilter W) (input dt : W) → Yields (filter_update l input dt) (λ x. Unit {0})
  unfolding filter_update
  filter-Yields l input dt = elim (Bool-cases (fl.le l.cutoff_hz zero_f)) [
    | inl disabled ↦ rw disabled ((l, input), refl, tt)
    | inr enabled ↦ rw enabled (
        Yields->>= (clamp (two_pi ⊗ l.cutoff_hz ⊗ dt) zero_f one_f) _ _ _
          (clamp-Within ieee (two_pi ⊗ l.cutoff_hz ⊗ dt) zero_f one_f ieee.zero_le_one)
          (λ alpha _. (_, refl, tt)))
  ]

  track-IsBounded :
      (max : W) (o : SmoObserver W) (theta_raw dt : W)
      → fl.le zero_f max ≡ true
      → o.cfg.max_omega ≡ max
      → Yields (track atan2 rem o theta_raw dt) (IsBounded max)
  unfolding track
  track-IsBounded max o theta_raw dt h same =
      let order : fl.le (fl.neg o.cfg.max_omega) o.cfg.max_omega ≡ true =
        rw same (ieee.neg_le max h) in
      Yields->>= (clamp _ (fl.neg o.cfg.max_omega) o.cfg.max_omega) _ _ _
        (clamp-Within ieee _ (fl.neg o.cfg.max_omega) o.cfg.max_omega order)
        (λ integral within.
          (_, refl, (same, subst (λ m. Within ieee (fl.neg m) m integral) same within)))

  observe-IsBounded :
      (max : W) (o : SmoObserver W) (v_alpha v_beta i_alpha i_beta dt : W)
      → fl.le zero_f max ≡ true
      → o.cfg.max_omega ≡ max
      → Yields (observe atan2 rem o v_alpha v_beta i_alpha i_beta dt) (IsBounded max)
  unfolding observe
  observe-IsBounded max o v_alpha v_beta i_alpha i_beta dt h same =
      Yields->>= (filter_update o.lpf_e_alpha _ dt) _ _ _ (filter-Yields o.lpf_e_alpha _ dt)
        (λ (lpf_e_alpha, e_alpha) _.
          Yields->>= (filter_update o.lpf_e_beta _ dt) _ _ _ (filter-Yields o.lpf_e_beta _ dt)
            (λ (lpf_e_beta, e_beta) _. track-IsBounded max _ _ dt h same))

  observer_update-IsBounded :
      (max : W) (o : SmoObserver W) (v_alpha v_beta i_alpha i_beta dt : W)
      → fl.le zero_f max ≡ true
      → IsBounded max o
      → Yields (observer_update atan2 rem o v_alpha v_beta i_alpha i_beta dt) (IsBounded max)
  unfolding observer_update
  observer_update-IsBounded max o v_alpha v_beta i_alpha i_beta dt h b =
      elim (Bool-cases (fl.le dt zero_f)) [
        | inl no_time ↦ rw no_time (o, refl, b)
        | inr time ↦
            elim (Bool-cases (
              not (fl.is_finite v_alpha)
              || not (fl.is_finite v_beta)
              || not (fl.is_finite i_alpha)
              || not (fl.is_finite i_beta)
              || not (fl.is_finite dt))) [
                | inl bad ↦ rw (time, bad) (o, refl, b)
                | inr good ↦ elim (Bool-cases (fl.le o.cfg.ls zero_f)) [
                  | inl no_ls ↦ rw (time, good, no_ls) (o, refl, b)
                  | inr ls ↦
                      rw (time, good, ls)
                        (observe-IsBounded max o v_alpha v_beta i_alpha i_beta dt h b.0)
                ]
              ]
      ]

  update_dq-IsBounded :
      (max : W) (o : SmoObserver W) (v_d v_q theta i_d i_q dt : W)
      → fl.le zero_f max ≡ true
      → IsBounded max o
      → Yields (update_dq atan2 rem trig o v_d v_q theta i_d i_q dt) (IsBounded max)
  unfolding update_dq
  update_dq-IsBounded max o v_d v_q theta i_d i_q dt h b = elim (Bool-cases (fl.le dt zero_f)) [
    | inl no_time ↦ rw no_time (o, refl, b)
    | inr time ↦
        elim (Bool-cases (
          not (fl.is_finite v_d)
          || not (fl.is_finite v_q)
          || not (fl.is_finite theta)
          || not (fl.is_finite i_d)
          || not (fl.is_finite i_q)
          || not (fl.is_finite dt))) [
            | inl bad ↦ rw (time, bad) (o, refl, b)
            | inr good ↦ rw (time, good) (observer_update-IsBounded max o _ _ _ _ dt h b)
          ]
  ]

  ask-IsBounded :
      (max : W) (o : SmoObserver W) (x : Ask W)
      → fl.le zero_f max ≡ true
      → IsBounded max o
      → Yields (ask trig atan2 rem o x) (IsBounded max)
  unfolding set_angle set_speed observer_reset
  ask-IsBounded max o (seed_angle theta) h b = (_, refl, b)
  ask-IsBounded max o (seed_speed omega) h b = (_, refl, b)
  ask-IsBounded max o clear h b = (_, refl, (b.0, zero-IsBounded max h))
  ask-IsBounded max o (step v_alpha v_beta i_alpha i_beta dt) h b =
      observer_update-IsBounded max o v_alpha v_beta i_alpha i_beta dt h b
  ask-IsBounded max o (step_dq v_d v_q theta i_d i_q dt) h b =
      update_dq-IsBounded max o v_d v_q theta i_d i_q dt h b

  ask_all-Bounded :
      (max : W) (o : SmoObserver W) (xs : List (Ask W))
      → fl.le zero_f max ≡ true
      → IsBounded max o
      → Yields (ask_all trig atan2 rem o xs) (IsBounded max)
  ask_all-Bounded max o [] h b = (o, refl, b)
  ask_all-Bounded max o (x ∷ xs) h b =
      Yields->>= (ask trig atan2 rem o x) _ _ _ (ask-IsBounded max o x h b)
        (λ o' b'. ask_all-Bounded max o' xs h b')

  -- A new observer whose bound of the speed is not negative goes through whatever sequence of
  -- updates, seeds and resets without a panic, and after it the integrator of its loop is neither
  -- below the negated bound nor above the bound, or it is NaN.
  pub ask_all-Within :
      (cfg : SmoConfig W) (xs : List (Ask W))
      → fl.le zero_f cfg.max_omega ≡ true
      → Yields
          (ask_all trig atan2 rem (observer_new cfg) xs)
          (λ o. Within ieee (fl.neg cfg.max_omega) cfg.max_omega o.pll_integral)
  unfolding observer_new
  ask_all-Within cfg xs h =
      let (o, e, (_, within)) =
        ask_all-Bounded cfg.max_omega (observer_new cfg) xs h
          (refl, zero-IsBounded cfg.max_omega h) in
      (o, e, within)
