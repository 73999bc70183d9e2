-- ===== src/Foc/Total.antt =====
-- foc-algo: the blocks of the cascade do not panic, and what they keep.
use rust_foc.Foc.Math.{derivative, pid_update, Pid, combine_pi_ff, ramp_update, Ramp}
use rust_foc.Foc.Loops.{
  CurrentLoop, PositionLoopController, SpeedLoopController, speed_update, current_update,
  position_update,
}
use rust_foc.Foc.Pwm.{
  clark_balanced, park, Svpwm, modulate, svpwm_update, Duty, clamp_duty, zero_duty,
}
use rust_foc.Common.{
  none, not, ◌||◌, ◌∙◌, ap, Bool-cases, ◌>>=◌, ◌≡◌, Option, refl, true, false, some, inl, inr,
}
use rust_foc.Foc.Float.{
  clamp, one_f, ◌⊗◌, ◌⊕◌, zero_f, Within, clamp-Within, Trig, ◌⊖◌, IsNumber, IsIeee, Float,
}

-- A step that does not panic, with a property of its result.
abbrev pub Yields : {A : Type 0} → Option A → (A → Type 0) → Type 0
Yields {A = A} o P = (a : A) × (o ≡ some a) × P a

pub Yields->>= :
    {A B : Type 0} (o : Option A) (P : A → Type 0) (f : A → Option B) (Q : B → Type 0)
    → Yields o P
    → ((a : A) → P a → Yields (f a) Q)
    → Yields (o >>= f) Q
Yields->>= o P f Q (a, e, p) k = let (b, e', q) = k a p in (b, ap (λ m. m >>= f) e ∙ e', q)

-- A property of the result, where there is one.
abbrev pub IfSome : {A : Type 0} → Option A → (A → Type 0) → Type 0
IfSome none P = Unit {0}
IfSome (some a) P = P a

pub IfSome->>= :
    {A B : Type 0} (o : Option A) (P : A → Type 0) (f : A → Option B) (Q : B → Type 0)
    → IfSome o P
    → ((a : A) → P a → IfSome (f a) Q)
    → IfSome (o >>= f) Q
IfSome->>= none P f Q h k = tt
IfSome->>= (some a) P f Q h k = k a h

pub IfSome-intro :
    {A : Type 0} (o : Option A) (P : A → Type 0) → ((a : A) → o ≡ some a → P a) → IfSome o P
IfSome-intro none P k = tt
IfSome-intro (some a) P k = k a refl

module _ {W : Type 0} ⦃fl : Float W⦄ (ieee : IsIeee fl) where
  -- A rate limit that is a number, of either sign.
  abbrev pub IsRamp : Ramp W → Type 0
  IsRamp r = IsNumber r.rate_limit

  -- An output limit that is not negative.
  abbrev pub IsPid : Pid W → Type 0
  IsPid p = fl.le zero_f p.output_limit ≡ true

  -- A period that `update` lets through.
  abbrev pub IsPeriod : W → Type 0
  IsPeriod dt = (fl.is_finite dt ≡ true) × (fl.le dt zero_f ≡ false)

  -- No phase is below 0 or above 1.
  abbrev pub InRange : Duty W → Type 0
  InRange d =
      Within ieee zero_f one_f d.ta × Within ieee zero_f one_f d.tb × Within ieee zero_f one_f d.tc

  pub zero_duty-InRange : InRange zero_duty
  zero_duty-InRange =
      let within : Within ieee zero_f one_f zero_f =
        (ieee.lt_irrefl zero_f, ieee.not_lt_of_le zero_f one_f ieee.zero_le_one) in
      (within, within, within)

  pub ramp_update-Yields :
      (r : Ramp W) (target dt : W)
      → IsRamp r
      → IsPeriod dt
      → Yields (ramp_update r target dt) (λ x. x.0.rate_limit ≡ r.rate_limit)
  unfolding ramp_update
  ramp_update-Yields r target dt num (fin, pos) = elim (Bool-cases (fl.le r.rate_limit zero_f)) [
    | inl none_set ↦ rw none_set ((record r { value = target }, target), refl, refl)
    | inr set ↦
        let step = r.rate_limit ⊗ dt in
        let nonneg = ieee.mul_nonneg r.rate_limit dt num set fin pos in
        let (y, e, _) =
          clamp-Within ieee (target ⊖ r.value) (fl.neg step) step (ieee.neg_le step nonneg) in
        rw (set, e) ((record r { value = r.value ⊕ y }, r.value ⊕ y), refl, refl)
  ]

  pub pid_update-Yields :
      (p : Pid W) (setpoint measurement dt : W)
      → IsPid p
      → Yields (pid_update p setpoint measurement dt) (λ x. x.0.output_limit ≡ p.output_limit)
  unfolding pid_update
  pid_update-Yields p setpoint measurement dt h =
      let error = setpoint ⊖ measurement in
      let raw = p.kp ⊗ error ⊕ p.integral ⊕ (derivative p measurement dt).0 in
      Yields->>= (clamp raw (fl.neg p.output_limit) p.output_limit) _ _ _
        (clamp-Within ieee raw (fl.neg p.output_limit) p.output_limit
          (ieee.neg_le p.output_limit h))
        (λ y _. (_, refl, refl))

  pub combine_pi_ff-Yields :
      (p : Pid W) (pi_output ff_total : W)
      → IsPid p
      → Yields
          (combine_pi_ff p pi_output ff_total)
          (Within ieee (fl.neg p.output_limit) p.output_limit)
  unfolding combine_pi_ff
  combine_pi_ff-Yields p pi_output ff_total h =
      clamp-Within ieee (pi_output ⊕ ff_total) (fl.neg p.output_limit) p.output_limit
        (ieee.neg_le p.output_limit h)

  pub speed_update-Yields :
      (c : SpeedLoopController W) (speed_ref speed accel dt : W)
      → IsPid c.pid
      → Yields (speed_update c speed_ref speed accel dt) (λ x. IsPid x.0.pid)
  unfolding speed_update
  speed_update-Yields c speed_ref speed accel dt h =
      Yields->>= (pid_update c.pid speed_ref speed dt) _ _ _
        (pid_update-Yields c.pid speed_ref speed dt h)
        (λ (pid, pi_out) same.
          let h' : IsPid pid = rw same h in
          Yields->>= (combine_pi_ff pid pi_out _) _ _ _ (combine_pi_ff-Yields pid pi_out _ h')
            (λ out _. (_, refl, h')))

  pub position_update-Yields :
      (c : PositionLoopController W) (position_ref position velocity accel dt : W)
      → IsPid c.pid
      → Yields (position_update c position_ref position velocity accel dt) (λ x. IsPid x.0.pid)
  unfolding position_update
  position_update-Yields c position_ref position velocity accel dt h =
      Yields->>= (pid_update c.pid position_ref position dt) _ _ _
        (pid_update-Yields c.pid position_ref position dt h)
        (λ (pid, pi_out) same.
          let h' : IsPid pid = rw same h in
          Yields->>= (combine_pi_ff pid pi_out _) _ _ _ (combine_pi_ff-Yields pid pi_out _ h')
            (λ out _. (_, refl, h')))

  clamp_duty-Yields : (a b c : W) → Yields (clamp_duty a b c) InRange
  unfolding clamp_duty
  clamp_duty-Yields a b c =
      let (ta, ea, wa) = clamp-Within ieee a zero_f one_f ieee.zero_le_one in
      let (tb, eb, wb) = clamp-Within ieee b zero_f one_f ieee.zero_le_one in
      let (tc, ec, wc) = clamp-Within ieee c zero_f one_f ieee.zero_le_one in
      rw (ea, eb, ec) (record { ta = ta; tb = tb; tc = tc }, refl, (wa, wb, wc))

  pub svpwm_update-Yields :
      (m : Svpwm W) (v_alpha v_beta : W)
      → Yields (svpwm_update m v_alpha v_beta) (λ m'. InRange m'.duty)
  unfolding svpwm_update modulate
  svpwm_update-Yields m v_alpha v_beta =
      elim (Bool-cases (
        fl.le m.vdc zero_f
        || not (fl.is_finite m.vdc)
        || not (fl.is_finite v_alpha)
        || not (fl.is_finite v_beta))) [
          | inl bad ↦ rw bad (record m { duty = zero_duty }, refl, zero_duty-InRange)
          | inr good ↦ rw good (
              Yields->>= (clamp_duty _ _ _) _ _ _ (clamp_duty-Yields _ _ _)
                (λ duty within. (record m { duty = duty }, refl, within)))
        ]

  -- The current loop keeps its limits and its duty is in range.
  pub current_update-Yields :
      (trig : Trig W) (c : CurrentLoop W) (ia ib angle id_ref iq_ref vd_ff vq_ff dt : W)
      → IsPid c.d_pid
      → IsPid c.q_pid
      → Yields
          (current_update trig c ia ib angle id_ref iq_ref vd_ff vq_ff dt)
          (λ x. IsPid x.0.d_pid × IsPid x.0.q_pid × InRange x.1)
  unfolding current_update
  current_update-Yields trig c ia ib angle id_ref iq_ref vd_ff vq_ff dt hd hq =
      let dq = park trig (clark_balanced ia ib) angle in
      Yields->>= (pid_update c.d_pid id_ref dq.d dt) _ _ _
        (pid_update-Yields c.d_pid id_ref dq.d dt hd)
        (λ (d_pid, vd_pi) same_d.
          Yields->>= (pid_update c.q_pid iq_ref dq.q dt) _ _ _
            (pid_update-Yields c.q_pid iq_ref dq.q dt hq)
            (λ (q_pid, vq_pi) same_q.
              Yields->>= (svpwm_update c.svpwm _ _) _ _ _ (svpwm_update-Yields c.svpwm _ _)
                (λ svpwm within. (_, refl, (rw same_d hd, rw same_q hq, within)))))
