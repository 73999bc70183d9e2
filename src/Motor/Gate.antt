-- ===== src/Motor/Gate.antt =====
-- src/tasks/motor.rs with src/shell/commands.rs: the gate of the bridge over a whole run.
use rust_foc.Motor.Bridge.{MotorPwm, disable, enable, apply}
use rust_foc.Foc.Pwm.{Duty, svpwm_update}
use rust_foc.Foc.Math.{ramp_update}
use rust_foc.Foc.Total.{
  svpwm_update-Yields, ramp_update-Yields, Yields->>=, InRange, Yields, IsRamp,
}
use rust_foc.Motor.Turn.{capped-IsFreq, zero-InTurn, advance_angle-InTurn, IsFreq, InTurn}
use rust_foc.Motor.OpenLoop.{
  open_loop_new, max_openloop_v, OpenLoopCmd, OpenLoop, next_theta, target_voltage, step,
}
use rust_foc.Motor.Rounding.{IsRounded}
use rust_foc.Motor.Task.{
  max_deviation, motor_new, tick_s, motor_tick, run_stop_inner, run_spin, Motor,
}
use rust_foc.Foc.Float.{clamp-Within, zero_f, Within, IsIeee, Trig, Float}
use rust_foc.Common.{
  arith, if◌then◌else◌, ◌||◌, not, false, Bool, ◌&&◌, ◌>>=◌, Option, ℕ, suc, Bool-cases, inl, inr,
  ◌≡◌, true, some, refl, List, [], ◌∷◌,
}

-- A command of the shell, or a tick of the task.
pub data Event (W : Type 0) : Type 0 where
  spin : W → W → Event W
  stop : Event W
  tick : Event W

module _ {W : Type 0} ⦃fl : Float W⦄ (to_u32 : W → ℕ) (trig : Trig W) (fuel : ℕ) where
  abbrev pub motor_event : Motor W → Event W → Option (Motor W)
  motor_event m (spin freq_hz voltage) = some (run_spin m freq_hz voltage).0
  motor_event m stop = some (run_stop_inner m)
  motor_event m tick = motor_tick to_u32 trig fuel m

  abbrev pub motor_run : Motor W → List (Event W) → Option (Motor W)
  motor_run m [] = some m
  motor_run m (x ∷ xs) = motor_event m x >>= λ m'. motor_run m' xs

module _ {W : Type 0} ⦃fl : Float W⦄ (ieee : IsIeee fl) (rounded : IsRounded ieee) where
  -- The bridge is only on while the task remembers an enabled command.
  abbrev IsGated : Motor W → Type 0
  IsGated m = m.pwm.moe ≡ true → m.prev_enabled ≡ true

  record IsRunning (m : Motor W) : Type 0 where
    theta : InTurn ieee rounded m.open_loop.theta
    freq : IsFreq ieee rounded m.cmd.freq_hz
    ramp : IsRamp ieee m.open_loop.voltage_ramp
    gate : IsGated m

  next_theta-InTurn :
      (fuel : ℕ) (o : OpenLoop W) (cmd : OpenLoopCmd W) (v : W)
      → InTurn ieee rounded o.theta
      → IsFreq ieee rounded cmd.freq_hz
      → Yields (next_theta (suc (suc fuel)) o cmd v tick_s) (InTurn ieee rounded)
  unfolding next_theta
  next_theta-InTurn fuel o cmd v within freq =
      elim (Bool-cases (cmd.enabled && fl.lt (fl.literal 1 6) (fl.abs v))) [
        | inl moves ↦
            rw moves (advance_angle-InTurn ieee rounded fuel o.theta cmd.freq_hz within freq)
        | inr stays ↦ rw stays (o.theta, refl, within)
      ]

  target_voltage-Yields :
      (cmd : OpenLoopCmd W) → Yields (target_voltage cmd) (λ v. Within ieee zero_f max_openloop_v v)
  unfolding target_voltage
  target_voltage-Yields cmd = elim (Bool-cases cmd.enabled) [
    | inl on ↦
        rw on (clamp-Within ieee cmd.voltage zero_f max_openloop_v (ieee.literal_nonneg 30 1))
    | inr off ↦ rw off (
      zero_f,
      refl,
      (ieee.lt_irrefl zero_f, ieee.not_lt_of_le zero_f max_openloop_v (ieee.literal_nonneg 30 1)),
    )
  ]

  step-Yields :
      (trig : Trig W) (fuel : ℕ) (o : OpenLoop W) (cmd : OpenLoopCmd W)
      → InTurn ieee rounded o.theta
      → IsFreq ieee rounded cmd.freq_hz
      → IsRamp ieee o.voltage_ramp
      → Yields
          (step trig (suc (suc fuel)) o cmd tick_s)
          (λ x. InTurn ieee rounded x.0.theta × IsRamp ieee x.0.voltage_ramp × InRange ieee x.1)
  unfolding step
  step-Yields trig fuel o cmd within freq ramp =
      Yields->>= (target_voltage cmd) _ _ _ (target_voltage-Yields cmd) (λ target_v _.
        Yields->>= (ramp_update o.voltage_ramp target_v tick_s) _ _ _
          (ramp_update-Yields ieee o.voltage_ramp target_v tick_s ramp
            (rounded.tick_finite, rounded.tick_positive))
          (λ (voltage_ramp, v) same.
            Yields->>= (next_theta (suc (suc fuel)) o cmd v tick_s) _ _ _
              (next_theta-InTurn fuel o cmd v within freq)
              (λ theta within'.
                Yields->>= (svpwm_update o.svpwm _ _) _ _ _ (svpwm_update-Yields ieee o.svpwm _ _)
                  (λ svpwm duty. (_, refl, (within', rw same ramp, duty))))))

  -- The timer after a tick, by the command, the flag of the last tick and the duty.
  abbrev after_tick : (W → ℕ) → Bool → Bool → MotorPwm → Duty W → MotorPwm
  after_tick to_u32 enabled prev pwm duty =
      let gated = if not enabled && prev then disable pwm else pwm in
      let driven = apply to_u32 gated duty in
      if enabled && not driven.moe && fl.lt (fl.literal 2 2) (max_deviation duty)
      then enable driven
      else driven

  after_tick-off :
      (to_u32 : W → ℕ) (prev : Bool) (pwm : MotorPwm) (duty : Duty W)
      → (pwm.moe ≡ true → prev ≡ true)
      → (after_tick to_u32 false prev pwm duty).moe ≡ false
  unfolding apply disable
  after_tick-off to_u32 true pwm duty h = refl
  after_tick-off to_u32 false pwm duty h = elim (Bool-cases pwm.moe) [
    | inl on ↦ let bad : false ≡ true = h on in cc
    | inr off ↦ off
  ]

  after_tick-gates :
      (to_u32 : W → ℕ) (enabled prev : Bool) (pwm : MotorPwm) (duty : Duty W)
      → (pwm.moe ≡ true → prev ≡ true)
      → (enabled ≡ false → (after_tick to_u32 enabled prev pwm duty).moe ≡ false)
        × ((after_tick to_u32 enabled prev pwm duty).moe ≡ true → enabled ≡ true)
  after_tick-gates to_u32 true prev pwm duty h = (λ off. cc, λ on. refl)
  after_tick-gates to_u32 false prev pwm duty h =
      let off = after_tick-off to_u32 prev pwm duty h in (λ _. off, λ on. cc)

  motor_tick-Yields :
      (to_u32 : W → ℕ) (trig : Trig W) (fuel : ℕ) (m : Motor W)
      → IsRunning m
      → Yields
          (motor_tick to_u32 trig (suc (suc fuel)) m)
          (λ m'. IsRunning m' × (m.cmd.enabled ≡ false → m'.pwm.moe ≡ false))
  unfolding motor_tick
  motor_tick-Yields to_u32 trig fuel m v =
      Yields->>= (step trig (suc (suc fuel)) m.open_loop m.cmd tick_s) _ _ _
        (step-Yields trig fuel m.open_loop m.cmd v.theta v.freq v.ramp)
        (λ (open_loop, duty) (within, ramp, _).
          let (off, gate) =
            after_tick-gates to_u32 m.cmd.enabled m.prev_enabled m.pwm duty v.gate in
          (_, refl, (record { theta = within; freq = v.freq; ramp = ramp; gate = gate }, off)))

  run_spin-IsRunning :
      (m : Motor W) (freq_hz voltage : W) → IsRunning m → IsRunning (run_spin m freq_hz voltage).0
  unfolding run_spin
  run_spin-IsRunning m freq_hz voltage v =
      elim (Bool-cases (not (fl.is_finite freq_hz) || not (fl.is_finite voltage))) [
        | inl bad ↦ rw bad v
        | inr finite ↦ elim (Bool-cases (fl.lt freq_hz zero_f)) [
          | inl negative ↦ rw (finite, negative) v
          | inr forward ↦ elim (Bool-cases (fl.lt voltage zero_f)) [
            | inl below ↦ rw (finite, forward, below) v
            | inr above ↦
                rw (finite, forward, above)
                  (record {
                    theta = v.theta;
                    freq = capped-IsFreq ieee rounded freq_hz (ground arith) forward;
                    ramp = v.ramp;
                    gate = v.gate;
                  })
          ]
        ]
      ]

  motor_event-Yields :
      (to_u32 : W → ℕ) (trig : Trig W) (fuel : ℕ) (m : Motor W) (x : Event W)
      → IsRunning m
      → Yields (motor_event to_u32 trig (suc (suc fuel)) m x) IsRunning
  unfolding run_stop_inner
  motor_event-Yields to_u32 trig fuel m (spin freq_hz voltage) v =
      (_, refl, run_spin-IsRunning m freq_hz voltage v)
  motor_event-Yields to_u32 trig fuel m stop v =
      (_, refl, record { theta = v.theta; freq = v.freq; ramp = v.ramp; gate = v.gate })
  motor_event-Yields to_u32 trig fuel m tick v =
      let (m', e, (v', _)) = motor_tick-Yields to_u32 trig fuel m v in (m', e, v')

  motor_run-Yields :
      (to_u32 : W → ℕ) (trig : Trig W) (fuel : ℕ) (m : Motor W) (events : List (Event W))
      → IsRunning m
      → Yields (motor_run to_u32 trig (suc (suc fuel)) m events) IsRunning
  motor_run-Yields to_u32 trig fuel m [] v = (m, refl, v)
  motor_run-Yields to_u32 trig fuel m (x ∷ events) v =
      Yields->>= (motor_event to_u32 trig (suc (suc fuel)) m x) _ _ _
        (motor_event-Yields to_u32 trig fuel m x v)
        (λ m' v'. motor_run-Yields to_u32 trig fuel m' events v')

  -- From the start, with the bridge off: whatever commands of the shell and ticks of the task come
  -- in whatever order, every tick ends without a panic on a fuel of 2 or more for the loops that
  -- wrap the angle, the angle is within a turn, the bridge is on only if the command was enabled at
  -- the last tick, and a `stop` followed by a tick leaves the bridge off.
  pub motor_run-stops :
      (to_u32 : W → ℕ) (trig : Trig W) (fuel : ℕ) (pwm : MotorPwm) (events : List (Event W))
      → pwm.moe ≡ false
      → Yields (motor_run to_u32 trig (suc (suc fuel)) (motor_new pwm) events) (λ m.
        InTurn ieee rounded m.open_loop.theta
        × (m.pwm.moe ≡ true → m.prev_enabled ≡ true)
        × Yields
            (motor_tick to_u32 trig (suc (suc fuel)) (run_stop_inner m))
            (λ m'. m'.pwm.moe ≡ false))
  unfolding motor_new open_loop_new run_stop_inner
  motor_run-stops to_u32 trig fuel pwm events h =
      let start : IsRunning (motor_new pwm) = record {
        theta = zero-InTurn ieee rounded;
        freq = (ieee.literal_number 0 0, ieee.literal_nonneg 5000 1);
        ramp = ieee.literal_number 50 1;
        gate = λ on. cc;
      } in
      let (m, e, v) = motor_run-Yields to_u32 trig fuel (motor_new pwm) events start in
      let stopped : IsRunning (run_stop_inner m) = record {
        theta = v.theta;
        freq = v.freq;
        ramp = v.ramp;
        gate = v.gate;
      } in
      let (m', e', (_, off)) = motor_tick-Yields to_u32 trig fuel (run_stop_inner m) stopped in
      (m, e, (v.theta, v.gate, (m', e', off refl)))
