-- ===== src/Tests/Motor.antt =====
-- The control of the motor at concrete numbers, in millionths.
use rust_foc.Foc.Observer.{SmoConfig, observer_new}
use rust_foc.Foc.Observing.{ask_all-Within, ask_all, Ask, step, step_dq, clear, seed_angle}
use rust_foc.Foc.Weakening.{field_weakening, field_weakening-NonPositive}
use rust_foc.Foc.Safety.{run-InRange}
use rust_foc.Tests.Rounded.{fixed-IsRounded}
use rust_foc.Foc.Demag.{update-IsFloored}
use rust_foc.Foc.Float.{Within}
use rust_foc.Foc.Gains.{torque_to_iq}
use rust_foc.Foc.State.{MotorParams}
use rust_foc.Motor.Turn.{advance_angle-InTurn, InTurn}
use rust_foc.Foc.Protection.{foldback, factor, i2t_new}
use rust_foc.Foc.Controller.{update, inputs_finite, zero_integrators}
use rust_foc.Motor.Task.{run_stop_inner, motor_tick, motor_new}
use rust_foc.Motor.OpenLoop.{advance_angle}
use rust_foc.Foc.Align.{align-ends, cycles}
use rust_foc.Foc.Settings.{current_pid_d, set_demag_current, set_mode, start_align}
use rust_foc.Motor.Bridge.{MotorPwm}
use rust_foc.Foc.Total.{InRange, Yields}
use rust_foc.Common.{All, ◌/◌, ℕ, ◌≡◌, true, false, refl, List, [], ◌∷◌, some}
use rust_foc.Foc.State.{controller_new, FocController, Meas, Target, off, torque, speed}
use rust_foc.Foc.Calls.{call, set_inputs, call_set_mode, call_demag_current, call_update}
use rust_foc.Foc.Thermal.{use_all-Within, use_all, cycle, cool}
use rust_foc.Motor.Gate.{Event, motor_run-stops, motor_run, spin, stop, tick}
use rust_foc.Tests.Fixed.{lt_fixed, fixed-IsIeee, fixed_float, still, Fixed, plus, minus, nan}
use rust_foc.Foc.Calls.{
  run, Call, IsAllowed, call_speed_pid, call_current_pid_d, call_current_pid_q, write_iq_ramp,
  call_speed_threshold,
}
use rust_foc.Foc.Math.{Pid}

-- 24 V on the bus, a turn of the rotor, and a speed of 10 asked for.
abbrev measured : Meas Fixed
measured = record {
  position = plus 0;
  speed = plus 1000000;
  accel = plus 0;
  ia = plus 200000;
  ib = minus 99999;
  theta = plus 500000;
  vdc = plus 24000000;
}

-- 5 A against the flux on the d axis.
abbrev asked : Target Fixed
asked = record {
  iq = plus 2000000;
  speed_ref = plus 10000000;
  position = plus 0;
  id_ref = minus 4999999;
}

abbrev unmeasured : Meas Fixed
unmeasured = record measured { vdc = nan }

-- A tenth of a millisecond.
abbrev period : Fixed
period = plus 100

abbrev gains : Pid Fixed → Pid Fixed
gains p = record p { kp = plus 3000000; ki = plus 900000000; output_limit = plus 12000000 }

abbrev calls : List (Call Fixed)
calls =
    call_speed_pid (λ p. record p { kp = plus 100000; ki = plus 2000000 })
    ∷ call_current_pid_d gains
    ∷ call_current_pid_q gains
    ∷ write_iq_ramp (λ r. record r { rate_limit = plus 500000000 })
    ∷ call_speed_threshold (plus 50000000)
    ∷ set_inputs asked measured
    ∷ call_update period
    ∷ call_set_mode speed
    ∷ call_update period
    ∷ set_inputs asked unmeasured
    ∷ call_update period
    ∷ call_update nan
    ∷ []

calls-IsAllowed : All IsAllowed calls
calls-IsAllowed = (
  (λ p h. h),
  (
    (λ p h. refl),
    ((λ p h. refl), ((λ r h. refl), (refl, (tt, (tt, (tt, (tt, (tt, (tt, (tt, tt)))))))))),
  ),
)

run-InRange_example :
    Yields (run still (controller_new torque) calls) (λ c. InRange fixed-IsIeee c.duty)
run-InRange_example = run-InRange fixed-IsIeee still torque calls calls-IsAllowed

abbrev demag_calls : List (Call Fixed)
demag_calls =
    call_current_pid_d gains ∷ call_demag_current (minus 999999) ∷ set_inputs asked measured ∷ []

abbrev demag_ready : FocController Fixed
demag_ready = record (controller_new torque) {
  current = record (controller_new torque).current {
    d_pid = gains (controller_new torque).current.d_pid;
  };
  i_demag = minus 999999;
  target = asked;
  meas = measured;
}

demag-reached : run still (controller_new torque) demag_calls ≡ some demag_ready
unfolding run call set_demag_current current_pid_d
demag-reached = refl

update-IsFloored_example :
    Yields
      (update still demag_ready period)
      (λ c'. fixed_float.lt c'.runtime.id_command (minus 999999) ≡ false)
update-IsFloored_example =
    update-IsFloored fixed-IsIeee still torque demag_calls demag_ready period
      ((λ p h. refl), (tt, (tt, tt))) demag-reached refl refl refl refl refl

abbrev align_calls : List (Call Fixed)
align_calls = set_inputs asked measured ∷ []

abbrev align_ready : FocController Fixed
align_ready = record (controller_new off) { target = asked; meas = measured }

align-reached : run still (controller_new off) align_calls ≡ some align_ready
unfolding run call
align-reached = refl

align-finite : inputs_finite (start_align align_ready (plus 1000000) (plus 250)).0 ≡ true
unfolding start_align set_mode zero_integrators
align-finite = refl

-- Three periods reach an alignment of two and a half.
align-ends_example :
    Yields
      (cycles still 3 (start_align align_ready (plus 1000000) (plus 250)).0 period)
      (λ c'. (start_align c' (plus 0) (plus 0)).1 ≡ true)
align-ends_example =
    align-ends fixed-IsIeee still off align_calls align_ready (plus 1000000) (plus 250) (plus 0)
      (plus 0) period 3 (tt, tt) align-reached refl align-finite refl refl

use_all-Within_example :
    Yields
      (use_all
        (i2t_new (plus 10000000) (plus 50000000) (plus 500000))
        (cycle (plus 20000000) (plus 100000) ∷ cool ∷ cycle (plus 30000000) (plus 100000) ∷ []))
      (λ l.
        Within fixed-IsIeee (plus 0) l.limit l.accumulator
        × Within fixed-IsIeee (plus 0) (plus 1000000) (factor l)
        × Yields
            (foldback l (plus 20000000) (plus 100000))
            (λ x. Within fixed-IsIeee (plus 0) (plus 1000000) x.1))
use_all-Within_example =
    use_all-Within fixed-IsIeee (plus 10000000) (plus 50000000) (plus 500000) (plus 20000000)
      (plus 100000)
      (cycle (plus 20000000) (plus 100000) ∷ cool ∷ cycle (plus 30000000) (plus 100000) ∷ []) refl

-- A speed of at most 6283, and a resistance of half an ohm.
abbrev sensorless : SmoConfig Fixed
sensorless = record {
  rs = plus 500000;
  ls = plus 500;
  k_slide = plus 50000000;
  emf_cutoff = plus 200000000;
  pll_kp = plus 44000000;
  pll_ki = plus 987000000;
  max_omega = plus 6283000000;
}

-- Two updates, the angle seeded and all cleared between them.
abbrev session : List (Ask Fixed)
session =
    step (plus 1000000) (plus 0) (plus 200000) (minus 99999) (plus 100)
    ∷ seed_angle (plus 500000)
    ∷ step_dq (plus 0) (plus 1000000) (plus 500000) (plus 0) (plus 2000000) (plus 100)
    ∷ clear
    ∷ []

ask_all-Within_example :
    Yields
      (ask_all still (λ x y. plus 0) (λ x y. x) (observer_new sensorless) session)
      (λ o. Within fixed-IsIeee (minus 6282999999) (plus 6283000000) o.pll_integral)
ask_all-Within_example =
    ask_all-Within fixed-IsIeee still (λ x y. plus 0) (λ x y. x) sensorless session refl

-- 24 V, 10000 rad/s, a flux of 5 mWb and an inductance of 0.2 mH.
field_weakening-NonPositive_example :
    Yields
      (field_weakening true (plus 24000000) (plus 10000000000) (plus 5000) (plus 200))
      (λ id_ref. lt_fixed (plus 0) id_ref ≡ false)
field_weakening-NonPositive_example =
    field_weakening-NonPositive fixed-IsIeee true (plus 24000000) (plus 10000000000) (plus 5000)
      (plus 200) refl refl

-- The cast of a fixed-point number to an integer.
abbrev pub whole : Fixed → ℕ
whole (plus n) = n / 1000000
whole _ = 0

abbrev pub timer : MotorPwm
timer = record { moe = false; ch1 = 0; ch2 = 0; ch3 = 0; max_duty = 4250 }

abbrev pub spin_and_stop : List (Event Fixed)
spin_and_stop = spin (plus 10000000) (plus 2000000) ∷ tick ∷ tick ∷ stop ∷ tick ∷ []

advance_angle-InTurn_example :
    Yields
      (advance_angle 2 (plus 6283000) (plus 500000000) period)
      (InTurn fixed-IsIeee fixed-IsRounded)
advance_angle-InTurn_example =
    advance_angle-InTurn fixed-IsIeee fixed-IsRounded 0 (plus 6283000) (plus 500000000) (refl, refl)
      (refl, refl)

motor_run-stops_example : Yields (motor_run whole still 2 (motor_new timer) spin_and_stop) (λ m.
    InTurn fixed-IsIeee fixed-IsRounded m.open_loop.theta
    × (m.pwm.moe ≡ true → m.prev_enabled ≡ true)
    × Yields (motor_tick whole still 2 (run_stop_inner m)) (λ m'. m'.pwm.moe ≡ false))
motor_run-stops_example =
    motor_run-stops fixed-IsIeee fixed-IsRounded whole still 0 timer spin_and_stop refl

-- 0.3 ohm, half a millihenry, 7 pairs of poles.
abbrev small_motor : MotorParams Fixed
small_motor = record {
  r = plus 300000;
  ld = plus 500;
  lq = plus 500;
  flux_linkage = plus 10000;
  pole_pairs = 7;
  continuous_current = plus 5000000;
  inertia = plus 10;
}

-- 1.05 newton metres need 10 A.
torque-amperes : torque_to_iq small_motor (plus 1050000) ≡ some (plus 10000000)
unfolding torque_to_iq
torque-amperes = refl
