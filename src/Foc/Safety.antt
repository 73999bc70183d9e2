-- ===== src/Foc/Safety.antt =====
-- foc-algo/src/cascade.rs: whatever the application asks of the controller, a cycle does not panic
-- and its duty cycles are in range.
use rust_foc.Foc.Total.{zero_duty-InRange, InRange, Yields->>=, Yields}
use rust_foc.Foc.Valid.{sound, settings, with_duty-IsValid, controller_new-IsValid, IsValid}
use rust_foc.Foc.Settings.{
  position_pid, speed_pid, current_pid_d, current_pid_q, set_reset_on_off, set_demag_current,
  set_decoupling_speed_threshold, enable_decoupling, set_motor, set_position_ff, set_speed_ff,
  set_current_limit, set_mode, start_align,
}
use rust_foc.Foc.Pwm.{zero_duty}
use rust_foc.Foc.Float.{zero_f, Trig, IsIeee, Float}
use rust_foc.Foc.Controller.{update, inputs_finite, zero_integrators}
use rust_foc.Foc.Calls.{
  IsAllowed, call_position_pid, call_speed_pid, call_current_pid_d, call_current_pid_q,
  write_pos_ramp, write_speed_ramp, write_iq_ramp, Call, run, call, set_inputs, call_set_mode,
  call_align, call_current_limit, call_speed_ff, call_position_ff, call_motor, call_decoupling,
  call_speed_threshold, call_demag_current, call_reset_on_off, call_update,
}
use mathlib.Core.Option.{some-injective}
use rust_foc.Common.{
  All, some, sym, not, ◌||◌, ◌≡◌, subst, ◌∙◌, ◌≡◌, ◌||◌, not, Bool-cases, List, [], ◌∷◌, refl, inl,
  inr, arith,
}
use rust_foc.Foc.State.{controller_new, same_mode, Mode, FocController, align}
use rust_foc.Foc.Cycle.{run_cycle-Yields}

module _ {W : Type 0} ⦃fl : Float W⦄ (ieee : IsIeee fl) where
  -- A cycle of a valid controller, with whatever inputs and period.
  update-Yields :
      (trig : Trig W) (c : FocController W) (dt : W)
      → IsValid ieee c
      → Yields (update trig c dt) (λ c'. IsValid ieee c' × (settings ieee c' ≡ settings ieee c))
  unfolding update zero_integrators
  update-Yields trig c dt v = elim (Bool-cases (not (fl.is_finite dt) || fl.le dt zero_f)) [
    | inl bad ↦ rw bad (c, refl, (v, refl))
    | inr good ↦ elim (Bool-cases (inputs_finite c)) [
      | inl finite ↦
          let (c', e, ((v', same, _), _)) =
            run_cycle-Yields ieee trig c dt v (ground arith, ground arith) in
          rw (good, finite) (c', e, (v', same))
      | inr infinite ↦
          rw (good, infinite)
            (_, refl, (with_duty-IsValid ieee c zero_duty v (zero_duty-InRange ieee), refl))
    ]
  ]

  pub start_align-IsValid :
      (c : FocController W) (id_ref duration_s : W)
      → IsValid ieee c
      → IsValid ieee (start_align c id_ref duration_s).0
  unfolding start_align set_mode zero_integrators
  start_align-IsValid c id_ref duration_s v = elim (Bool-cases (same_mode c.mode align)) [
    | inl aligning ↦ rw aligning v
    | inr other ↦ rw other v
  ]

  -- An allowed call of a valid controller succeeds and keeps it valid.
  call-Yields :
      (trig : Trig W) (c : FocController W) (x : Call W)
      → IsValid ieee c
      → IsAllowed x
      → Yields (call trig c x) (IsValid ieee)
  unfolding call set_mode set_current_limit set_speed_ff set_position_ff set_motor enable_decoupling
      set_decoupling_speed_threshold set_demag_current set_reset_on_off position_pid speed_pid
      current_pid_d current_pid_q
  call-Yields trig c (set_inputs target meas) v allowed = (_, refl, v)
  call-Yields trig c (call_set_mode mode) v allowed = (_, refl, v)
  call-Yields trig c (call_align id_ref duration_s) v allowed =
      (_, refl, start_align-IsValid c id_ref duration_s v)
  call-Yields trig c (call_current_limit amps) v allowed = (_, refl, v)
  call-Yields trig c (call_speed_ff cb) v allowed = (_, refl, v)
  call-Yields trig c (call_position_ff cb) v allowed = (_, refl, v)
  call-Yields trig c (call_motor m) v allowed = (_, refl, v)
  call-Yields trig c (call_decoupling on) v allowed = (_, refl, v)
  call-Yields trig c (call_speed_threshold x) v allowed =
      (record c { decoupling_speed_threshold = x }, rw allowed refl, v)
  call-Yields trig c (call_demag_current i) v allowed = (_, refl, v)
  call-Yields trig c (call_reset_on_off on) v allowed = (_, refl, v)
  call-Yields trig c (call_position_pid write) v keeps = (
    _,
    refl,
    sound ieee v.pos_ramp v.speed_ramp v.iq_ramp (keeps _ v.position_pid) v.speed_pid v.d_pid
        v.q_pid v.duty,
  )
  call-Yields trig c (call_speed_pid write) v keeps = (
    _,
    refl,
    sound ieee v.pos_ramp v.speed_ramp v.iq_ramp v.position_pid (keeps _ v.speed_pid) v.d_pid
        v.q_pid v.duty,
  )
  call-Yields trig c (call_current_pid_d write) v keeps = (
    _,
    refl,
    sound ieee v.pos_ramp v.speed_ramp v.iq_ramp v.position_pid v.speed_pid (keeps _ v.d_pid)
        v.q_pid v.duty,
  )
  call-Yields trig c (call_current_pid_q write) v keeps = (
    _,
    refl,
    sound ieee v.pos_ramp v.speed_ramp v.iq_ramp v.position_pid v.speed_pid v.d_pid
        (keeps _ v.q_pid) v.duty,
  )
  call-Yields trig c (write_pos_ramp write) v keeps = (
    _,
    refl,
    sound ieee (keeps _ v.pos_ramp) v.speed_ramp v.iq_ramp v.position_pid v.speed_pid v.d_pid
        v.q_pid v.duty,
  )
  call-Yields trig c (write_speed_ramp write) v keeps = (
    _,
    refl,
    sound ieee v.pos_ramp (keeps _ v.speed_ramp) v.iq_ramp v.position_pid v.speed_pid v.d_pid
        v.q_pid v.duty,
  )
  call-Yields trig c (write_iq_ramp write) v keeps = (
    _,
    refl,
    sound ieee v.pos_ramp v.speed_ramp (keeps _ v.iq_ramp) v.position_pid v.speed_pid v.d_pid
        v.q_pid v.duty,
  )
  call-Yields trig c (call_update dt) v allowed =
      let (c', e, (v', _)) = update-Yields trig c dt v in (c', e, v')

  run-Yields :
      (trig : Trig W) (c : FocController W) (calls : List (Call W))
      → IsValid ieee c
      → All IsAllowed calls
      → Yields (run trig c calls) (IsValid ieee)
  unfolding run
  run-Yields trig c [] v allowed = (c, refl, v)
  run-Yields trig c (x ∷ calls) v (first, allowed) =
      Yields->>= (call trig c x) _ _ _ (call-Yields trig c x v first)
        (λ c' v'. run-Yields trig c' calls v' allowed)

  -- A new controller, in whatever mode, goes through whatever sequence of cycles, of calls of its
  -- methods and of writes to its inputs, its ramps and its PIDs, gains included, without a panic, as
  -- long as the writes leave the output limits not negative and the rate limits numbers, and no
  -- speed threshold is negative or NaN; the inputs and the periods are any. After them no phase of
  -- its duty is below 0 or above 1.
  pub run-InRange :
      (trig : Trig W) (mode : Mode) (calls : List (Call W))
      → All IsAllowed calls
      → Yields (run trig (controller_new mode) calls) (λ c. InRange ieee c.duty)
  run-InRange trig mode calls allowed =
      let (c, e, v) =
        run-Yields trig (controller_new mode) calls (controller_new-IsValid ieee mode) allowed in
      (c, e, v.duty)

  -- A controller that a new one became, after whatever sequence of allowed calls, meets the invariant.
  pub run-IsValid :
      (trig : Trig W) (mode : Mode) (calls : List (Call W)) (c : FocController W)
      → All IsAllowed calls
      → run trig (controller_new mode) calls ≡ some c
      → IsValid ieee c
  run-IsValid trig mode calls c allowed e =
      let (c', e', v) =
        run-Yields trig (controller_new mode) calls (controller_new-IsValid ieee mode) allowed in
      subst (IsValid ieee) (some-injective _ _ (sym e' ∙ e)) v
