-- ===== src/Foc/Cycle.antt =====
-- foc-algo/src/cascade.rs: a cycle with finite inputs succeeds on a controller that meets the
-- invariant, and keeps the settings.
use rust_foc.Foc.Chains.{drive-Yields, loop_output-Yields, IsFloored}
use rust_foc.Foc.Total.{Yields->>=, Yields, IsPeriod}
use rust_foc.Foc.Valid.{apply_off_state-IsKept, IsKept, IsValid}
use rust_foc.Foc.Float.{◌⊕◌, Trig, IsIeee, Float}
use rust_foc.Foc.Controller.{
  drive, loop_output, apply_off_state, seed_ramps, run_cycle, in_mode, timed, seeded,
}
use rust_foc.Common.{true, sym, ◌≡◌, ap, subst, ◌∙◌, ◌>>=◌, false, ◌≡◌, Bool-cases, refl, inl, inr}
use rust_foc.Foc.State.{is_off, same_mode, Mode, FocController, off, align, torque, speed, position}

module _ {W : Type 0} ⦃fl : Float W⦄ (ieee : IsIeee fl) where
  seed_ramps-IsKept :
      (mode : Mode) (c : FocController W)
      → IsValid ieee c
      → IsKept ieee c c.align_elapsed_s (seed_ramps mode c)
  seed_ramps-IsKept off c v = (v, refl, refl)
  seed_ramps-IsKept align c v = (v, refl, refl)
  seed_ramps-IsKept torque c v = (v, refl, refl)
  seed_ramps-IsKept speed c v = (v, refl, refl)
  seed_ramps-IsKept position c v = (v, refl, refl)

  timed-IsKept :
      (mode : Mode) (c : FocController W) (dt : W)
      → IsValid ieee c
      → IsKept ieee c (timed mode c dt).align_elapsed_s (timed mode c dt)
  unfolding timed
  timed-IsKept mode c dt v = elim (Bool-cases (same_mode mode align)) [
    | inl aligning ↦ rw aligning (v, refl, refl)
    | inr other ↦ rw other (v, refl, refl)
  ]

  timed-off :
      (mode : Mode) (c : FocController W) (dt : W)
      → is_off mode ≡ true
      → (timed mode c dt).align_elapsed_s ≡ c.align_elapsed_s
  unfolding timed
  timed-off off c dt h = refl
  timed-off align c dt h = cc
  timed-off torque c dt h = refl
  timed-off speed c dt h = refl
  timed-off position c dt h = refl

  pub timed-align :
      (mode : Mode) (c : FocController W) (dt : W)
      → mode ≡ align
      → (timed mode c dt).align_elapsed_s ≡ c.align_elapsed_s ⊕ dt
  unfolding timed
  timed-align mode c dt e = rw e refl

  timed-elapsed :
      (mode : Mode) (c c' : FocController W) (dt : W)
      → c.align_elapsed_s ≡ c'.align_elapsed_s
      → (timed mode c dt).align_elapsed_s ≡ (timed mode c' dt).align_elapsed_s
  unfolding timed
  timed-elapsed off c c' dt e = e
  timed-elapsed align c c' dt e = ap (λ t. t ⊕ dt) e
  timed-elapsed torque c c' dt e = e
  timed-elapsed speed c c' dt e = e
  timed-elapsed position c c' dt e = e

  -- Steps 3 to 6.
  driven-Yields :
      (trig : Trig W) (mode : Mode) (c : FocController W) (dt : W)
      → is_off mode ≡ false
      → IsValid ieee c
      → IsPeriod ieee dt
      → Yields
          (loop_output mode c dt >>= λ (c', iq_target, speed_target).
            drive trig c' iq_target speed_target dt)
          (λ c'. IsKept ieee c c.align_elapsed_s c' × IsFloored ieee c.i_demag c')
  driven-Yields trig mode c dt on v h =
      Yields->>= (loop_output mode c dt) _ _ _ (loop_output-Yields ieee mode c dt on v h)
        (λ (c1, iq_target, speed_target) (v1, same1, timer1).
          let (c2, e, ((v2, same2, timer2), floored)) =
            drive-Yields ieee trig c1 iq_target speed_target dt v1 in
          (
            c2,
            e,
            (
              (v2, same2 ∙ same1, timer2 ∙ timer1),
              subst (λ i. IsFloored ieee i c2) (ap (λ s. s.3) same1) floored,
            ),
          ))

  seeded-IsKept :
      (c : FocController W) → IsValid ieee c → IsKept ieee c c.align_elapsed_s (seeded c)
  unfolding seeded
  seeded-IsKept c v = elim (Bool-cases (same_mode c.mode c.prev_mode)) [
    | inl same ↦ rw same (v, refl, refl)
    | inr changed ↦ rw changed (seed_ramps-IsKept c.mode c v)
  ]

  in_mode-Yields :
      (trig : Trig W) (mode : Mode) (c : FocController W) (dt : W)
      → IsValid ieee c
      → IsPeriod ieee dt
      → Yields (in_mode trig mode c dt) (λ c'.
        IsKept ieee c (timed mode c dt).align_elapsed_s c'
        × (is_off mode ≡ false → IsFloored ieee c.i_demag c'))
  unfolding in_mode
  in_mode-Yields trig mode c dt v h =
      let kept = apply_off_state-IsKept ieee c v in
      elim (Bool-cases (is_off mode)) [
        | inl stopped ↦ rw stopped (
          apply_off_state c,
          refl,
          ((kept.0, kept.1, kept.2 ∙ sym (timed-off mode c dt stopped)), λ on. cc),
        )
        | inr on ↦ rw on (
            let (v1, same, timer) = timed-IsKept mode c dt v in
            let (c', e, ((v2, same', timer'), floored)) =
              driven-Yields trig mode (timed mode c dt) dt on v1 h in
            (
              c',
              e,
              (
                (v2, same' ∙ same, timer'),
                λ _. subst (λ i. IsFloored ieee i c') (ap (λ s. s.3) same) floored,
              ),
            ))
      ]

  -- A cycle with finite inputs and a period.
  pub run_cycle-Yields :
      (trig : Trig W) (c : FocController W) (dt : W)
      → IsValid ieee c
      → IsPeriod ieee dt
      → Yields (run_cycle trig c dt) (λ c'.
        IsKept ieee c (timed c.mode c dt).align_elapsed_s c'
        × (is_off c.mode ≡ false → IsFloored ieee c.i_demag c'))
  unfolding run_cycle
  run_cycle-Yields trig c dt v h =
      let (v1, same, timer) = seeded-IsKept c v in
      let (c', e, ((v2, same', timer'), floored)) = in_mode-Yields trig c.mode (seeded c) dt v1 h in
      (
        c',
        e,
        (
          (v2, same' ∙ same, timer' ∙ timed-elapsed c.mode (seeded c) c dt timer),
          λ on. subst (λ i. IsFloored ieee i c') (ap (λ s. s.3) same) (floored on),
        ),
      )
