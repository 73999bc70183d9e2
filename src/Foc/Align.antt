-- ===== src/Foc/Align.antt =====
-- foc-algo/src/cascade.rs: an alignment over several cycles.
use rust_foc.Foc.Safety.{run-IsValid, start_align-IsValid}
use rust_foc.Foc.Cycle.{timed-align, run_cycle-Yields}
use rust_foc.Foc.Calls.{run, Call, IsAllowed}
use rust_foc.Foc.Total.{Yields->>=, Yields, IsPeriod}
use rust_foc.Foc.Controller.{update, all_finite, inputs_finite, zero_integrators}
use rust_foc.Foc.Valid.{settings, IsKept, IsValid}
use rust_foc.Foc.State.{same_mode, controller_new, align, Mode, FocController}
use rust_foc.Foc.Settings.{set_mode, start_align}
use rust_foc.Foc.Float.{zero_f, IsIeee, ◌⊕◌, Trig, Float}
use rust_foc.Common.{
  All, ap₂, ◌>>=◌, ℕ, zero, suc, List, Option, some, ◌≡◌, refl, true, false, ap, ◌∙◌,
}

module _ {W : Type 0} ⦃fl : Float W⦄ where
  abbrev pub cycles : Trig W → ℕ → FocController W → W → Option (FocController W)
  cycles trig zero c dt = some c
  cycles trig (suc n) c dt = update trig c dt >>= λ c'. cycles trig n c' dt

  -- A period added so many times.
  abbrev pub time_after : ℕ → W → W → W
  time_after zero t dt = t
  time_after (suc n) t dt = time_after n (t ⊕ dt) dt

module _ {W : Type 0} ⦃fl : Float W⦄ (ieee : IsIeee fl) where
  aligning_cycle :
      (trig : Trig W) (c : FocController W) (dt : W)
      → IsValid ieee c
      → IsPeriod ieee dt
      → c.mode ≡ align
      → inputs_finite c ≡ true
      → Yields (update trig c dt) (IsKept ieee c (c.align_elapsed_s ⊕ dt))
  unfolding update
  aligning_cycle trig c dt v h aligning finite =
      let (c', e, ((v', same, timer), _)) = run_cycle-Yields ieee trig c dt v h in
      rw (h.0, h.1, finite) (c', e, (v', same, timer ∙ timed-align ieee c.mode c dt aligning))

  aligning_cycles :
      (trig : Trig W) (n : ℕ) (c : FocController W) (dt : W)
      → IsValid ieee c
      → IsPeriod ieee dt
      → c.mode ≡ align
      → inputs_finite c ≡ true
      → Yields (cycles trig n c dt) (IsKept ieee c (time_after n c.align_elapsed_s dt))
  aligning_cycles trig zero c dt v h aligning finite = (c, refl, (v, refl, refl))
  aligning_cycles trig (suc n) c dt v h aligning finite =
      Yields->>= (update trig c dt) _ _ _ (aligning_cycle trig c dt v h aligning finite)
        (λ c1 (v1, same1, timer1).
          let (c2, e, (v2, same2, timer2)) =
            aligning_cycles trig n c1 dt v1 h (ap (λ s. s.0) same1 ∙ aligning)
              (ap (λ s. all_finite s.1 s.2) same1 ∙ finite) in
          (c2, e, (v2, same2 ∙ same1, timer2 ∙ ap (λ t. time_after n t dt) timer1)))

  start_align-starts :
      (c : FocController W) (id_ref duration_s : W)
      → same_mode c.mode align ≡ false
      → settings ieee (start_align c id_ref duration_s).0
          ≡ (align, c.meas, record c.target { id_ref = id_ref }, c.i_demag, duration_s)
        × (start_align c id_ref duration_s).0.align_elapsed_s ≡ zero_f
  unfolding start_align set_mode zero_integrators
  start_align-starts c id_ref duration_s other = rw other (refl, refl)

  -- Asked again while it aligns.
  start_align-asks :
      (c : FocController W) (id_ref duration_s : W)
      → c.mode ≡ align
      → (start_align c id_ref duration_s).1 ≡ fl.le c.align_duration_s (c.align_elapsed_s ⊕ zero_f)
  unfolding start_align
  start_align-asks c id_ref duration_s aligning =
      let same : same_mode c.mode align ≡ true = ap (λ m. same_mode m align) aligning in
      rw same refl

  -- After whatever sequence of cycles, calls and writes on a new controller, tuned PIDs and ramps
  -- included, in which the output limits stay not negative, the rate limits numbers, and no speed
  -- threshold is negative or NaN, and which leaves it in another mode: an
  -- alignment that is started with finite inputs goes through any number of cycles of one finite
  -- period above 0, and asked again after them it has ended exactly when the periods, added one by
  -- one to 0, have reached the duration it was started with, whatever it is asked with.
  pub align-ends :
      (trig : Trig W) (mode : Mode) (calls : List (Call W)) (c : FocController W)
      (id_ref duration_s id_ref' duration_s' dt : W) (n : ℕ)
      → All IsAllowed calls
      → run trig (controller_new mode) calls ≡ some c
      → same_mode c.mode align ≡ false
      → inputs_finite (start_align c id_ref duration_s).0 ≡ true
      → fl.is_finite dt ≡ true
      → fl.le dt zero_f ≡ false
      → Yields (cycles trig n (start_align c id_ref duration_s).0 dt) (λ c'.
        (start_align c' id_ref' duration_s').1 ≡ fl.le duration_s (time_after n zero_f dt ⊕ zero_f))
  align-ends trig mode calls c id_ref duration_s id_ref' duration_s' dt n allowed reached other
        finite fin pos =
      let c0 = (start_align c id_ref duration_s).0 in
      let v0 =
        start_align-IsValid ieee c id_ref duration_s
          (run-IsValid ieee trig mode calls c allowed reached) in
      let (started, from_zero) = start_align-starts c id_ref duration_s other in
      let (c', e, (_, same, timer)) =
        aligning_cycles trig n c0 dt v0 (fin, pos) (ap (λ s. s.0) started) finite in
      let kept = same ∙ started in
      (
        c',
        e,
        start_align-asks c' id_ref' duration_s' (ap (λ s. s.0) kept)
            ∙ ap₂ (λ d t. fl.le d (t ⊕ zero_f)) (ap (λ s. s.4) kept)
                (timer ∙ ap (λ t. time_after n t dt) from_zero),
      )
