-- ===== src/Foc/Weakening.antt =====
-- foc-algo/src/field_weakening.rs, in a build with debug assertions or without; `none` is a panic.
use rust_foc.Common.{
  arith, ◌≡◌, ◌||◌, ◌&&◌, not, Bool, true, false, Option, none, some, if◌then◌else◌, ◌>>=◌, refl,
  inl, inr, Bool-cases,
}
use rust_foc.Foc.Float.{
  Float, IsIeee, IsNumber, ◌⊕◌, ◌⊖◌, ◌⊗◌, ◌⊘◌, zero_f, one_f, max_f, clamp, clamp-Within,
}
use rust_foc.Foc.Total.{Yields, Yields->>=}

module _ {W : Type 0} ⦃fl : Float W⦄ where
  -- The current above the base speed.
  unfoldable pub weakened : W → W → W → W → Option W
  weakened omega_e omega_base flux_linkage ld =
      clamp (omega_base ⊘ omega_e ⊖ one_f) (fl.neg one_f) zero_f >>= λ ratio.
      some ((flux_linkage ⊘ ld) ⊗ ratio)

  -- From the flux on, with the speed not below 0.
  unfoldable pub guarded : W → W → W → W → Option W
  guarded vdc speed flux_linkage ld =
      let v_limit = vdc ⊘ fl.literal 17320508 7 in
      if fl.le flux_linkage zero_f || fl.le speed zero_f
      then some zero_f
      else if fl.le speed (v_limit ⊘ flux_linkage)
      then some zero_f
      else weakened speed (v_limit ⊘ flux_linkage) flux_linkage ld

  unfoldable pub field_weakening : Bool → W → W → W → W → Option W
  field_weakening debug vdc omega_e flux_linkage ld =
      if fl.le ld zero_f || fl.le vdc zero_f
      then some zero_f
      else if debug && not (fl.lt zero_f ld && fl.lt zero_f vdc)
      then none
      else guarded vdc (max_f omega_e zero_f) flux_linkage ld

  -- `libm::sqrtf` is the square root of the floats.
  unfoldable pub mtpa : Bool → W → W → W → W → Option W
  mtpa debug flux_linkage lq ld iq =
      if debug && not (fl.lt ld lq && fl.lt zero_f lq && fl.lt zero_f ld)
      then none
      else let delta_l = lq ⊖ ld in
        if fl.le delta_l zero_f
        then some zero_f
        else let iq_abs = fl.abs iq in
          let term = flux_linkage ⊘ (fl.literal 2 0 ⊗ delta_l) in
          some (term ⊖ fl.sqrt (term ⊗ term ⊕ iq_abs ⊗ iq_abs))

module _ {W : Type 0} ⦃fl : Float W⦄ (ieee : IsIeee fl) where
  not_negative : (x : W) → fl.le x zero_f ≡ false → fl.lt x zero_f ≡ false
  not_negative x h = elim (Bool-cases (fl.lt x zero_f)) [
    | inl below ↦ (let above = ieee.le_of_lt x zero_f below in cc)
    | inr above ↦ above
  ]

  weakened-NonPositive :
      (omega_e omega_base flux_linkage ld : W)
      → fl.le flux_linkage zero_f ≡ false
      → fl.le ld zero_f ≡ false
      → Yields (weakened omega_e omega_base flux_linkage ld) (λ id_ref. fl.lt zero_f id_ref ≡ false)
  unfolding weakened
  weakened-NonPositive omega_e omega_base flux_linkage ld flux inductance =
      let share = ieee.div_nonneg flux_linkage ld (not_negative flux_linkage flux) inductance in
      Yields->>= (clamp _ (fl.neg one_f) zero_f) _ _ _
        (clamp-Within ieee _ (fl.neg one_f) zero_f ieee.neg_one_le_zero)
        (λ ratio within. (_, refl, ieee.mul_nonpos (flux_linkage ⊘ ld) ratio share within.1))

  and_false : (b : Bool) → (b && false) ≡ false
  and_false true = refl
  and_false false = refl

  guarded-NonPositive :
      (vdc speed flux_linkage ld : W)
      → fl.le ld zero_f ≡ false
      → Yields (guarded vdc speed flux_linkage ld) (λ id_ref. fl.lt zero_f id_ref ≡ false)
  unfolding guarded
  guarded-NonPositive vdc speed flux_linkage ld inductance =
      elim (Bool-cases (fl.le flux_linkage zero_f || fl.le speed zero_f)) [
        | inl still ↦ rw still (zero_f, refl, ieee.lt_irrefl zero_f)
        | inr turns ↦ elim (Bool-cases (fl.le speed (vdc ⊘ fl.literal 17320508 7 ⊘ flux_linkage))) [
          | inl below ↦ rw (turns, below) (zero_f, refl, ieee.lt_irrefl zero_f)
          | inr above ↦
              rw (turns, above)
                (weakened-NonPositive speed _ flux_linkage ld (ground arith) inductance)
        ]
      ]

  -- With an inductance and a bus voltage that are numbers, the setpoint of field weakening is
  -- computed without a panic, in a build with debug assertions and in one without, and it is not
  -- above 0, whatever the speed and the flux are.
  pub field_weakening-NonPositive :
      (debug : Bool) (vdc omega_e flux_linkage ld : W)
      → IsNumber vdc
      → IsNumber ld
      → Yields
          (field_weakening debug vdc omega_e flux_linkage ld)
          (λ id_ref. fl.lt zero_f id_ref ≡ false)
  unfolding field_weakening
  field_weakening-NonPositive debug vdc omega_e flux_linkage ld volts henries =
      elim (Bool-cases (fl.le ld zero_f)) [
        | inl no_ld ↦ rw no_ld (zero_f, refl, ieee.lt_irrefl zero_f)
        | inr ld_set ↦ elim (Bool-cases (fl.le vdc zero_f)) [
          | inl no_vdc ↦ rw (ld_set, no_vdc) (zero_f, refl, ieee.lt_irrefl zero_f)
          | inr vdc_set ↦
              let zero_number = ieee.literal_number 0 0 in
              let ld_above = ieee.lt_of_not_le ld zero_f henries zero_number ld_set in
              let vdc_above = ieee.lt_of_not_le vdc zero_f volts zero_number vdc_set in
              rw (ld_set, vdc_set, ld_above, vdc_above, and_false debug)
                (guarded-NonPositive vdc (max_f omega_e zero_f) flux_linkage ld ld_set)
        ]
      ]
