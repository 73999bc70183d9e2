-- ===== src/Foc/Thermal.antt =====
-- foc-algo/src/protection.rs: the thermal limiter over a whole run.
use rust_foc.Common.{
  ◌≡◌, true, false, Option, some, refl, inl, inr, Bool-cases, List, [], ◌∷◌, ◌>>=◌,
}
use rust_foc.Foc.Float.{Float, IsIeee, zero_f, one_f, Within, clamp, clamp-Within, max_f}
use rust_foc.Foc.Protection.{I2tLimiter, i2t_new, i2t_reset, factor, foldback, heated}
use rust_foc.Foc.Total.{Yields, Yields->>=}

-- A cycle with a current and a period, or a reset.
pub data Use (W : Type 0) : Type 0 where
  cycle : W → W → Use W
  cool : Use W

module _ {W : Type 0} ⦃fl : Float W⦄ where
  abbrev pub use_limiter : I2tLimiter W → Use W → Option (I2tLimiter W)
  use_limiter l (cycle i_actual dt) = foldback l i_actual dt >>= λ x. some x.0
  use_limiter l cool = some (i2t_reset l)

  abbrev pub use_all : I2tLimiter W → List (Use W) → Option (I2tLimiter W)
  use_all l [] = some l
  use_all l (x ∷ xs) = use_limiter l x >>= λ l'. use_all l' xs

module _ {W : Type 0} ⦃fl : Float W⦄ (ieee : IsIeee fl) where
  -- A limit that is not negative, and an accumulator between 0 and it.
  record IsLimiter (l : I2tLimiter W) : Type 0 where
    limit : fl.le zero_f l.limit ≡ true
    accumulator : Within ieee zero_f l.limit l.accumulator

  zero-Within : (x : W) → fl.le zero_f x ≡ true → Within ieee zero_f x zero_f
  zero-Within x h = (ieee.lt_irrefl zero_f, ieee.not_lt_of_le zero_f x h)

  -- `max(0)` of what is not above an upper limit.
  max_f-Within :
      (x hi : W)
      → fl.le zero_f hi ≡ true
      → fl.lt hi x ≡ false
      → Within ieee zero_f hi (max_f x zero_f)
  max_f-Within x hi h below = elim (Bool-cases (fl.le x x)) [
    | inl number ↦ elim (Bool-cases (fl.lt x zero_f)) [
      | inl negative ↦ rw (number, negative) (zero-Within hi h)
      | inr positive ↦ rw (number, positive) (positive, below)
    ]
    | inr not_number ↦ rw not_number (zero-Within hi h)
  ]

  factor-Within : (l : I2tLimiter W) → IsLimiter l → Within ieee zero_f one_f (factor l)
  unfolding factor
  factor-Within l v = elim (Bool-cases (fl.le l.limit zero_f)) [
    | inl disabled ↦
        rw disabled (ieee.not_lt_of_le zero_f one_f ieee.zero_le_one, ieee.lt_irrefl one_f)
    | inr enabled ↦
        let share = ieee.div_nonneg l.accumulator l.limit v.accumulator.0 enabled in
        rw enabled (max_f-Within _ one_f ieee.zero_le_one (ieee.sub_le one_f _ share))
  ]

  foldback-IsLimiter :
      (l : I2tLimiter W) (i_actual dt : W)
      → IsLimiter l
      → Yields (foldback l i_actual dt) (λ x. IsLimiter x.0 × Within ieee zero_f one_f x.1)
  unfolding foldback
  foldback-IsLimiter l i_actual dt v = elim (Bool-cases (fl.le dt zero_f)) [
    | inl no_time ↦ rw no_time ((l, factor l), refl, (v, factor-Within l v))
    | inr some_time ↦ rw some_time (
        Yields->>= (clamp (heated l i_actual dt) zero_f l.limit) _ _ _
          (clamp-Within ieee (heated l i_actual dt) zero_f l.limit v.limit)
          (λ accumulator within.
            let v' : IsLimiter (record l { accumulator = accumulator }) = record {
              limit = v.limit;
              accumulator = within;
            } in
            (_, refl, (v', factor-Within (record l { accumulator = accumulator }) v'))))
  ]

  use_all-IsLimiter :
      (l : I2tLimiter W) (uses : List (Use W)) → IsLimiter l → Yields (use_all l uses) IsLimiter
  unfolding i2t_reset
  use_all-IsLimiter l [] v = (l, refl, v)
  use_all-IsLimiter l (cycle i_actual dt ∷ uses) v =
      Yields->>= (use_limiter l (cycle i_actual dt)) IsLimiter _ _
        (Yields->>= (foldback l i_actual dt) _ _ _ (foldback-IsLimiter l i_actual dt v)
          (λ (l', share) (v', _). (l', refl, v')))
        (λ l' v'. use_all-IsLimiter l' uses v')
  use_all-IsLimiter l (cool ∷ uses) v =
      use_all-IsLimiter (i2t_reset l) uses
        (record { limit = v.limit; accumulator = zero-Within l.limit v.limit })

  -- A new limiter whose limit is not negative goes through whatever sequence of cycles and resets
  -- without a panic; after it the factor, and the one that a further cycle returns, is neither
  -- below 0 nor above 1, and the accumulator is neither below 0 nor above the limit.
  pub use_all-Within :
      (i_rated limit cooling_rate i_actual dt : W) (uses : List (Use W))
      → fl.le zero_f limit ≡ true
      → Yields (use_all (i2t_new i_rated limit cooling_rate) uses) (λ l.
        Within ieee zero_f l.limit l.accumulator
        × Within ieee zero_f one_f (factor l)
        × Yields (foldback l i_actual dt) (λ x. Within ieee zero_f one_f x.1))
  unfolding i2t_new
  use_all-Within i_rated limit cooling_rate i_actual dt uses h =
      let new = i2t_new i_rated limit cooling_rate in
      let v : IsLimiter new = record { limit = h; accumulator = zero-Within limit h } in
      let (l, e, v') = use_all-IsLimiter new uses v in
      let (x, e', (_, within)) = foldback-IsLimiter l i_actual dt v' in
      (l, e, (v'.accumulator, factor-Within l v', (x, e', within)))
