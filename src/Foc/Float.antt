-- ===== src/Foc/Float.antt =====
-- The operations on `f32` that foc-algo uses. The type is left open: `IsIeee` states what IEEE 754
-- says of the comparisons and of signs, NaN and infinities included, and nothing of the rounding.
use rust_foc.Common.{
  ℕ, ◌≡◌, Bool, true, false, not, Option, none, some, if◌then◌else◌, refl, inl, inr, Bool-cases,
}

pub record Float (W : Type 0) : Type 0 where
  pub add : W → W → W
  pub sub : W → W → W
  pub mul : W → W → W
  pub div : W → W → W
  pub neg : W → W
  pub abs : W → W
  -- `libm::sqrtf`
  pub sqrt : W → W
  pub lt : W → W → Bool
  pub le : W → W → Bool
  pub is_finite : W → Bool
  -- The literal of some digits, of which so many are decimals.
  pub literal : ℕ → ℕ → W
  -- `f32::MAX`
  pub max_value : W
  -- `f32::from` of an unsigned integer
  pub from : ℕ → W

infixl 60 ◌⊕◌ ◌⊖◌
infixl 70 ◌⊗◌ ◌⊘◌
abbrev pub ◌⊕◌ : {W : Type 0} ⦃f : Float W⦄ → W → W → W
◌⊕◌ ⦃f⦄ = f.add

abbrev pub ◌⊖◌ : {W : Type 0} ⦃f : Float W⦄ → W → W → W
◌⊖◌ ⦃f⦄ = f.sub

abbrev pub ◌⊗◌ : {W : Type 0} ⦃f : Float W⦄ → W → W → W
◌⊗◌ ⦃f⦄ = f.mul

abbrev pub ◌⊘◌ : {W : Type 0} ⦃f : Float W⦄ → W → W → W
◌⊘◌ ⦃f⦄ = f.div

-- The trait `Trig` of foc-algo, which the application implements.
pub record Trig (W : Type 0) : Type 0 where
  pub sin : W → W
  pub cos : W → W

module _ {W : Type 0} ⦃fl : Float W⦄ where
  abbrev pub zero_f : W
  zero_f = fl.literal 0 0

  abbrev pub one_f : W
  one_f = fl.literal 1 0

  abbrev pub half_f : W
  half_f = fl.literal 5 1

  -- A number, not NaN.
  abbrev pub IsNumber : W → Type 0
  IsNumber x = fl.le x x ≡ true

  -- `f32::max` and `f32::min`: of a NaN and another value, the other.
  abbrev pub max_f : W → W → W
  max_f x y = if not (fl.le x x) then y else if fl.lt x y then y else x

  abbrev pub min_f : W → W → W
  min_f x y = if not (fl.le x x) then y else if fl.lt y x then y else x

  -- `f32::clamp`: it panics unless the limits are ordered numbers; a NaN stays one.
  unfoldable pub clamp : W → W → W → Option W
  clamp x lo hi =
      if fl.le lo hi then some (if fl.lt x lo then lo else if fl.lt hi x then hi else x) else none

pub record IsIeee {W : Type 0} (fl : Float W) : Type 0 where
  pub lt_irrefl : (x : W) → fl.lt x x ≡ false
  pub not_lt_of_le : (x y : W) → fl.le x y ≡ true → fl.lt y x ≡ false
  pub number_of_finite : (x : W) → fl.is_finite x ≡ true → fl.le x x ≡ true
  pub literal_nonneg :
      (digits decimals : ℕ) → fl.le (fl.literal 0 0) (fl.literal digits decimals) ≡ true
  pub literal_number :
      (digits decimals : ℕ) → fl.le (fl.literal digits decimals) (fl.literal digits decimals) ≡ true
  pub zero_le_one : fl.le (fl.literal 0 0) (fl.literal 1 0) ≡ true
  pub max_value_nonneg : fl.le (fl.literal 0 0) fl.max_value ≡ true
  -- The negation of what is not negative is at most it.
  pub neg_nonpos :
      (x : W) → fl.le (fl.literal 0 0) x ≡ true → fl.lt (fl.literal 0 0) (fl.neg x) ≡ false
  pub neg_one_le_zero : fl.le (fl.neg (fl.literal 1 0)) (fl.literal 0 0) ≡ true
  pub le_of_lt : (x y : W) → fl.lt x y ≡ true → fl.le x y ≡ true
  pub lt_of_not_le :
      (x y : W) → fl.le x x ≡ true → fl.le y y ≡ true → fl.le x y ≡ false → fl.lt y x ≡ true
  -- The product of what is not negative and what is not positive is not positive.
  pub mul_nonpos :
      (x y : W)
      → fl.lt x (fl.literal 0 0) ≡ false
      → fl.lt (fl.literal 0 0) y ≡ false
      → fl.lt (fl.literal 0 0) (fl.mul x y) ≡ false
  pub neg_le : (x : W) → fl.le (fl.literal 0 0) x ≡ true → fl.le (fl.neg x) x ≡ true
  -- The product of a positive number and a positive finite one is not negative.
  pub mul_nonneg :
      (x y : W)
      → fl.le x x ≡ true
      → fl.le x (fl.literal 0 0) ≡ false
      → fl.is_finite y ≡ true
      → fl.le y (fl.literal 0 0) ≡ false
      → fl.le (fl.literal 0 0) (fl.mul x y) ≡ true
  -- A quotient by a positive number is not negative where the dividend is not.
  pub div_nonneg :
      (x y : W)
      → fl.lt x (fl.literal 0 0) ≡ false
      → fl.le y (fl.literal 0 0) ≡ false
      → fl.lt (fl.div x y) (fl.literal 0 0) ≡ false
  -- To subtract what is not negative makes nothing larger.
  pub sub_le : (x y : W) → fl.lt y (fl.literal 0 0) ≡ false → fl.lt x (fl.sub x y) ≡ false

module _ {W : Type 0} ⦃fl : Float W⦄ (ieee : IsIeee fl) where
  -- Neither below the one nor above the other limit.
  abbrev pub Within : W → W → W → Type 0
  Within lo hi x = (fl.lt x lo ≡ false) × (fl.lt hi x ≡ false)

  -- With ordered limits a clamp does not panic, and its result is within them, or NaN.
  pub clamp-Within :
      (x lo hi : W) → fl.le lo hi ≡ true → (y : W) × (clamp x lo hi ≡ some y) × Within lo hi y
  unfolding clamp
  clamp-Within x lo hi h = elim (Bool-cases (fl.lt x lo)) [
    | inl low ↦ (lo, rw (h, low) refl, (ieee.lt_irrefl lo, ieee.not_lt_of_le lo hi h))
    | inr above ↦ elim (Bool-cases (fl.lt hi x)) [
      | inl high ↦ (hi, rw (h, above, high) refl, (ieee.not_lt_of_le lo hi h, ieee.lt_irrefl hi))
      | inr below ↦ (x, rw (h, above, below) refl, (above, below))
    ]
  ]
