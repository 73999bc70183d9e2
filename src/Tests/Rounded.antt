-- ===== src/Tests/Rounded.antt =====
-- The numbers in millionths are rounded the way the open-loop drive relies on.
use rust_foc.Motor.Rounding.{IsRounded}
use native.Mathlib.Nat.{mul-le-mul_left, mul-le-mul_right}
use rust_foc.Tests.Fixed.{fixed_float}
use rust_foc.Common.{leb, Bool-cases, inl, inr, ◌≤◌, ◌≡◌, true, false, refl, arith}
use rust_foc.Tests.Fixed.{
  fixed-IsIeee, add_fixed, lt_fixed, mul_fixed, le_fixed, Fixed, plus, minus, nan,
}

le_of_not_lt-fixed :
    (x y : Fixed)
    → le_fixed x x ≡ true
    → le_fixed y y ≡ true
    → lt_fixed x y ≡ false
    → le_fixed y x ≡ true
le_of_not_lt-fixed (plus a) (plus b) n m h = ground arith
le_of_not_lt-fixed (plus a) (minus b) n m h = refl
le_of_not_lt-fixed (minus a) (plus b) n m h = cc
le_of_not_lt-fixed (minus a) (minus b) n m h = ground arith
le_of_not_lt-fixed nan y n m h = cc
le_of_not_lt-fixed (plus a) nan n m h = cc
le_of_not_lt-fixed (minus a) nan n m h = cc

le_trans-fixed : (x y z : Fixed) → le_fixed x y ≡ true → le_fixed y z ≡ true → le_fixed x z ≡ true
le_trans-fixed (plus a) (plus b) (plus c) h g = ground arith
le_trans-fixed (minus a) (minus b) (minus c) h g = ground arith
le_trans-fixed (minus a) y (plus c) h g = refl
le_trans-fixed (plus a) (plus b) (minus c) h g = cc
le_trans-fixed (plus a) (plus b) nan h g = cc
le_trans-fixed (plus a) (minus b) z h g = cc
le_trans-fixed (plus a) nan z h g = cc
le_trans-fixed (minus a) (plus b) (minus c) h g = cc
le_trans-fixed (minus a) (plus b) nan h g = cc
le_trans-fixed (minus a) (minus b) nan h g = cc
le_trans-fixed (minus a) nan (minus c) h g = cc
le_trans-fixed (minus a) nan nan h g = cc
le_trans-fixed nan y z h g = cc

mul_le-fixed :
    (x y a b : Fixed)
    → le_fixed (plus 0) x ≡ true
    → le_fixed x a ≡ true
    → le_fixed (plus 0) y ≡ true
    → le_fixed y b ≡ true
    → le_fixed (mul_fixed x y) (mul_fixed a b) ≡ true
mul_le-fixed (plus x) (plus y) (plus a) (plus b) p q r s =
    let x_le : x ≤ a = ground arith in
    let y_le : y ≤ b = ground arith in
    ground (arith, mul-le-mul_right y x_le, mul-le-mul_left a y_le)
mul_le-fixed (minus x) y a b p q r s = cc
mul_le-fixed nan y a b p q r s = cc
mul_le-fixed x (minus y) a b p q r s = cc
mul_le-fixed x nan a b p q r s = cc
mul_le-fixed (plus x) y (minus a) b p q r s = cc
mul_le-fixed (plus x) y nan b p q r s = cc
mul_le-fixed x (plus y) a (minus b) p q r s = cc
mul_le-fixed x (plus y) a nan p q r s = cc

mul_zero_le-fixed :
    (x y : Fixed)
    → le_fixed (plus 0) x ≡ true
    → le_fixed (plus 0) y ≡ true
    → le_fixed (plus 0) (mul_fixed x y) ≡ true
mul_zero_le-fixed (plus x) (plus y) p q = ground arith
mul_zero_le-fixed (minus x) y p q = cc
mul_zero_le-fixed nan y p q = cc
mul_zero_le-fixed (plus x) (minus y) p q = cc
mul_zero_le-fixed (plus x) nan p q = cc

add_nonneg-fixed :
    (x y : Fixed)
    → le_fixed (plus 0) x ≡ true
    → le_fixed (plus 0) y ≡ true
    → le_fixed (plus 0) (add_fixed x y) ≡ true
add_nonneg-fixed (plus x) (plus y) p q = ground arith
add_nonneg-fixed (minus x) y p q = cc
add_nonneg-fixed nan y p q = cc
add_nonneg-fixed (plus x) (minus y) p q = cc
add_nonneg-fixed (plus x) nan p q = cc

-- 6283185 millionths are a turn.
add_le-fixed :
    (x y : Fixed)
    → le_fixed (plus 0) x ≡ true
    → le_fixed (plus 6283185) x ≡ false
    → le_fixed (plus 0) y ≡ true
    → le_fixed y (plus 1000000) ≡ true
    → le_fixed (add_fixed x y) (plus 7283185) ≡ true
add_le-fixed (plus x) (plus y) p q r s = ground arith
add_le-fixed (minus x) y p q r s = cc
add_le-fixed nan y p q r s = cc
add_le-fixed (plus x) (minus y) p q r s = cc
add_le-fixed (plus x) nan p q r s = cc

turn_sub_nonneg-fixed :
    (x : Fixed)
    → le_fixed (plus 6283185) x ≡ true
    → le_fixed (plus 0) (add_fixed x (minus 6283184)) ≡ true
turn_sub_nonneg-fixed (plus x) h = rw h (ground arith)
turn_sub_nonneg-fixed (minus x) h = cc
turn_sub_nonneg-fixed nan h = cc

turn_sub_lt-fixed :
    (x : Fixed)
    → le_fixed x (plus 7283185) ≡ true
    → le_fixed (plus 6283185) (add_fixed x (minus 6283184)) ≡ false
turn_sub_lt-fixed (plus x) h = elim (Bool-cases (leb 6283185 x)) [
  | inl over ↦ rw over (ground arith)
  | inr within ↦ rw within refl
]
turn_sub_lt-fixed (minus x) h = refl
turn_sub_lt-fixed nan h = cc

pub fixed-IsRounded : IsRounded fixed-IsIeee
fixed-IsRounded = record {
  le_of_not_lt = le_of_not_lt-fixed;
  mul_le = λ x y a b p q r s _ _. mul_le-fixed x y a b p q r s;
  mul_zero_le = λ x y a b p q r s _ _. mul_zero_le-fixed x y p r;
  le_trans = le_trans-fixed;
  add_nonneg = add_nonneg-fixed;
  add_le = add_le-fixed;
  turn_sub_nonneg = turn_sub_nonneg-fixed;
  turn_sub_lt = turn_sub_lt-fixed;
  tau_finite = refl;
  freq_finite = refl;
  product_finite = refl;
  tick_finite = refl;
  tick_positive = refl;
  tick_nonneg = refl;
  tau_positive = refl;
  step_le_one = refl;
}
