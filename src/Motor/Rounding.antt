-- ===== src/Motor/Rounding.antt =====
-- What IEEE 754 says of the sums and products that the open-loop angle goes through: rounding keeps
-- the order, and the constants of the drive compare as the numbers that they stand for.
use rust_foc.Common.{◌≡◌, true, false}
use rust_foc.Foc.Float.{Float, IsIeee, zero_f, one_f}
use rust_foc.Motor.OpenLoop.{tau}
use rust_foc.Motor.Task.{tick_s, max_spin_freq_hz}

module _ {W : Type 0} ⦃fl : Float W⦄ (ieee : IsIeee fl) where
  pub record IsRounded : Type 0 where
    pub le_of_not_lt :
        (x y : W) → fl.le x x ≡ true → fl.le y y ≡ true → fl.lt x y ≡ false → fl.le y x ≡ true
    -- Products of numbers from 0 up to finite bounds.
    pub mul_le :
        (x y a b : W)
        → fl.le zero_f x ≡ true
        → fl.le x a ≡ true
        → fl.le zero_f y ≡ true
        → fl.le y b ≡ true
        → fl.is_finite a ≡ true
        → fl.is_finite b ≡ true
        → fl.le (fl.mul x y) (fl.mul a b) ≡ true
    pub mul_zero_le :
        (x y a b : W)
        → fl.le zero_f x ≡ true
        → fl.le x a ≡ true
        → fl.le zero_f y ≡ true
        → fl.le y b ≡ true
        → fl.is_finite a ≡ true
        → fl.is_finite b ≡ true
        → fl.le zero_f (fl.mul x y) ≡ true
    pub le_trans : (x y z : W) → fl.le x y ≡ true → fl.le y z ≡ true → fl.le x z ≡ true
    pub add_nonneg :
        (x y : W) → fl.le zero_f x ≡ true → fl.le zero_f y ≡ true → fl.le zero_f (fl.add x y) ≡ true
    -- A number below a turn and one up to 1 add to at most a turn and 1.
    pub add_le :
        (x y : W)
        → fl.le zero_f x ≡ true
        → fl.le tau x ≡ false
        → fl.le zero_f y ≡ true
        → fl.le y one_f ≡ true
        → fl.le (fl.add x y) (fl.add tau one_f) ≡ true
    -- A turn taken from a number of a turn up to a turn and 1 leaves one from 0 and below a turn.
    pub turn_sub_nonneg : (x : W) → fl.le tau x ≡ true → fl.le zero_f (fl.sub x tau) ≡ true
    pub turn_sub_lt : (x : W) → fl.le x (fl.add tau one_f) ≡ true → fl.le tau (fl.sub x tau) ≡ false
    pub tau_finite : fl.is_finite tau ≡ true
    pub freq_finite : fl.is_finite max_spin_freq_hz ≡ true
    pub product_finite : fl.is_finite (fl.mul tau max_spin_freq_hz) ≡ true
    pub tick_finite : fl.is_finite tick_s ≡ true
    pub tick_positive : fl.le tick_s zero_f ≡ false
    pub tick_nonneg : fl.le zero_f tick_s ≡ true
    pub tau_positive : fl.le tau zero_f ≡ false
    -- The angle of one tick at the highest frequency of the shell is at most 1.
    pub step_le_one : fl.le (fl.mul (fl.mul tau max_spin_freq_hz) tick_s) one_f ≡ true
