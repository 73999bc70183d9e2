-- ===== src/Tests/Fixed.antt =====
-- Numbers in millionths, with a signed zero and NaN, that meet what the control crate relies on.
use rust_foc.Common.{
  Bool-cases, inl, inr, ℕ, ◌+◌, ◌-◌, ◌*◌, ◌/◌, ◌^◌, ltb, leb, ◌==◌, Bool, true, false, ◌≡◌, refl,
  arith, zero, suc, if◌then◌else◌,
}
use rust_foc.Foc.Float.{Float, IsIeee, Trig}

-- `plus n` is n, `minus n` is -(n + 1).
pub data Fixed : Type 0 where
  plus minus : ℕ → Fixed
  nan : Fixed

abbrev newton : ℕ → ℕ → ℕ → ℕ
newton zero n x = x
newton (suc fuel) n x = let y = (x + n / x) / 2 in newton fuel n (if ltb y x then y else x)

abbrev pub negative : ℕ → Fixed
negative zero = plus 0
negative (suc n) = minus n

abbrev pub diff : ℕ → ℕ → Fixed
diff a b = if leb b a then plus (a - b) else minus (b - a - 1)

abbrev pub add_fixed : Fixed → Fixed → Fixed
add_fixed (plus a) (plus b) = plus (a + b)
add_fixed (plus a) (minus b) = diff a (b + 1)
add_fixed (minus a) (plus b) = diff b (a + 1)
add_fixed (minus a) (minus b) = minus (a + b + 1)
add_fixed _ _ = nan

abbrev pub neg_fixed : Fixed → Fixed
neg_fixed (plus a) = negative a
neg_fixed (minus a) = plus (a + 1)
neg_fixed nan = nan

abbrev pub mul_fixed : Fixed → Fixed → Fixed
mul_fixed (plus a) (plus b) = plus (a * b / 1000000)
mul_fixed (plus a) (minus b) = negative (a * (b + 1) / 1000000)
mul_fixed (minus a) (plus b) = negative ((a + 1) * b / 1000000)
mul_fixed (minus a) (minus b) = plus ((a + 1) * (b + 1) / 1000000)
mul_fixed _ _ = nan

abbrev div_fixed : Fixed → Fixed → Fixed
div_fixed (plus a) (plus b) = if b == 0 then nan else plus (a * 1000000 / b)
div_fixed (plus a) (minus b) = negative (a * 1000000 / (b + 1))
div_fixed (minus a) (plus b) = if b == 0 then nan else negative ((a + 1) * 1000000 / b)
div_fixed (minus a) (minus b) = plus ((a + 1) * 1000000 / (b + 1))
div_fixed _ _ = nan

abbrev abs_fixed : Fixed → Fixed
abs_fixed (minus a) = plus (a + 1)
abs_fixed x = x

abbrev sqrt_fixed : Fixed → Fixed
sqrt_fixed (plus a) = plus (newton 40 (a * 1000000) (a * 1000000 + 1))
sqrt_fixed _ = nan

abbrev pub lt_fixed : Fixed → Fixed → Bool
lt_fixed (plus a) (plus b) = ltb a b
lt_fixed (minus a) (plus b) = true
lt_fixed (minus a) (minus b) = ltb b a
lt_fixed _ _ = false

abbrev pub le_fixed : Fixed → Fixed → Bool
le_fixed (plus a) (plus b) = leb a b
le_fixed (minus a) (plus b) = true
le_fixed (minus a) (minus b) = leb b a
le_fixed _ _ = false

abbrev pub finite : Fixed → Bool
finite nan = false
finite _ = true

instance abbrev pub fixed_float : Float Fixed
fixed_float = record {
  add = add_fixed;
  sub = λ x y. add_fixed x (neg_fixed y);
  mul = mul_fixed;
  div = div_fixed;
  neg = neg_fixed;
  abs = abs_fixed;
  sqrt = sqrt_fixed;
  lt = lt_fixed;
  le = le_fixed;
  is_finite = finite;
  literal = λ digits decimals. plus (digits * 1000000 / 10 ^ decimals);
  max_value = plus (10 ^ 30);
  from = λ n. plus (n * 1000000);
}

lt_irrefl-fixed : (x : Fixed) → lt_fixed x x ≡ false
lt_irrefl-fixed (plus a) = ground arith
lt_irrefl-fixed (minus a) = ground arith
lt_irrefl-fixed nan = refl

not_lt_of_le-fixed : (x y : Fixed) → le_fixed x y ≡ true → lt_fixed y x ≡ false
not_lt_of_le-fixed (plus a) (plus b) h = ground arith
not_lt_of_le-fixed (minus a) (plus b) h = refl
not_lt_of_le-fixed (minus a) (minus b) h = ground arith
not_lt_of_le-fixed (plus a) (minus b) h = cc
not_lt_of_le-fixed (plus a) nan h = refl
not_lt_of_le-fixed (minus a) nan h = refl
not_lt_of_le-fixed nan (plus b) h = refl
not_lt_of_le-fixed nan (minus b) h = refl
not_lt_of_le-fixed nan nan h = refl

number_of_finite-fixed : (x : Fixed) → finite x ≡ true → le_fixed x x ≡ true
number_of_finite-fixed (plus a) h = ground arith
number_of_finite-fixed (minus a) h = ground arith
number_of_finite-fixed nan h = cc

neg_le-fixed : (x : Fixed) → le_fixed (plus 0) x ≡ true → le_fixed (neg_fixed x) x ≡ true
neg_le-fixed (plus zero) h = refl
neg_le-fixed (plus (suc a)) h = refl
neg_le-fixed (minus a) h = cc
neg_le-fixed nan h = cc

neg_nonpos-fixed :
    (x : Fixed) → le_fixed (plus 0) x ≡ true → lt_fixed (plus 0) (neg_fixed x) ≡ false
neg_nonpos-fixed (plus zero) h = refl
neg_nonpos-fixed (plus (suc a)) h = refl
neg_nonpos-fixed (minus a) h = cc
neg_nonpos-fixed nan h = cc

le_of_lt-fixed : (x y : Fixed) → lt_fixed x y ≡ true → le_fixed x y ≡ true
le_of_lt-fixed (plus a) (plus b) h = ground arith
le_of_lt-fixed (minus a) (plus b) h = refl
le_of_lt-fixed (minus a) (minus b) h = ground arith
le_of_lt-fixed (plus a) (minus b) h = cc
le_of_lt-fixed (plus a) nan h = cc
le_of_lt-fixed (minus a) nan h = cc
le_of_lt-fixed nan y h = cc

lt_of_not_le-fixed :
    (x y : Fixed)
    → le_fixed x x ≡ true
    → le_fixed y y ≡ true
    → le_fixed x y ≡ false
    → lt_fixed y x ≡ true
lt_of_not_le-fixed (plus a) (plus b) n m h = ground arith
lt_of_not_le-fixed (minus a) (plus b) n m h = cc
lt_of_not_le-fixed (minus a) (minus b) n m h = ground arith
lt_of_not_le-fixed (plus a) (minus b) n m h = refl
lt_of_not_le-fixed (plus a) nan n m h = cc
lt_of_not_le-fixed (minus a) nan n m h = cc
lt_of_not_le-fixed nan y n m h = cc

negative-nonpos : (n : ℕ) → lt_fixed (plus 0) (negative n) ≡ false
negative-nonpos zero = refl
negative-nonpos (suc n) = refl

mul_nonpos-fixed :
    (x y : Fixed)
    → lt_fixed x (plus 0) ≡ false
    → lt_fixed (plus 0) y ≡ false
    → lt_fixed (plus 0) (mul_fixed x y) ≡ false
mul_nonpos-fixed (plus a) (plus zero) h g = ground arith
mul_nonpos-fixed (plus a) (plus (suc b)) h g = ground arith
mul_nonpos-fixed (plus a) (minus b) h g = negative-nonpos (a * (b + 1) / 1000000)
mul_nonpos-fixed (plus a) nan h g = refl
mul_nonpos-fixed (minus a) y h g = cc
mul_nonpos-fixed nan y h g = refl

mul_nonneg-fixed :
    (x y : Fixed)
    → le_fixed x x ≡ true
    → le_fixed x (plus 0) ≡ false
    → finite y ≡ true
    → le_fixed y (plus 0) ≡ false
    → le_fixed (plus 0) (mul_fixed x y) ≡ true
mul_nonneg-fixed (plus a) (plus b) n h f g = ground arith
mul_nonneg-fixed (plus a) (minus b) n h f g = cc
mul_nonneg-fixed (plus a) nan n h f g = cc
mul_nonneg-fixed (minus a) y n h f g = cc
mul_nonneg-fixed nan y n h f g = cc

div_nonneg-fixed :
    (x y : Fixed)
    → lt_fixed x (plus 0) ≡ false
    → le_fixed y (plus 0) ≡ false
    → lt_fixed (div_fixed x y) (plus 0) ≡ false
div_nonneg-fixed (plus a) (plus b) h g = elim (Bool-cases (b == 0)) [
  | inl zero_divisor ↦ rw zero_divisor refl
  | inr divides ↦ rw divides (ground arith)
]
div_nonneg-fixed (plus a) (minus b) h g = cc
div_nonneg-fixed (plus a) nan h g = refl
div_nonneg-fixed (minus a) y h g = cc
div_nonneg-fixed nan y h g = refl

sub_le-fixed :
    (x y : Fixed) → lt_fixed y (plus 0) ≡ false → lt_fixed x (add_fixed x (neg_fixed y)) ≡ false
sub_le-fixed (plus a) (plus zero) h = ground arith
sub_le-fixed (plus a) (plus (suc b)) h = elim (Bool-cases (leb (b + 1) a)) [
  | inl fits ↦ rw fits (ground arith)
  | inr below ↦ rw below refl
]
sub_le-fixed (minus a) (plus zero) h = ground arith
sub_le-fixed (minus a) (plus (suc b)) h = ground arith
sub_le-fixed x (minus b) h = cc
sub_le-fixed (plus a) nan h = refl
sub_le-fixed (minus a) nan h = refl
sub_le-fixed nan (plus b) h = refl
sub_le-fixed nan nan h = refl

pub fixed-IsIeee : IsIeee fixed_float
fixed-IsIeee = record {
  lt_irrefl = lt_irrefl-fixed;
  not_lt_of_le = not_lt_of_le-fixed;
  number_of_finite = number_of_finite-fixed;
  literal_nonneg = λ digits decimals. ground arith;
  literal_number = λ digits decimals. ground arith;
  zero_le_one = refl;
  max_value_nonneg = refl;
  neg_nonpos = neg_nonpos-fixed;
  neg_one_le_zero = refl;
  le_of_lt = le_of_lt-fixed;
  lt_of_not_le = lt_of_not_le-fixed;
  mul_nonpos = mul_nonpos-fixed;
  neg_le = neg_le-fixed;
  mul_nonneg = mul_nonneg-fixed;
  div_nonneg = div_nonneg-fixed;
  sub_le = sub_le-fixed;
}

-- The trigonometry of a motor that stands at angle 0.
abbrev pub still : Trig Fixed
still = record { sin = λ x. plus 0; cos = λ x. plus 1000000 }
