-- ===== src/Shell/Digits.antt =====
-- src/shell/commands.rs: the numbers that the shell writes, and the ones that it reads.
use rust_foc.Shell.Commands.{push_digit, is_digit, int_part, write_u32, write_digits}
use rust_foc.Common.{
  ℕ, zero, suc, ◌≡◌, refl, arith, List, [], ◌∷◌, true, Bool-cases, inl, inr, ◌%◌, ◌/◌, ◌*◌, ◌+◌,
  ◌-◌, ◌<◌, ◌^◌, ap, ◌∙◌, ◌==◌,
}
use rust_foc.Foc.Total.{Yields}

-- The numbers of so many digits at most.
abbrev pub digits_limit : ℕ → ℕ
digits_limit zero = 1
digits_limit (suc i) = 10 * digits_limit i

digits-int_part :
    (i n : ℕ) (digits : List ℕ)
    → n < digits_limit i
    → n < 2 ^ 32
    → Yields (write_digits i n digits) (λ s. int_part 0 s ≡ int_part n digits)
unfolding write_digits int_part
digits-int_part zero n digits h bound =
    let none_left : (n == 0) ≡ true = ground arith in
    let zero_left : 0 ≡ n = ground arith in
    rw none_left (digits, refl, ap (λ k. int_part k digits) zero_left)
digits-int_part (suc i) n digits h bound = elim (Bool-cases (n == 0)) [
  | inl none_left ↦
      let zero_left : 0 ≡ n = ground arith in
      rw none_left (digits, refl, ap (λ k. int_part k digits) zero_left)
  | inr some_left ↦
      let (s, e, same) =
        digits-int_part i (n / 10) ((48 + n % 10) ∷ digits) (omega arith) (omega arith) in
      let digit : is_digit (48 + n % 10) ≡ true = ground arith in
      let pushed : push_digit (n / 10) (48 + n % 10 - 48) ≡ n = ground arith in
      rw some_left (s, e, same ∙ rw digit (ap (λ k. int_part k digits) pushed))
]

-- What `write_u32` writes of a number of 32 bits never runs out of the array of ten digits, and the
-- parser of numbers reads it back whole as the same number.
pub write_u32-int_part : (n : ℕ) → n < 2 ^ 32 → Yields (write_u32 n) (λ s. int_part 0 s ≡ (n, []))
unfolding write_u32 int_part
write_u32-int_part n h = elim (Bool-cases (n == 0)) [
  | inl none_left ↦
      let zero_left : 0 ≡ n = ground arith in
      rw none_left (48 ∷ [], refl, ap (λ k. (k, [])) zero_left)
  | inr some_left ↦ rw some_left (digits-int_part 10 n [] (omega arith) h)
]
