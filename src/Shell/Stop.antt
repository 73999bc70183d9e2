-- ===== src/Shell/Stop.antt =====
-- src/shell/commands.rs with src/tasks/motor.rs: from the line "stop" to the bridge.
use rust_foc.Motor.Task.{motor_tick, motor_new}
use rust_foc.Motor.Gate.{motor_run-stops, motor_run}
use rust_foc.Motor.Gate.{Event}
use rust_foc.Motor.Bridge.{MotorPwm}
use rust_foc.Motor.Rounding.{IsRounded}
use rust_foc.Foc.Float.{Trig, IsIeee, Float}
use rust_foc.Common.{ℕ, zero, suc, ◌≡◌, refl, List, [], ◌∷◌, ◌++◌, replicate, false, Bool, ap, ◌∙◌}
use rust_foc.Shell.Commands.{
  trim_last, exec_cmd, parse_trimmed, same_text, parse_word, split_space, trim_start, trim,
  parse_cmd, trim_end, is_white, stop,
}
use rust_foc.Foc.Total.{Yields}

-- "stop", and any number of spaces around it.
abbrev pub stop_line : ℕ → ℕ → List ℕ
stop_line before after = replicate before 32 ++ (115 ∷ 116 ∷ 111 ∷ 112 ∷ replicate after 32)

trim_start-spaces :
    (n : ℕ) (c : ℕ) (s : List ℕ)
    → is_white c ≡ false
    → trim_start (replicate n 32 ++ (c ∷ s)) ≡ c ∷ s
trim_start-spaces zero c s h = rw h refl
trim_start-spaces (suc n) c s h = trim_start-spaces n c s h

trim_end-spaces : (n : ℕ) → trim_end (replicate n 32) ≡ []
trim_end-spaces zero = refl
trim_end-spaces (suc n) = ap (trim_last 32) (trim_end-spaces n)

trim-stop_line : (before after : ℕ) → trim (stop_line before after) ≡ stop_line 0 0
unfolding trim
trim-stop_line before after =
    ap trim_end (trim_start-spaces before 115 (116 ∷ 111 ∷ 112 ∷ replicate after 32) refl)
    ∙ ap (λ s. trim_last 115 (trim_last 116 (trim_last 111 (trim_last 112 s))))
        (trim_end-spaces after)

parse_cmd-stop :
    {W : Type 0} ⦃fl : Float W⦄ (before after : ℕ)
    → parse_cmd ⦃fl = fl⦄ (stop_line before after) ≡ stop
unfolding parse_cmd parse_trimmed trim split_space parse_word same_text
parse_cmd-stop before after = ap parse_trimmed (trim-stop_line before after)

module _ {W : Type 0} ⦃fl : Float W⦄ (ieee : IsIeee fl) (rounded : IsRounded ieee) where
  -- From the start, with the bridge off, and after whatever commands and ticks: the line "stop",
  -- with any number of spaces before and after it, parses to the command that leaves the bridge off
  -- after the next tick of the task, which ends without a panic on a fuel of 2 or more.
  pub stop_line-stops :
      (to_u32 : W → ℕ) (trig : Trig W) (fuel before after : ℕ) (pwm : MotorPwm)
      (events : List (Event W)) (asked : Bool)
      → pwm.moe ≡ false
      → Yields (motor_run to_u32 trig (suc (suc fuel)) (motor_new pwm) events) (λ m.
        Yields
          (motor_tick to_u32 trig
            (suc (suc fuel))
            (exec_cmd (m, asked) (parse_cmd (stop_line before after))).0)
          (λ m'. m'.pwm.moe ≡ false))
  unfolding exec_cmd
  stop_line-stops to_u32 trig fuel before after pwm events asked h =
      let (m, e, (_, _, stops)) = motor_run-stops ieee rounded to_u32 trig fuel pwm events h in
      (m, e, rw (parse_cmd-stop before after) stops)
