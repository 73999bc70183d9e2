-- ===== src/Tests/Shell.antt =====
-- The shell at concrete lines.
use rust_foc.Tests.Rounded.{fixed-IsRounded}
use rust_foc.Shell.Stop.{stop_line-stops, stop_line}
use rust_foc.Motor.Task.{motor_tick, motor_new}
use rust_foc.Shell.Line.{empty_line}
use rust_foc.Shell.Commands.{parse_cmd, exec_cmd}
use rust_foc.Motor.Gate.{motor_run}
use rust_foc.Foc.Total.{Yields}
use rust_foc.Shell.Zipper.{zipper}
use rust_foc.Common.{◌≡◌, refl, List, [], ◌∷◌, false}
use rust_foc.Tests.Fixed.{fixed_float, fixed-IsIeee, still}
use rust_foc.Tests.Motor.{whole, timer, spin_and_stop}
use rust_foc.Shell.Session.{shell-refines, IsShown, Key, shell, editor}

-- "hlp", two steps to the left, "e", a backspace, "e" again, and return.
abbrev keys : List Key
keys =
    (104, [])
    ∷ (108, [])
    ∷ (112, [])
    ∷ (27, 91 ∷ 68 ∷ [])
    ∷ (27, 91 ∷ 68 ∷ [])
    ∷ (101, [])
    ∷ (127, [])
    ∷ (101, [])
    ∷ (13, [])
    ∷ []

shell-refines_example : Yields (shell empty_line keys) (λ (l, out, entered).
    IsShown l (editor (zipper [] []) keys).0
    × out ≡ (editor (zipper [] []) keys).1
    × entered ≡ (editor (zipper [] []) keys).2)
shell-refines_example = shell-refines keys

-- What the editor makes of these keys: "help".
entered-help : (editor (zipper [] []) keys).2 ≡ (104 ∷ 101 ∷ 108 ∷ 112 ∷ []) ∷ []
entered-help = refl

stop_line-stops_example : Yields (motor_run whole still 2 (motor_new timer) spin_and_stop) (λ m.
    Yields
      (motor_tick whole still 2 (exec_cmd (m, false) (parse_cmd (stop_line 2 1))).0)
      (λ m'. m'.pwm.moe ≡ false))
stop_line-stops_example =
    stop_line-stops fixed-IsIeee fixed-IsRounded whole still 0 2 1 timer spin_and_stop false refl
