-- ===== src/Foc/Demag.antt =====
-- foc-algo/src/cascade.rs: step 4b, the limit of the demagnetising current, in a whole cycle.
use rust_foc.Foc.Safety.{run-IsValid}
use rust_foc.Foc.Cycle.{run_cycle-Yields}
use rust_foc.Foc.Total.{Yields}
use rust_foc.Foc.Calls.{run, Call, IsAllowed}
use rust_foc.Foc.State.{is_off, controller_new, FocController, Mode}
use rust_foc.Foc.Controller.{inputs_finite, update}
use rust_foc.Foc.Float.{zero_f, Trig, IsIeee, Float}
use rust_foc.Common.{All, true, false, List, some, ◌≡◌}

module _ {W : Type 0} ⦃fl : Float W⦄ (ieee : IsIeee fl) where
  -- After whatever sequence of cycles, calls and writes on a new controller, tuned PIDs and ramps
  -- included, in which the output limits stay not negative, the rate limits numbers, and no speed
  -- threshold is negative or NaN: with a negative limit of the demagnetising current, in a mode other than `off`, a cycle with finite inputs and a finite
  -- period above 0 succeeds, and its command on the d axis is not below the limit, whatever the
  -- setpoints and the circle limit are.
  pub update-IsFloored :
      (trig : Trig W) (mode : Mode) (calls : List (Call W)) (c : FocController W) (dt : W)
      → All IsAllowed calls
      → run trig (controller_new mode) calls ≡ some c
      → is_off c.mode ≡ false
      → fl.lt c.i_demag zero_f ≡ true
      → inputs_finite c ≡ true
      → fl.is_finite dt ≡ true
      → fl.le dt zero_f ≡ false
      → Yields (update trig c dt) (λ c'. fl.lt c'.runtime.id_command c.i_demag ≡ false)
  unfolding update
  update-IsFloored trig mode calls c dt allowed reached on negative finite fin pos =
      let (c', e, (_, floored)) =
        run_cycle-Yields ieee trig c dt (run-IsValid ieee trig mode calls c allowed reached)
          (fin, pos) in
      rw (fin, pos, finite) (c', e, floored on negative)
