-- ===== src/Foc/Calls.antt =====
-- foc-algo/src/cascade.rs: the calls an application makes of a controller, in a sequence, with its
-- writes to the inputs, to the PIDs through their accessors, and to the public ramps. The outputs
-- `runtime` and `duty` are only read.
use rust_foc.Foc.Math.{Pid, Ramp}
use rust_foc.Foc.Settings.{
  position_pid, speed_pid, current_pid_d, current_pid_q, set_reset_on_off, set_demag_current,
  set_decoupling_speed_threshold, enable_decoupling, set_motor, set_position_ff, set_speed_ff,
  set_current_limit, start_align, set_mode,
}
use rust_foc.Common.{[], ◌∷◌, ◌≡◌, true}
use rust_foc.Common.{◌>>=◌, ◌∷◌, Bool, some, Option, List}
use rust_foc.Foc.Float.{Trig, Float, IsNumber, zero_f}
use rust_foc.Foc.State.{MotorParams, FocController, Mode, Meas, Target}
use rust_foc.Foc.Controller.{update}

-- What an application does between two cycles, and a cycle.
pub data Call (W : Type 0) : Type 0 where
  set_inputs : Target W → Meas W → Call W
  call_set_mode : Mode → Call W
  call_align : W → W → Call W
  call_current_limit : W → Call W
  call_speed_ff : Option (W → W → W → W) → Call W
  call_position_ff : Option (W → W → W → W → W) → Call W
  call_motor : MotorParams W → Call W
  call_decoupling : Bool → Call W
  call_speed_threshold : W → Call W
  call_demag_current : W → Call W
  call_reset_on_off : Bool → Call W
  call_position_pid : (Pid W → Pid W) → Call W
  call_speed_pid : (Pid W → Pid W) → Call W
  call_current_pid_d : (Pid W → Pid W) → Call W
  call_current_pid_q : (Pid W → Pid W) → Call W
  write_pos_ramp : (Ramp W → Ramp W) → Call W
  write_speed_ramp : (Ramp W → Ramp W) → Call W
  write_iq_ramp : (Ramp W → Ramp W) → Call W
  call_update : W → Call W

module _ {W : Type 0} ⦃fl : Float W⦄ where
  unfoldable pub call : Trig W → FocController W → Call W → Option (FocController W)
  call trig c (set_inputs target meas) = some (record c { target = target; meas = meas })
  call trig c (call_set_mode mode) = some (set_mode c mode)
  call trig c (call_align id_ref duration_s) = some (start_align c id_ref duration_s).0
  call trig c (call_current_limit amps) = some (set_current_limit c amps)
  call trig c (call_speed_ff cb) = some (set_speed_ff c cb)
  call trig c (call_position_ff cb) = some (set_position_ff c cb)
  call trig c (call_motor m) = some (set_motor c m)
  call trig c (call_decoupling on) = some (enable_decoupling c on)
  call trig c (call_speed_threshold x) = set_decoupling_speed_threshold c x
  call trig c (call_demag_current i) = some (set_demag_current c i)
  call trig c (call_reset_on_off on) = some (set_reset_on_off c on)
  call trig c (call_position_pid write) = some (position_pid c write)
  call trig c (call_speed_pid write) = some (speed_pid c write)
  call trig c (call_current_pid_d write) = some (current_pid_d c write)
  call trig c (call_current_pid_q write) = some (current_pid_q c write)
  call trig c (write_pos_ramp write) = some (record c { pos_ramp = write c.pos_ramp })
  call trig c (write_speed_ramp write) = some (record c { speed_ramp = write c.speed_ramp })
  call trig c (write_iq_ramp write) = some (record c { iq_ramp = write c.iq_ramp })
  call trig c (call_update dt) = update trig c dt

  unfoldable pub run : Trig W → FocController W → List (Call W) → Option (FocController W)
  run trig c [] = some c
  run trig c (x ∷ calls) = call trig c x >>= λ c'. run trig c' calls

  -- What the crate asks of a write: an output limit stays not negative.
  abbrev pub KeepsLimit : (Pid W → Pid W) → Type 0
  KeepsLimit write =
      (p : Pid W) → fl.le zero_f p.output_limit ≡ true → fl.le zero_f (write p).output_limit ≡ true

  -- A rate limit stays a number.
  abbrev pub KeepsRate : (Ramp W → Ramp W) → Type 0
  KeepsRate write = (r : Ramp W) → IsNumber r.rate_limit → IsNumber (write r).rate_limit

  -- The calls that the crate allows: besides such writes, those whose assertion holds.
  abbrev pub IsAllowed : Call W → Type 0
  IsAllowed (call_speed_threshold x) = fl.le zero_f x ≡ true
  IsAllowed (call_position_pid write) = KeepsLimit write
  IsAllowed (call_speed_pid write) = KeepsLimit write
  IsAllowed (call_current_pid_d write) = KeepsLimit write
  IsAllowed (call_current_pid_q write) = KeepsLimit write
  IsAllowed (write_pos_ramp write) = KeepsRate write
  IsAllowed (write_speed_ramp write) = KeepsRate write
  IsAllowed (write_iq_ramp write) = KeepsRate write
  IsAllowed (set_inputs target meas) = Unit
  IsAllowed (call_set_mode mode) = Unit
  IsAllowed (call_align id_ref duration_s) = Unit
  IsAllowed (call_current_limit amps) = Unit
  IsAllowed (call_speed_ff cb) = Unit
  IsAllowed (call_position_ff cb) = Unit
  IsAllowed (call_motor m) = Unit
  IsAllowed (call_decoupling on) = Unit
  IsAllowed (call_demag_current i) = Unit
  IsAllowed (call_reset_on_off on) = Unit
  IsAllowed (call_update dt) = Unit
