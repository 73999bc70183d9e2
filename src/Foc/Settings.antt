-- ===== src/Foc/Settings.antt =====
-- foc-algo/src/cascade.rs: the methods that set up the controller. `none` is a failed debug assertion.
-- A closure on a `Pid` is what the application does with the reference that an accessor returns.
use rust_foc.Foc.Controller.{zero_integrators}
use rust_foc.Foc.Math.{Pid}
use rust_foc.Common.{Bool, false, Option, none, some, if◌then◌else◌}
use rust_foc.Foc.Float.{Float, ◌⊕◌, zero_f}
use rust_foc.Foc.State.{same_mode, MotorParams, Mode, FocController, align}

module _ {W : Type 0} ⦃fl : Float W⦄ where
  unfoldable pub set_mode : FocController W → Mode → FocController W
  set_mode c mode = record c { mode = mode }

  -- `align`, with the flag that it returns.
  unfoldable pub start_align : FocController W → W → W → FocController W × Bool
  unfolding set_mode zero_integrators
  start_align c id_ref duration_s =
      if same_mode c.mode align
      then (
        record c { align_elapsed_s = c.align_elapsed_s ⊕ zero_f },
        fl.le c.align_duration_s (c.align_elapsed_s ⊕ zero_f),
      )
      else (
        zero_integrators (
            set_mode
              (record c {
                target = record c.target { id_ref = id_ref };
                align_elapsed_s = zero_f;
                align_duration_s = duration_s;
              })
              align),
        false,
      )

  unfoldable pub set_current_limit : FocController W → W → FocController W
  set_current_limit c amps = record c { current_limit = amps }

  unfoldable pub set_speed_ff : FocController W → Option (W → W → W → W) → FocController W
  set_speed_ff c cb = record c { speed_loop = record c.speed_loop { ff_callback = cb } }

  unfoldable pub set_position_ff : FocController W → Option (W → W → W → W → W) → FocController W
  set_position_ff c cb = record c { position_loop = record c.position_loop { ff_callback = cb } }

  unfoldable pub set_motor : FocController W → MotorParams W → FocController W
  set_motor c m = record c { motor = some m }

  unfoldable pub enable_decoupling : FocController W → Bool → FocController W
  enable_decoupling c on = record c { decoupling = on }

  unfoldable pub position_pid : FocController W → (Pid W → Pid W) → FocController W
  position_pid c write = record c {
    position_loop = record c.position_loop { pid = write c.position_loop.pid };
  }

  unfoldable pub speed_pid : FocController W → (Pid W → Pid W) → FocController W
  speed_pid c write = record c { speed_loop = record c.speed_loop { pid = write c.speed_loop.pid } }

  unfoldable pub current_pid_d : FocController W → (Pid W → Pid W) → FocController W
  current_pid_d c write = record c { current = record c.current { d_pid = write c.current.d_pid } }

  unfoldable pub current_pid_q : FocController W → (Pid W → Pid W) → FocController W
  current_pid_q c write = record c { current = record c.current { q_pid = write c.current.q_pid } }

  unfoldable pub set_decoupling_speed_threshold : FocController W → W → Option (FocController W)
  set_decoupling_speed_threshold c rad_per_sec =
      if fl.le zero_f rad_per_sec
      then some (record c { decoupling_speed_threshold = rad_per_sec })
      else none

  unfoldable pub set_demag_current : FocController W → W → FocController W
  set_demag_current c i_demag = record c { i_demag = i_demag }

  unfoldable pub set_reset_on_off : FocController W → Bool → FocController W
  set_reset_on_off c reset_on_off = record c { reset_on_off = reset_on_off }
