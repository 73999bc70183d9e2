-- ===== src/Can/Timeout.antt =====
-- src/drivers/can/canopen.rs: the trouble code of a silent bus.
use rust_foc.Uds.Dtc.Laws.{set_dtc-Distinct, status_of-set_dtc_self, raised, Distinct, status_of}
use rust_foc.Uds.Dtc.Clearing.{status_of-clear_dtc}
use rust_foc.Can.Task.{
  HasReset, timeout_status, dtc_can_timeout, can_timeout_ms, note_rx, Node, on_heartbeat,
}
use rust_foc.Uds.Dtc.{set_dtc}
use rust_foc.Common.{arith, ◌-◌, leb, length, ◌<◌, ◌≤◌, ◌+◌, ◌≡◌, Option, none, ℕ, true, false}

module _ {W : Type 0} ⦃ota : HasReset W⦄ where
  abbrev pub codes_of : Node W → ℕ → Option ℕ
  codes_of n = status_of n.machine.globals.dtcs

  -- A due heartbeat after at least ten seconds without a frame raises the timeout code, whatever the
  -- slots hold; a later one changes no code; and the next frame, at any time, leaves no trace of the
  -- code. The slots are as many as the source has, or at least one, and hold no code twice.
  pub on_heartbeat-timeout :
      (n : Node W) (at later heard : ℕ)
      → n.dtc_timeout_recorded ≡ false
      → n.last_rx + can_timeout_ms ≤ at
      → 0 < length n.machine.globals.dtcs
      → Distinct n.machine.globals.dtcs
      → let silent = (on_heartbeat n at).0 in
        (codes_of silent dtc_can_timeout ≡ raised (codes_of n dtc_can_timeout) timeout_status)
        × ((on_heartbeat silent later).0.machine ≡ silent.machine)
        × (codes_of (note_rx silent heard) dtc_can_timeout ≡ none)
  unfolding on_heartbeat note_rx
  on_heartbeat-timeout n at later heard fresh silence slots distinct =
      let g = n.machine.globals in
      let raised_lem = status_of-set_dtc_self g.dtcs dtc_can_timeout timeout_status slots in
      let cleared =
        status_of-clear_dtc (set_dtc g.dtcs dtc_can_timeout timeout_status) dtc_can_timeout
          dtc_can_timeout (set_dtc-Distinct g.dtcs dtc_can_timeout timeout_status distinct) in
      let due : leb can_timeout_ms (at - n.last_rx) ≡ true = ground arith in
      rw (due, fresh) (raised_lem, ground arith, cleared)
