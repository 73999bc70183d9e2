-- ===== src/Can/Task.antt =====
-- src/drivers/can/canopen.rs: one iteration of the loop of `canopen_task`, over any platform of the
-- UDS engine that holds the flag of the OTA module. Which arm of the `select` wins is the event; the
-- clock is read once for the tick (`now_ms`) and once for the event. A transmission is an action; what
-- the bus makes of it, the timeout included, is logged and changes nothing.
use rust_foc.Uds.State.{load_response}
use rust_foc.Uds.Pending.{tick}
use rust_foc.Uds.Config.{Crates, Machine}
use rust_foc.Can.Nmt.{build_heartbeat_frame, on_nmt_frame, nmt_cob_id, NmtState}
use rust_foc.Uds.Dtc.{set_dtc, clear_dtc}
use rust_foc.Ota.Handlers.{Ota, take_reset_request}
use rust_foc.Can.Bridge.{
  FrameId, FdFrame, standard, extended, is_uds_frame, handle_rx_frame, cob_id_physical_response,
}
use rust_foc.Common.{
  take, not, ◌++◌, ◌&&◌, ltb, ◌-◌, ◌==◌, leb, Bool, if◌then◌else◌, bit_or, Option, List, ℕ, none,
  some, [], ◌∷◌, true, false,
}

abbrev pub can_timeout_ms : ℕ
can_timeout_ms = 10000

abbrev pub dtc_can_timeout : ℕ
dtc_can_timeout = 0x030100

-- `CONFIRMED | TEST_FAILED_CURRENT`
abbrev pub timeout_status : ℕ
timeout_status = bit_or 0x04 0x02

pub data Action : Type 0 where
  write_fd : FdFrame → Action
  write_heartbeat : ℕ × List ℕ → Action
  sys_reset : Action

pub data BusEvent : Type 0 where
  received : FdFrame → ℕ → BusEvent
  bus_error : BusEvent
  heartbeat_due : ℕ → BusEvent

-- `ota::take_reset_request` on the state of the platform.
pub record HasReset (W : Type 0) : Type 0 where
  pub take_ota_reset : W → Bool × W

instance abbrev pub ota_reset : {F : Type 0} → HasReset (Ota F)
ota_reset = record { take_ota_reset = take_reset_request }

-- The locals of the task beside the statics that it reaches.
pub record Node (W : Type 0) : Type 0 where
  pub nmt : NmtState
  pub last_rx : ℕ
  pub dtc_timeout_recorded : Bool
  pub machine : Machine W

abbrev pub optional_write : Option FdFrame → List Action
optional_write none = []
optional_write (some frame) = write_fd frame ∷ []

abbrev pub standard_id : FrameId → ℕ
standard_id (standard id) = id
standard_id (extended _) = 0xFFFF

module _ {W : Type 0} ⦃ota : HasReset W⦄ where
  -- `uds::take_reset_request() || ota::take_reset_request()`, the second not called after a `true`;
  -- then `take_reset_subfunc`, whose result is only logged.
  unfoldable pub take_reset : Machine W → Bool × Machine W
  take_reset m =
      let kept = record m.globals { reset_requested = false } in
      let spent = record kept { reset_subfunc = 0 } in
      if m.globals.reset_requested
      then (true, record m { globals = spent })
      else let (asked, o) = ota.take_ota_reset m.globals.world in
        (asked, record m { globals = record (if asked then spent else kept) { world = o } })

  -- The reply on the wire, then the reset that a handler armed.
  unfoldable pub send_reply : Machine W → Option FdFrame → Machine W × List Action
  unfolding take_reset
  send_reply m none = (m, [])
  send_reply m (some reply) =
      let (asked, m') = take_reset m in
      (m', write_fd reply ∷ (if asked then sys_reset ∷ [] else []))

module _ {W : Type 0} where
  -- A frame came in: the timeout code is cleared.
  unfoldable pub note_rx : Node W → ℕ → Node W
  note_rx n at =
      let g = n.machine.globals in
      let heard = record n { last_rx = at } in
      if n.dtc_timeout_recorded
      then record heard {
        dtc_timeout_recorded = false;
        machine = record n.machine {
          globals = record g { dtcs = clear_dtc g.dtcs dtc_can_timeout };
        };
      }
      else heard

  -- The arm for a due heartbeat.
  unfoldable pub on_heartbeat : Node W → ℕ → Node W × List Action
  on_heartbeat n at =
      let g = n.machine.globals in
      let noted =
        if leb can_timeout_ms (at - n.last_rx) && not n.dtc_timeout_recorded
        then record n {
          dtc_timeout_recorded = true;
          machine = record n.machine {
            globals = record g { dtcs = set_dtc g.dtcs dtc_can_timeout timeout_status };
          };
        }
        else n in
      (
        noted,
        if n.machine.state.tx_disabled
            then []
            else write_heartbeat (build_heartbeat_frame n.nmt) ∷ [],
      )

module _ (new_standard : ℕ → List ℕ → Option FdFrame) {W : Type 0} where
  -- `take_response_pending`, and the response of a completed job.
  unfoldable pub send_completed : Machine W → Machine W × List Action
  send_completed m =
      if m.state.response_pending
      then (let (bytes, len) = load_response m.globals in
          (
            record m { state = record m.state { response_pending = false } },
            if ltb 0 len
                then optional_write (new_standard cob_id_physical_response (take len bytes))
                else [],
          ))
      else (m, [])

module _ (new_standard : ℕ → List ℕ → Option FdFrame) {W : Type 0} ⦃ota : HasReset W⦄ where
  -- The arm for a received frame.
  unfoldable pub on_rx : Crates → Node W → FdFrame → ℕ → ℕ → Option (Node W × List Action)
  on_rx crates n frame at now_ms =
      let heard = note_rx n at in
      if standard_id frame.id == nmt_cob_id
      then some (record heard { nmt = on_nmt_frame heard.nmt frame }, [])
      else if is_uds_frame frame
      then elim (handle_rx_frame new_standard crates heard.machine frame now_ms) [
        | none ↦ none
        | some (m, reply) ↦
            let (m', actions) = send_reply m reply in some (record heard { machine = m' }, actions)
      ]
      else some (heard, [])

  unfoldable pub on_event : Crates → Node W → BusEvent → ℕ → Option (Node W × List Action)
  on_event crates n (received frame at) now_ms = on_rx crates n frame at now_ms
  on_event crates n bus_error now_ms = some (n, [])
  on_event crates n (heartbeat_due at) now_ms = some (on_heartbeat n at)

  -- One turn of the loop; `none` is a panic.
  unfoldable pub iterate : Crates → Node W → ℕ → BusEvent → Option (Node W × List Action)
  iterate crates n now event = elim (tick n.machine now) [
    | none ↦ none
    | some ticked ↦
        let (m, sent) = send_completed new_standard ticked in
        elim (on_event crates (record n { machine = m }) event now) [
          | none ↦ none
          | some (n', actions) ↦ some (n', sent ++ actions)
        ]
  ]
