-- ===== src/Tests/Bus.antt =====
-- The theorems on the CAN side at concrete frames and nodes.
use rust_foc.Can.Loop.{Turn, canopen_task, turns, turn, reevaluate}
use rust_foc.Foc.Total.{IfSome}
use rust_foc.Can.Heartbeat.{IsQuiet, canopen_task-IsQuiet}
use rust_foc.Can.Reset.{iterate-reset_after_reply, ReplyThenReset}
use rust_foc.Can.Stale.{handle_rx_frame-stale}
use rust_foc.Uds.Services.{dispatch_0x11, enter_session, dispatch_0x10}
use rust_foc.Tests.Updates.{at_rest}
use rust_foc.Uds.Dispatch.{dispatch_0x36, stamp, route, keep_request, serve, dispatch_sid}
use rust_foc.Uds.Queue.{no_jobs, one_job}
use rust_foc.Uds.Pending.{
  claim_slot, push_pending, p2_star_timeout, p2_timeout, announce, run_jobs, tick,
}
use rust_foc.Ota.Handlers.{take_reset_request, Ota}
use rust_foc.Tests.Fixtures.{crates, globals, never, entry, config, programming_unlocked}
use rust_foc.Can.Addressing.{IsStandard, handle_rx_frame-Harmless, Harmless, iso_sid}
use rust_foc.Uds.State.{load_response, store_response, zeroed, Globals}
use rust_foc.Common.{
  ◌≡◌, ◌⊎◌, ◌>>=◌, All, length, replicate, Option, List, ℕ, refl, some, none, [], ◌∷◌, false, arith,
}
use rust_foc.Can.Bridge.{
  is_uds_frame, build_response_frame, respond, functional_blocked, FdFrame, parse_request_frame,
  handle_rx_frame, standard,
}
use rust_foc.Can.Nmt.{heartbeat_byte, pre_operational, on_nmt_frame, apply_nmt_command}
use rust_foc.Can.Task.{
  ota_reset, take_reset, send_reply, on_event, send_completed, note_rx, on_rx, on_heartbeat,
  iterate, Node, received, heartbeat_due, write_heartbeat, Action, write_fd, sys_reset,
}
use rust_foc.Uds.Types.{session_from_u8, pending, default, locked}
use rust_foc.Uds.Config.{security_allowed, session_allowed, UdsConfig, Machine, ecu_reset}

-- A crate that takes any data.
abbrev any_frame : ℕ → List ℕ → Option FdFrame
any_frame id bytes = some (record { id = standard id; len = length bytes; data_bytes = bytes })

abbrev frame_of : ℕ → List ℕ → FdFrame
frame_of id bytes = record { id = standard id; len = length bytes; data_bytes = bytes }

fresh-IsStandard : IsStandard programming_unlocked
unfolding iso_sid
fresh-IsStandard sid e h = ground arith

-- A broadcast of 0x10 0x01 to an unlocked node in its programming session.
handle_rx_frame-Harmless_example : Harmless programming_unlocked (record programming_unlocked {
  state = record (keep_request (stamp programming_unlocked 5) (0x10 ∷ 0x01 ∷ [])).state {
    session = default;
    security = locked;
  };
  globals = store_response (0x50 ∷ 0x01 ∷ []) globals;
})
unfolding handle_rx_frame parse_request_frame functional_blocked respond dispatch_sid serve route
    dispatch_0x10 session_from_u8 enter_session store_response session_allowed security_allowed
    build_response_frame load_response
handle_rx_frame-Harmless_example =
    handle_rx_frame-Harmless any_frame crates programming_unlocked
      (frame_of 0x7DF (0x10 ∷ 0x01 ∷ [])) 5 {reply = some (frame_of 0x7E8 (0x50 ∷ 0x01 ∷ []))}
      fresh-IsStandard refl refl

-- The node answered 0x50 0x01 before, and now gets a TransferData.
abbrev answered : Machine (Unit {0})
answered = record programming_unlocked { globals = store_response (0x50 ∷ 0x01 ∷ []) globals }

abbrev block : List ℕ
block = 0x36 ∷ 1 ∷ 2 ∷ 3 ∷ []

abbrev queued_block : Machine (Unit {0})
queued_block = record answered {
  config = record config { pending_queue = one_job never };
  state = record (keep_request (stamp answered 5) block).state {
    state = pending;
    pending_sid = 0x36;
  };
}

handle_rx_frame-stale_example :
    (answered.globals ≡ answered.globals)
    × (some (frame_of 0x7E8 (0x50 ∷ 0x01 ∷ []))
        ≡ build_response_frame any_frame answered.globals 0x7E0)
unfolding handle_rx_frame parse_request_frame respond dispatch_sid serve route dispatch_0x36
    push_pending claim_slot session_allowed security_allowed build_response_frame load_response
    store_response
handle_rx_frame-stale_example =
    handle_rx_frame-stale crates any_frame answered 0x7E0 (frame_of 0x7E0 block) 5
      {m' = queued_block} refl refl refl refl

-- A node whose platform has the service EcuReset alone.
abbrev node_config : UdsConfig (Ota (ℕ → ℕ))
node_config = record {
  services = entry 0x11 0b111 0 ecu_reset ∷ [];
  read_dids = [];
  write_dids = [];
  routines_start = [];
  routines_stop = [];
  routines_result = [];
  pending_queue = no_jobs;
  p2_server_ms = 50;
  request_timeout_ms = 5000;
  sa_max_attempts = 3;
  on_default_session_enter = none;
  on_programming_session_enter = none;
  on_extended_session_enter = none;
  seed_fn = none;
  key_fn = none;
  request_download_fn = none;
  transfer_data_fn = none;
  transfer_exit_fn = none;
}

abbrev node_globals : Globals (Ota (ℕ → ℕ))
node_globals = record {
  response_buf = replicate 64 0;
  response_len = 0;
  reset_requested = false;
  reset_subfunc = 0;
  dtcs = replicate 8 none;
  seed_counter = 0;
  key_masks = [];
  world = at_rest;
}

abbrev node : Node (Ota (ℕ → ℕ))
node = record {
  nmt = pre_operational;
  last_rx = 0;
  dtc_timeout_recorded = false;
  machine = record { config = node_config; state = zeroed; globals = node_globals };
}

-- A heartbeat, a stop command to the node and another heartbeat, with the period set to 500 between.
abbrev three_turns : List Turn
three_turns =
    record { now = 1000; period = 1000; event = heartbeat_due 1000; period_after = 1000 }
    ∷ record {
      now = 1000;
      period = 500;
      event = received (frame_of 0 (0x02 ∷ 1 ∷ [])) 1100;
      period_after = 500;
    }
    ∷ record { now = 1100; period = 500; event = heartbeat_due 1600; period_after = 500 }
    ∷ []

three_turns-beats :
    (canopen_task any_frame crates node.machine 0 1000 three_turns >>= λ r. some r.1)
    ≡ some (
        write_heartbeat (0x701, 0x00 ∷ [])
        ∷ write_heartbeat (0x701, 0x7F ∷ [])
        ∷ write_heartbeat (0x701, 0x04 ∷ [])
        ∷ [])
unfolding canopen_task turns turn iterate tick run_jobs send_completed on_event on_rx on_heartbeat
    note_rx heartbeat_byte on_nmt_frame apply_nmt_command announce
three_turns-beats = refl

canopen_task-IsQuiet_example :
    IfSome (canopen_task any_frame crates node.machine 0 1000 three_turns) (λ (t, actions).
      ((rest : List Action) × (actions ≡ write_heartbeat (0x701, 0x00 ∷ []) ∷ rest)
        × All IsQuiet rest)
      × (((reevaluate t.ticking 500).heartbeat ≡ some 500)
          ⊎ (((reevaluate t.ticking 500).heartbeat ≡ none) × (◌≡◌ {A = ℕ} 500 0))))
canopen_task-IsQuiet_example =
    canopen_task-IsQuiet any_frame crates node.machine 0 1000 three_turns 500

-- The node after a hard reset was asked for and answered.
abbrev reset_reply : List ℕ
reset_reply = 0x51 ∷ 0x01 ∷ []

iterate-reset_after_reply_example :
    ReplyThenReset (write_fd (frame_of 0x7E8 reset_reply) ∷ sys_reset ∷ [])
unfolding iterate tick run_jobs announce p2_timeout p2_star_timeout send_completed on_event on_rx
    note_rx is_uds_frame handle_rx_frame parse_request_frame respond dispatch_sid serve route
    dispatch_0x11 session_allowed security_allowed build_response_frame load_response store_response
    send_reply take_reset take_reset_request
iterate-reset_after_reply_example =
    iterate-reset_after_reply any_frame crates node 5
      (received (frame_of 0x7E0 (0x11 ∷ 0x01 ∷ [])) 3) refl refl
