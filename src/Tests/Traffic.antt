-- ===== src/Tests/Traffic.antt =====
-- An image over the bus, among other traffic, on the toy flash and generator.
use rust_foc.Common.{ℕ, ◌≡◌, refl, false, Option, some, List, [], ◌∷◌, arith, length}
use rust_foc.Can.Bridge.{FdFrame, is_uds_frame, standard}
use rust_foc.Can.Loop.{Task, Turn, turns}
use rust_foc.Can.Nmt.{pre_operational}
use rust_foc.Can.Reset.{resets}
use rust_foc.Can.Task.{BusEvent, bus_error, heartbeat_due, received}
use rust_foc.Foc.Total.{IfSome, Yields}
use rust_foc.Ota.Flash.{read_bytes}
use rust_foc.Ota.Handlers.{Ota, dfu_start, handle_request_download, receiving}
use rust_foc.Ota.Image.{image_of, send_blocks}
use rust_foc.Platform.Bus.{Carries, asks, board_reset, passes, request_frame, silence}
use rust_foc.Platform.Bus.Calm.{IsCalm}
use rust_foc.Platform.Bus.Stored.{turns-stored}
use rust_foc.Platform.Bus.Traffic.{image_requests, turns-send_blocks}
use rust_foc.Platform.Tables.{Board}
use rust_foc.Platform.Unarmed.Runs.{run-unarmed}
use rust_foc.Uds.Requests.{Event, request, run, tick_at}
use rust_foc.Platform.Updates.{Request, block, download, platform}
use rust_foc.Tests.Starts.{board, counter, opened, opened-unlocked, sealed}
use rust_foc.Tests.Updates.{at_rest, behaves, memory, zeros}
use rust_foc.Uds.Pending.{tick}
use rust_foc.Uds.Types.{idle}

abbrev framed : ℕ → List ℕ → Option FdFrame
framed id bytes = some (record { id = standard id; len = length bytes; data_bytes = bytes })

abbrev eight : List (ℕ × ℕ)
eight = (1, 2) ∷ (3, 4) ∷ (5, 6) ∷ (7, 8) ∷ []

abbrev at_time : ℕ → BusEvent → Turn
at_time now event = record { now = now; period = 100; event = event; period_after = 100 }

abbrev sends : ℕ → Request → Turn
sends now x = at_time now (received (request_frame x) now)

-- The frame of another node.
abbrev stranger : FdFrame
stranger = record { id = standard 0x123; len = 1; data_bytes = 0x27 ∷ [] }

stranger-foreign : is_uds_frame stranger ≡ false
unfolding is_uds_frame
stranger-foreign = refl

abbrev busy_bus : List Turn
busy_bus =
    at_time 10 (heartbeat_due 10)
    ∷ sends 20 (download 8 0 0 0)
    ∷ at_time 20000 bus_error
    ∷ sends 20001 (block 1 1 2)
    ∷ sends 20002 (block 2 3 4)
    ∷ at_time 40000 (heartbeat_due 40000)
    ∷ sends 40001 (block 3 5 6)
    ∷ at_time 40002 (received stranger 40002)
    ∷ sends 40003 (block 4 7 8)
    ∷ []

busy_bus-Carries : Carries busy_bus (image_requests eight)
busy_bus-Carries = passes _ _ _ _ (
    asks _ _ 20 _ _ refl (
      passes _ _ _ _ (
        asks _ _ 20001 _ _ refl (
          asks _ _ 20002 _ _ refl (
            passes _ _ _ _ (
              asks _ _ 40001 _ _ refl
                (passes _ _ _ stranger-foreign (asks _ _ 40003 _ _ refl silence))))))))

abbrev bus_task : Task (Board (ℕ → ℕ) ℕ)
bus_task = record {
  node = record {
    nmt = pre_operational;
    last_rx = 0;
    dtc_timeout_recorded = false;
    machine = platform memory counter opened (board zeros);
  };
  ticking = record { last_period = 100; heartbeat = some 100 };
}

abbrev resting : Ota (ℕ → ℕ)
resting = record at_rest { flash = zeros }

bus_task-IsCalm : IsCalm memory counter resting bus_task.node.machine
bus_task-IsCalm = record {
  config = refl;
  free = refl;
  session = refl;
  unlocked = opened-unlocked;
  ota = refl;
  kept = refl;
  unarmed = refl;
}

turns-send_blocks_example : Yields (turns framed sealed bus_task busy_bus) (λ r.
    (resets r.1 ≡ false)
    × ((now : ℕ)
        → Yields (tick r.0.node.machine now) (λ m.
          (m.globals.world.ota
            ≡ send_blocks memory
                (handle_request_download memory resting (0x00 ∷ 8 ∷ 0 ∷ 0 ∷ 0 ∷ [])).0
                1
                eight)
          × (m.state.state ≡ idle))))
turns-send_blocks_example =
    turns-send_blocks memory counter framed sealed resting bus_task busy_bus eight bus_task-IsCalm
      busy_bus-Carries

turns-stored_example : Yields (turns framed sealed bus_task busy_bus) (λ r.
    (now : ℕ)
    → Yields (tick r.0.node.machine now) (λ m.
      let o = m.globals.world.ota in
      (o.state ≡ receiving)
      × (o.remaining ≡ 0)
      × (read_bytes memory o.flash dfu_start 8 ≡ image_of eight)))
turns-stored_example =
    turns-stored memory counter framed sealed behaves resting bus_task busy_bus eight
      bus_task-IsCalm refl (omega arith) (omega arith) busy_bus-Carries

-- An update of one block, and the request that should install it.
abbrev whole_update : List Event
whole_update =
    request (0x34 ∷ 0x00 ∷ 2 ∷ 0 ∷ 0 ∷ 0 ∷ []) 10
    ∷ tick_at 20
    ∷ request (0x36 ∷ 1 ∷ 7 ∷ 8 ∷ []) 30
    ∷ tick_at 40
    ∷ request (0x37 ∷ []) 50
    ∷ tick_at 60
    ∷ []

run-unarmed_example :
    IfSome
      (run sealed (platform memory counter opened (board zeros)) whole_update)
      (λ m. m.globals.world.ota.reset_requested ≡ false)
run-unarmed_example = run-unarmed memory counter sealed opened (board zeros) whole_update refl
