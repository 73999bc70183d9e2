-- ===== src/Platform/Bus.antt =====
-- src/drivers/can/canopen.rs: `canopen_task` over the platform's own state, and the traffic of a bus
-- on which a client sends requests of an update.
pub mod Calm
pub mod Turns
pub mod Traffic
pub mod Stored
use rust_foc.Common.{ℕ, false, List, [], ◌∷◌, ◌≡◌, length}
use rust_foc.Can.Bridge.{FdFrame, cob_id_physical_request, is_uds_frame, standard}
use rust_foc.Can.Loop.{Turn}
use rust_foc.Can.Task.{BusEvent, HasReset, bus_error, heartbeat_due, received}
use rust_foc.Ota.Handlers.{take_reset_request}
use rust_foc.Platform.Tables.{Board}
use rust_foc.Platform.Updates.{Request, request_bytes}

-- `ota::take_reset_request` beside the generator of random numbers.
instance abbrev pub board_reset : {F R : Type 0} → HasReset (Board F R)
board_reset = record {
  take_ota_reset = λ b. let (asked, o) = take_reset_request b.ota in (asked, record b { ota = o });
}

-- A request of an update in one frame to the node.
abbrev pub request_frame : Request → FdFrame
request_frame x = record {
  id = standard cob_id_physical_request;
  len = length (request_bytes x);
  data_bytes = request_bytes x;
}

-- An event that is not for the engine.
abbrev pub IsForeign : BusEvent → Type 0
IsForeign (received frame at) = is_uds_frame frame ≡ false
IsForeign bus_error = Unit
IsForeign (heartbeat_due at) = Unit

-- The requests that turns of the task carry, in their order, between any events that are not for the
-- engine.
pub data Carries : List Turn → List Request → Type 0 where
  silence : Carries [] []
  asks :
      (t : Turn) (x : Request) (at : ℕ) (ts : List Turn) (xs : List Request)
      → t.event ≡ received (request_frame x) at
      → Carries ts xs
      → Carries (t ∷ ts) (x ∷ xs)
  passes :
      (t : Turn) (ts : List Turn) (xs : List Request)
      → IsForeign t.event
      → Carries ts xs
      → Carries (t ∷ ts) xs
