-- ===== src/Can/Loop.antt =====
-- src/drivers/can/canopen.rs: `canopen_task` from its start, with the ticker of the heartbeat. Other
-- tasks may set the period whenever the task waits, so each reading of it is an input.
use rust_foc.Can.Bridge.{FdFrame}
use rust_foc.Can.Nmt.{booting, build_heartbeat_frame, pre_operational}
use rust_foc.Can.Task.{
  HasReset, Action, BusEvent, Node, bus_error, heartbeat_due, iterate, received, write_heartbeat,
}
use rust_foc.Common.{
  ℕ, ◌==◌, ◌++◌, ◌&&◌, Bool, true, false, not, ltb, if◌then◌else◌, List, [], ◌∷◌, Option, none,
  some, ◌>>=◌,
}
use rust_foc.Uds.Config.{Crates, Machine}

-- `LAST_HEARTBEAT_PERIOD_MS` and the period of the ticker, if there is one.
pub record Ticking : Type 0 where
  pub last_period : ℕ
  pub heartbeat : Option ℕ

-- The ticker for a period, as it is built outside the arm of the heartbeat.
abbrev pub ticker_for : ℕ → Option ℕ
ticker_for period = if ltb 0 period then some period else none

abbrev pub first_ticking : ℕ → Ticking
first_ticking initial_period = record {
  last_period = initial_period;
  heartbeat = ticker_for initial_period;
}

-- At the top of the loop.
unfoldable pub reevaluate : Ticking → ℕ → Ticking
reevaluate k current =
    if current == k.last_period
    then k
    else record { last_period = current; heartbeat = ticker_for current }

-- In the arm of the heartbeat.
unfoldable pub restart : Ticking → ℕ → Ticking
restart k current =
    if current == k.last_period
    then k
    else record { last_period = current; heartbeat = some current }

pub record Task (W : Type 0) : Type 0 where
  pub node : Node W
  pub ticking : Ticking

-- What one turn reads of the world: the clock, the period at its top and after the heartbeat, and the
-- event that ends its wait.
pub record Turn : Type 0 where
  pub now : ℕ
  pub period : ℕ
  pub event : BusEvent
  pub period_after : ℕ

abbrev pub is_heartbeat : BusEvent → Bool
is_heartbeat (received frame at) = false
is_heartbeat bus_error = false
is_heartbeat (heartbeat_due at) = true

module _ (new_standard : ℕ → List ℕ → Option FdFrame) (crates : Crates) {W : Type 0}
    ⦃ota : HasReset W⦄ where
  unfoldable pub turn : Task W → Turn → Option (Task W × List Action)
  turn t x = iterate new_standard crates t.node x.now x.event >>= λ (node, actions).
      let waiting = reevaluate t.ticking x.period in
      let ticking =
        if is_heartbeat x.event && not node.machine.state.tx_disabled
        then restart waiting x.period_after
        else waiting in
      some (record { node = node; ticking = ticking }, actions)

  unfoldable pub turns : Task W → List Turn → Option (Task W × List Action)
  turns t [] = some (t, [])
  turns t (x ∷ xs) =
      turn t x >>= λ (t', actions). turns t' xs >>= λ (t'', more). some (t'', actions ++ more)

-- The boot-up frame, then the loop; `started` is the clock at the start.
module _ {W : Type 0} ⦃ota : HasReset W⦄ where
  abbrev pub first_task : Machine W → ℕ → ℕ → Task W
  first_task m started initial_period = record {
    node = record {
      nmt = pre_operational;
      last_rx = started;
      dtc_timeout_recorded = false;
      machine = m;
    };
    ticking = first_ticking initial_period;
  }

  unfoldable pub canopen_task :
      (ℕ → List ℕ → Option FdFrame)
      → Crates
      → Machine W
      → ℕ
      → ℕ
      → List Turn
      → Option (Task W × List Action)
  canopen_task new_standard crates m started initial_period xs =
      turns new_standard crates (first_task m started initial_period) xs >>= λ (t, actions).
      some (t, write_heartbeat (build_heartbeat_frame booting) ∷ actions)
