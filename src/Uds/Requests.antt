-- ===== src/Uds/Requests.antt =====
-- uds-core/src/table.rs: requests that the engine turns away, and histories of requests and ticks.
use rust_foc.Uds.Response.{response-store_response}
use rust_foc.Uds.Types.{
  incorrect_message_length_or_invalid_format, idle, busy_repeat_request, pending,
}
use rust_foc.Uds.Pending.{tick}
use rust_foc.Uds.State.{response, store_response}
use rust_foc.Uds.Dispatch.{
  keep_request, stamp, find_service, refusing, dispatch_0x37, route, serve, dispatch_sid,
}
use rust_foc.Uds.Config.{
  security_allowed, session_allowed, transfer_exit, ServiceEntry, Machine, Crates,
}
use rust_foc.Common.{◌≤◌, length, Option, List, ℕ, ◌≡◌, ◌∷◌, [], refl, arith, some, none, true}

module _ {W : Type 0} (crates : Crates) where
  -- While a job is pending every request is answered with busyRepeatRequest for its own service. The
  -- queue, the stored request and all else that the engine holds stay, but the time stamp of the
  -- pending request, which is put forward.
  pub dispatch_sid-busy :
      (m : Machine W) (sid : ℕ) (rest : List ℕ) (now_ms : ℕ) {m' : Machine W}
      → m.state.state ≡ pending
      → dispatch_sid crates m (sid ∷ rest) now_ms ≡ some m'
      → (response m'.globals ≡ 0x7F ∷ sid ∷ 0x21 ∷ [])
        × (m'.config ≡ m.config)
        × (m'.state ≡ record m.state { request_tick_ms = now_ms })
        × (m'.globals.dtcs ≡ m.globals.dtcs)
        × (m'.globals.key_masks ≡ m.globals.key_masks)
        × (m'.globals.reset_requested ≡ m.globals.reset_requested)
        × (m'.globals.world ≡ m.globals.world)
  unfolding dispatch_sid store_response
  dispatch_sid-busy m sid rest now_ms {m' = m'} p h =
      let payload = 0x7F ∷ sid ∷ 0x21 ∷ [] in
      let e : refusing busy_repeat_request sid (stamp m now_ms) ≡ m' = ground arith in
      rw (← e) (
        response-store_response payload m.globals (omega arith),
        refl,
        refl,
        refl,
        refl,
        refl,
        refl,
      )

  -- TransferExit is never served: a request that passes every gate to it is refused with
  -- incorrectMessageLengthOrInvalidFormat, whatever its length, and no job is queued, since the
  -- handler wants an empty request where the stored one holds the service identifier.
  pub dispatch_sid-transfer_exit_refused :
      (m : Machine W) (sid : ℕ) (rest : List ℕ) (now_ms : ℕ) (e : ServiceEntry) {m' : Machine W}
      → m.state.state ≡ idle
      → find_service m sid ≡ some e
      → e.handler ≡ transfer_exit
      → session_allowed m.state.session e.session_access ≡ true
      → security_allowed m.state.security e.security_level ≡ true
      → length (sid ∷ rest) ≤ 64
      → dispatch_sid crates m (sid ∷ rest) now_ms ≡ some m'
      → (response m'.globals ≡ 0x7F ∷ 0x37 ∷ 0x13 ∷ [])
        × (m'.config ≡ m.config)
        × (m'.state.state ≡ idle)
  unfolding dispatch_sid serve route dispatch_0x37
  dispatch_sid-transfer_exit_refused m sid rest now_ms e {m' = m'} i found exit on unlocked fits h =
      let kept = keep_request (stamp m now_ms) (sid ∷ rest) in
      let refused : refusing incorrect_message_length_or_invalid_format 0x37 kept ≡ m' =
        ground arith in
      rw (← refused)
        (response-store_response (0x7F ∷ 0x37 ∷ 0x13 ∷ []) m.globals (omega arith), refl, i)

pub data Event : Type 0 where
  request : List ℕ → ℕ → Event
  tick_at : ℕ → Event

module _ {W : Type 0} (crates : Crates) where
  unfoldable pub step : Machine W → Event → Option (Machine W)
  step m (request bytes now_ms) = dispatch_sid crates m bytes now_ms
  step m (tick_at now_ms) = tick m now_ms

  -- The events in order; `none` once a step panics.
  unfoldable pub run : Machine W → List Event → Option (Machine W)
  run m [] = some m
  run m (e ∷ es) = elim (step m e) [ none ↦ none | some m' ↦ run m' es ]
