-- ===== src/Can/Stale.antt =====
-- src/drivers/can/uds_bridge.rs: the answer to a request that the engine only queues.
use rust_foc.Uds.Frames.{dispatch_0x27_frame}
use rust_foc.Uds.Effect.{
  queued, secured, entered, quiet, served, declined, ignored, dispatch_sid-Outcome,
}
use rust_foc.Uds.Types.{pending, idle, Nrc}
use rust_foc.Uds.Pending.{push_pending}
use rust_foc.Can.Bridge.{
  handle_rx_frame-Received, build_response_frame, standard, FdFrame, handle_rx_frame,
}
use rust_foc.Uds.Dispatch.{stamp, keep_request, dispatch_sid, queue_job}
use rust_foc.Uds.Config.{PendingFn, Machine, Crates}
use rust_foc.Uds.Types.{idle, pending}
use rust_foc.Uds.Effect.{ignored, declined, served, quiet, entered, secured, queued}
use rust_foc.Can.Bridge.{dropped, dispatched, standard}
use rust_foc.Common.{◌∷◌, some, none, arith, Option, ◌≡◌, List, ℕ, none, some}

module _ {W : Type 0} (crates : Crates) where
  queue_job-globals :
      (m : Machine W) (sid : ℕ) (missing : Nrc) (f : Option (PendingFn W))
      → m.state.state ≡ idle
      → (queue_job m sid missing f).state.state ≡ pending
      → (queue_job m sid missing f).globals ≡ m.globals
  unfolding queue_job push_pending
  queue_job-globals m sid missing none i p = absurd (ground arith)
  queue_job-globals m sid missing (some f) i p = ground arith

  -- A request that leaves the engine pending stores no response.
  dispatch_sid-queued :
      (m : Machine W) (request : List ℕ) (now_ms : ℕ) {m' : Machine W}
      → m.state.state ≡ idle
      → m'.state.state ≡ pending
      → dispatch_sid crates m request now_ms ≡ some m'
      → m'.globals ≡ m.globals
  dispatch_sid-queued m request now_ms i p h =
      elim (dispatch_sid-Outcome crates m request now_ms h) [
        | ignored e ↦ absurd (ground arith)
        | declined st c ↦ absurd (ground arith)
        | served _ (quiet same fails st c) ↦ absurd (ground arith)
        | served _ (entered new st c) ↦ absurd (ground arith)
        | served _ (secured r e n) ↦
            let kept = keep_request (stamp m now_ms) request in
            let (_, st) =
              dispatch_0x27_frame crates kept.config kept.state kept.globals request e in
            absurd (ground arith)
        | served _ (queued sid missing f w n) ↦
            let kept = keep_request (stamp m now_ms) request in
            let q = queue_job-globals kept sid missing f i (rw n at p) in rw n q
      ]

  -- A request that the engine queues is answered at once with the response that stood in the buffer
  -- before it, that of an earlier request.
  pub handle_rx_frame-stale :
      (new_standard : ℕ → List ℕ → Option FdFrame) (m : Machine W) (id : ℕ) (frame : FdFrame)
      (now_ms : ℕ) {m' : Machine W} {reply : Option FdFrame}
      → frame.id ≡ standard id
      → m.state.state ≡ idle
      → m'.state.state ≡ pending
      → handle_rx_frame new_standard crates m frame now_ms ≡ some (m', reply)
      → (m'.globals ≡ m.globals) × (reply ≡ build_response_frame new_standard m.globals id)
  handle_rx_frame-stale new_standard m id frame now_ms s i p h =
      elim (handle_rx_frame-Received new_standard crates m id frame now_ms s h) [
        | dropped e r ↦ absurd (ground arith)
        | dispatched sid rest e allowed d r ↦
            let same = dispatch_sid-queued m (sid ∷ rest) now_ms i p d in (same, rw same at r)
      ]
