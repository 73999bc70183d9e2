-- ===== src/Platform/Bus/Turns.antt =====
-- src/drivers/can/canopen.rs: one turn of `canopen_task` with a request of an update, or with an event
-- that is not for the engine.
use rust_foc.Common.{
  ℕ, false, List, ◌++◌, Option, some, ◌≡◌, refl, ap, sym, ◌∙◌, Bool-cases, inl, inr, arith, subst,
  ◌==◌,
}
use rust_foc.Can.Bridge.{
  FdFrame, build_response_frame, cob_id_physical_request, handle_rx_frame, is_uds_frame,
  parse_request_frame, respond,
}
use rust_foc.Can.Loop.{Task, Turn, turn}
use rust_foc.Can.Nmt.{nmt_cob_id}
use rust_foc.Can.Reset.{on_heartbeat-quiet, resets, resets-append, send_completed-quiet}
use rust_foc.Can.Task.{
  Action, BusEvent, Node, bus_error, heartbeat_due, iterate, note_rx, on_event, on_rx, received,
  send_completed, send_reply, standard_id,
}
use rust_foc.Foc.Total.{Yields, Yields->>=}
use rust_foc.Ota.Flash.{FlashDevice}
use rust_foc.Ota.Handlers.{Ota}
use rust_foc.Platform.Bus.{IsForeign, board_reset, request_frame}
use rust_foc.Platform.Bus.Calm.{
  IsCalm, IsCalm-Settles, Settles, after, dispatch_sid-Settles, note_rx-IsCalm, on_heartbeat-IsCalm,
  send_completed-IsCalm, send_reply-calm,
}
use rust_foc.Platform.Tables.{Board}
use rust_foc.Platform.Updates.{Request, block, download, request_bytes}
use rust_foc.Uds.Config.{Crates, Machine}
use rust_foc.Uds.Dispatch.{dispatch_sid}
use rust_foc.Uds.Pending.{tick}

module _ {F R : Type 0} (dev : FlashDevice F) (random_word : R → Option (List ℕ) × R)
    (new_standard : ℕ → List ℕ → Option FdFrame) (crates : Crates) where
  -- A turn or a part of one that arms no reset, and after which the engine settles over `o`.
  abbrev pub Leaves : Ota F → Node (Board F R) × List Action → Type 0
  Leaves o (n, actions) = Settles dev random_word o n.machine × (resets actions ≡ false)

  handle_rx_frame-request :
      (m : Machine (Board F R)) (x : Request) (now_ms : ℕ)
      → handle_rx_frame new_standard crates m (request_frame x) now_ms
        ≡ respond new_standard crates m cob_id_physical_request (request_bytes x) now_ms
  unfolding handle_rx_frame parse_request_frame
  handle_rx_frame-request m (download b0 b1 b2 b3) now_ms = refl
  handle_rx_frame-request m (block seq a b) now_ms = refl

  respond-dispatched :
      (m : Machine (Board F R)) (id : ℕ) (request : List ℕ) (now_ms : ℕ) {q : Machine (Board F R)}
      → dispatch_sid crates m request now_ms ≡ some q
      → respond new_standard crates m id request now_ms
        ≡ some (q, build_response_frame new_standard q.globals id)
  unfolding respond
  respond-dispatched m id request now_ms e = ground (arith, e)

  handle_rx_frame-Settles :
      (o : Ota F) (m : Machine (Board F R)) (x : Request) (now_ms : ℕ)
      → IsCalm dev random_word o m
      → Yields
          (handle_rx_frame new_standard crates m (request_frame x) now_ms)
          (λ r. r.0.globals ≡ m.globals × Settles dev random_word (after dev random_word x o) r.0)
  handle_rx_frame-Settles o m x now_ms calm =
      let (q, e, kept) = dispatch_sid-Settles dev random_word crates o m x now_ms calm in
      (
        (q, build_response_frame new_standard q.globals cob_id_physical_request),
        handle_rx_frame-request m x now_ms
            ∙ respond-dispatched m cob_id_physical_request (request_bytes x) now_ms e,
        kept,
      )

  on_rx-request :
      (o : Ota F) (n : Node (Board F R)) (x : Request) (at now_ms : ℕ)
      → IsCalm dev random_word o n.machine
      → Yields
          (on_rx new_standard crates n (request_frame x) at now_ms)
          (Leaves (after dev random_word x o))
  unfolding on_rx is_uds_frame
  on_rx-request o n x at now_ms calm =
      let heard = note_rx-IsCalm dev random_word o n at calm in
      let ((q, reply), e, (globals, settles)) =
        handle_rx_frame-Settles o (note_rx n at).machine x now_ms heard in
      let (same, quiet) =
        send_reply-calm dev random_word q reply (ap (λ g. g.reset_requested) globals ∙ heard.kept) (
          ap (λ g. g.world.ota.reset_requested) globals
          ∙ ap (λ k. k.reset_requested) heard.ota
          ∙ heard.unarmed) in
      (
        (record (note_rx n at) { machine = (send_reply q reply).0 }, (send_reply q reply).1),
        rw e refl,
        (subst (Settles dev random_word (after dev random_word x o)) (sym same) settles, quiet),
      )

  pub on_event-request :
      (o : Ota F) (n : Node (Board F R)) (event : BusEvent) (x : Request) (at now_ms : ℕ)
      → event ≡ received (request_frame x) at
      → IsCalm dev random_word o n.machine
      → Yields (on_event new_standard crates n event now_ms) (Leaves (after dev random_word x o))
  unfolding on_event
  on_event-request o n event x at now_ms e calm =
      subst
        (λ k. Yields (on_event new_standard crates n k now_ms) (Leaves (after dev random_word x o)))
        (sym e) (on_rx-request o n x at now_ms calm)

  pub on_event-foreign :
      (o : Ota F) (n : Node (Board F R)) (event : BusEvent) (now_ms : ℕ)
      → IsForeign event
      → IsCalm dev random_word o n.machine
      → Yields (on_event new_standard crates n event now_ms) (Leaves o)
  unfolding on_event on_rx
  on_event-foreign o n (received frame at) now_ms foreign calm =
      let settles =
        IsCalm-Settles dev random_word o _ (note_rx-IsCalm dev random_word o n at calm) in
      elim (Bool-cases (standard_id frame.id == nmt_cob_id)) [
        | inl nmt ↦ rw nmt (_, refl, (settles, refl))
        | inr other ↦ rw (other, foreign) (_, refl, (settles, refl))
      ]
  on_event-foreign o n bus_error now_ms foreign calm =
      (_, refl, (IsCalm-Settles dev random_word o n.machine calm, refl))
  on_event-foreign o n (heartbeat_due at) now_ms foreign calm = (
    _,
    refl,
    (
      IsCalm-Settles dev random_word o _ (on_heartbeat-IsCalm dev random_word o n at calm),
      on_heartbeat-quiet n at,
    ),
  )

  iterate-some :
      (n : Node (Board F R)) (now_ms : ℕ) (event : BusEvent) {ticked : Machine (Board F R)}
      {n' : Node (Board F R)} {actions : List Action}
      → tick n.machine now_ms ≡ some ticked
      → on_event new_standard crates
          (record n { machine = (send_completed new_standard ticked).0 })
          event
          now_ms
        ≡ some (n', actions)
      → iterate new_standard crates n now_ms event
        ≡ some (n', (send_completed new_standard ticked).1 ++ actions)
  unfolding iterate
  iterate-some n now_ms event e e' = ground (arith, e, e')

  pub turn-Yields :
      (t : Task (Board F R)) (x : Turn) (P : Node (Board F R) × List Action → Type 0)
      → Yields (iterate new_standard crates t.node x.now x.event) P
      → Yields (turn new_standard crates t x) (λ r. P (r.0.node, r.1))
  unfolding turn
  turn-Yields t x P ran = Yields->>= _ P _ _ ran (λ r p. (_, refl, p))

  pub iterate-Leaves :
      (o o' : Ota F) (n : Node (Board F R)) (now_ms : ℕ) (event : BusEvent)
      → Settles dev random_word o n.machine
      → ((m : Machine (Board F R))
          → IsCalm dev random_word o m
          → Yields
              (on_event new_standard crates (record n { machine = m }) event now_ms)
              (Leaves o'))
      → Yields (iterate new_standard crates n now_ms event) (Leaves o')
  iterate-Leaves o o' n now_ms event settles react =
      let (ticked, e, calm) = settles now_ms in
      let ((n', actions), e', (after_it, quiet)) =
        react (send_completed new_standard ticked).0
          (send_completed-IsCalm dev random_word new_standard o ticked calm) in
      let sent = (send_completed new_standard ticked).1 in
      (
        (n', sent ++ actions),
        iterate-some n now_ms event e e',
        (
          after_it,
          resets-append sent actions
              ∙ ground (arith, send_completed-quiet new_standard ticked, quiet),
        ),
      )
