-- ===== src/Uds/Pending.antt =====
-- uds-core/src/pending.rs: the queue of continuations, and the tick that runs it.
use rust_foc.Common.{
  ℕ, ◌-◌, Bool, true, false, ◌||◌, List, [], ◌∷◌, Option, none, some, ◌==◌, leb, if◌then◌else◌,
  get_or,
}
use rust_foc.Uds.Types.{
  SrvState, idle, pending, negative_response, general_programming_failure,
  request_correctly_received_response_pending,
}
use rust_foc.Uds.State.{UdsState, Globals, store_response}
use rust_foc.Uds.Config.{UdsConfig, PendingFn, Machine}

abbrev pub pending_queue_size : ℕ
pending_queue_size = 4

abbrev pub is_pending : SrvState → Bool
is_pending idle = false
is_pending pending = true

module _ {W : Type 0} where
  -- The loop over the slots: the first free one takes the job; `none` if all are taken.
  unfoldable pub claim_slot :
      List (Option (PendingFn W)) → PendingFn W → Option (List (Option (PendingFn W)))
  claim_slot [] f = none
  claim_slot (none ∷ slots) f = some (some f ∷ slots)
  claim_slot (some j ∷ slots) f = elim (claim_slot slots f) [
    | none ↦ none
    | some slots' ↦ some (some j ∷ slots')
  ]

  unfoldable pub push_pending : UdsState → UdsConfig W → PendingFn W → Bool × UdsState × UdsConfig W
  push_pending s c f = elim (claim_slot c.pending_queue f) [
    | none ↦ (false, s, c)
    | some queue ↦ (
      true,
      record s { pending_sid = get_or s.request_buf 0 0; state = pending },
      record c { pending_queue = queue },
    )
  ]

  -- Step 2 of `tick`: every job runs once, and a completed one leaves its slot.
  unfoldable pub run_jobs :
      List (Option (PendingFn W))
      → UdsState
      → Globals W
      → Option (List (Option (PendingFn W)) × UdsState × Globals W × Bool)
  run_jobs [] s g = some ([], s, g, false)
  run_jobs (none ∷ slots) s g = elim (run_jobs slots s g) [
    | none ↦ none
    | some (slots', s', g', any) ↦ some (none ∷ slots', s', g', any)
  ]
  run_jobs (some job ∷ slots) s g = elim (job s g) [
    | none ↦ none
    | some (s', g', complete) ↦ elim (run_jobs slots s' g') [
      | none ↦ none
      | some (slots', s'', g'', any) ↦
          some ((if complete then none else some job) ∷ slots', s'', g'', complete || any)
    ]
  ]

  abbrev pub queue_empty : List (Option (PendingFn W)) → Bool
  queue_empty [] = true
  queue_empty (none ∷ slots) = queue_empty slots
  queue_empty (some _ ∷ slots) = false

  abbrev pub clear_queue : List (Option (PendingFn W)) → List (Option (PendingFn W))
  clear_queue [] = []
  clear_queue (_ ∷ slots) = none ∷ clear_queue slots

  -- Step 4: a completed job announces its response, and an empty queue makes the engine idle.
  unfoldable pub announce : List (Option (PendingFn W)) → Bool → UdsState → UdsState
  announce queue any_complete s =
      if any_complete
      then record s { response_pending = true; state = if queue_empty queue then idle else s.state }
      else s

  unfoldable pub send_response_pending : UdsState → Globals W → Globals W
  send_response_pending s g =
      if s.pending_sid == 0
      then g
      else store_response
          (negative_response request_correctly_received_response_pending s.pending_sid) g

  -- Step 5: the P2 timeout.
  unfoldable pub p2_timeout : Machine W → ℕ → Machine W
  p2_timeout m now_ms =
      if is_pending m.state.state
      then if leb m.config.p2_server_ms (now_ms - m.state.request_tick_ms)
        then record m {
          globals = send_response_pending m.state m.globals;
          state = record m.state { request_tick_ms = now_ms };
        }
        else m
      else m

  -- Step 6: the P2* timeout.
  unfoldable pub p2_star_timeout : Machine W → ℕ → Machine W
  p2_star_timeout m now_ms =
      if is_pending m.state.state
      then if leb m.config.request_timeout_ms (now_ms - m.state.request_tick_ms)
        then record m {
          config = record m.config { pending_queue = clear_queue m.config.pending_queue };
          state = record m.state { state = idle; request_tick_ms = now_ms };
          globals =
              if m.state.pending_sid == 0
              then m.globals
              else store_response
                  (negative_response general_programming_failure m.state.pending_sid) m.globals;
        }
        else m
      else m

  unfoldable pub tick : Machine W → ℕ → Option (Machine W)
  tick m now_ms =
      if is_pending m.state.state
      then elim (run_jobs m.config.pending_queue m.state m.globals) [
        | none ↦ none
        | some (queue, s, g, any_complete) ↦ some (
            p2_star_timeout
              (p2_timeout
                (record {
                  config = record m.config { pending_queue = queue };
                  state = announce queue any_complete s;
                  globals = g;
                })
                now_ms)
              now_ms)
      ]
      else some m
