-- ===== src/Can/Heartbeat.antt =====
-- src/drivers/can/canopen.rs: the heartbeats of a whole run of the task, and its ticker.
use rust_foc.Foc.Total.{IfSome, IfSome->>=}
use rust_foc.Can.Bridge.{FdFrame, cob_id_physical_response, handle_rx_frame, is_uds_frame}
use rust_foc.Can.Loop.{
  Task, Ticking, Turn, canopen_task, first_task, first_ticking, is_heartbeat, reevaluate, restart,
  turn, turns,
}
use rust_foc.Can.Nmt.{
  NmtState, booting, heartbeat_byte, heartbeat_cob_id, on_nmt_frame-running, operational,
  pre_operational, stopped, nmt_cob_id,
}
use rust_foc.Can.Task.{
  HasReset, Action, BusEvent, Node, bus_error, heartbeat_due, iterate, note_rx, on_event,
  on_heartbeat, on_rx, received, optional_write, send_completed, send_reply, standard_id, sys_reset,
  take_reset, write_fd, write_heartbeat,
}
use rust_foc.Common.{
  ℕ, ◌==◌, ◌++◌, ◌≡◌, ◌≢◌, ◌⊎◌, All, Bool, Bool-cases, Option-cases, true, false, not, ltb,
  if◌then◌else◌, List, [], ◌∷◌, Option, none, some, ◌&&◌, arith, inl, inr, refl, take, ◌∙◌, sym,
  subst,
}
use rust_foc.Uds.Config.{Crates, Machine}
use rust_foc.Uds.Pending.{tick}
use rust_foc.Uds.State.{load_response}

-- A heartbeat is one byte on the node's identifier, and not the byte of the boot-up.
abbrev pub IsQuiet : Action → Type 0
IsQuiet (write_fd frame) = Unit {0}
IsQuiet (write_heartbeat (id, bytes)) =
    (id ≡ heartbeat_cob_id) × (b : ℕ) × (bytes ≡ b ∷ []) × (b ≢ heartbeat_byte booting)
IsQuiet sys_reset = Unit {0}

All-append : {A : Type 0} (P : A → Type 0) (xs ys : List A) → All P xs → All P ys → All P (xs ++ ys)
All-append P [] ys h k = k
All-append P (x ∷ xs) ys (p, h) k = (p, All-append P xs ys h k)

running_byte : (s : NmtState) → s ≢ booting → heartbeat_byte s ≢ heartbeat_byte booting
unfolding heartbeat_byte
running_byte booting h e = h refl
running_byte pre_operational h e = omega (arith, e)
running_byte operational h e = omega (arith, e)
running_byte stopped h e = omega (arith, e)

IsQuiet-if :
    (b : Bool) (xs ys : List Action)
    → All IsQuiet xs
    → All IsQuiet ys
    → All IsQuiet (if b then xs else ys)
IsQuiet-if true xs ys h k = h
IsQuiet-if false xs ys h k = k

optional_write-IsQuiet : (frame : Option FdFrame) → All IsQuiet (optional_write frame)
optional_write-IsQuiet none = tt
optional_write-IsQuiet (some frame) = (tt, tt)

-- The ticker has the period that was read last; there is none only where that is 0.
abbrev pub Agrees : Ticking → Type 0
Agrees k = (k.heartbeat ≡ some k.last_period) ⊎ ((k.heartbeat ≡ none) × (k.last_period ≡ 0))

reevaluate-Agrees : (k : Ticking) (current : ℕ) → Agrees k → Agrees (reevaluate k current)
unfolding reevaluate
reevaluate-Agrees k current h = ground arith

restart-Agrees : (k : Ticking) (current : ℕ) → Agrees k → Agrees (restart k current)
unfolding restart
restart-Agrees k current h = ground arith

Agrees-if : (b : Bool) (k l : Ticking) → Agrees k → Agrees l → Agrees (if b then k else l)
Agrees-if true k l h h' = h
Agrees-if false k l h h' = h'

reevaluate-last : (k : Ticking) (current : ℕ) → (reevaluate k current).last_period ≡ current
unfolding reevaluate
reevaluate-last k current = ground arith

ticker_for-Agrees : (period : ℕ) → Agrees (first_ticking period)
ticker_for-Agrees period = ground arith

module _ {W : Type 0} ⦃ota : HasReset W⦄ where
  -- A step that keeps the node running, with quiet actions.
  abbrev GoesOn : Node W × List Action → Type 0
  GoesOn (n, actions) = (n.nmt ≢ booting) × All IsQuiet actions

  send_reply-IsQuiet : (m : Machine W) (reply : Option FdFrame) → All IsQuiet (send_reply m reply).1
  unfolding send_reply
  send_reply-IsQuiet m none = tt
  send_reply-IsQuiet m (some frame) = elim (Bool-cases (take_reset m).0) [
    | inl asked ↦ rw asked (tt, (tt, tt))
    | inr kept ↦ rw kept (tt, tt)
  ]

  on_heartbeat-GoesOn : (n : Node W) (at : ℕ) → n.nmt ≢ booting → GoesOn (on_heartbeat n at)
  unfolding on_heartbeat
  on_heartbeat-GoesOn n at h =
      let same : (on_heartbeat n at).0.nmt ≡ n.nmt = ground arith in
      (
        (λ e. h (sym same ∙ e)),
        IsQuiet-if n.machine.state.tx_disabled [] _ tt
            ((refl, heartbeat_byte n.nmt, refl, running_byte n.nmt h), tt),
      )

  note_rx-nmt : (n : Node W) (at : ℕ) → (note_rx n at).nmt ≡ n.nmt
  unfolding note_rx
  note_rx-nmt n at = ground arith

  module _ (new_standard : ℕ → List ℕ → Option FdFrame) (crates : Crates) where
    send_completed-IsQuiet : (m : Machine W) → All IsQuiet (send_completed new_standard m).1
    unfolding send_completed
    send_completed-IsQuiet m = elim (Bool-cases m.state.response_pending) [
      | inl announced ↦
          let (bytes, len) = load_response m.globals in
          let written = optional_write (new_standard cob_id_physical_response (take len bytes)) in
          rw announced (IsQuiet-if (ltb 0 len) written [] (optional_write-IsQuiet _) tt)
      | inr none_announced ↦ rw none_announced tt
    ]

    on_rx-GoesOn :
        (n : Node W) (frame : FdFrame) (at now : ℕ)
        → n.nmt ≢ booting
        → IfSome (on_rx new_standard crates n frame at now) GoesOn
    unfolding on_rx
    on_rx-GoesOn n frame at now h =
        let heard : (note_rx n at).nmt ≢ booting = λ e. h (sym (note_rx-nmt n at) ∙ e) in
        elim (Bool-cases (standard_id frame.id == nmt_cob_id)) [
          | inl nmt ↦ rw nmt (on_nmt_frame-running (note_rx n at).nmt frame heard, tt)
          | inr other ↦ elim (Bool-cases (is_uds_frame frame)) [
            | inr ignored ↦ rw (other, ignored) (heard, tt)
            | inl uds ↦
                elim (Option-cases
                  (handle_rx_frame new_standard crates (note_rx n at).machine frame now)) [
                    | inl panics ↦ rw (other, uds, panics) tt
                    | inr ((m, reply), served) ↦
                        rw (other, uds, served) (heard, send_reply-IsQuiet m reply)
                  ]
          ]
        ]

    on_event-GoesOn :
        (n : Node W) (event : BusEvent) (now : ℕ)
        → n.nmt ≢ booting
        → IfSome (on_event new_standard crates n event now) GoesOn
    unfolding on_event
    on_event-GoesOn n (received frame at) now h = on_rx-GoesOn n frame at now h
    on_event-GoesOn n bus_error now h = (h, tt)
    on_event-GoesOn n (heartbeat_due at) now h = on_heartbeat-GoesOn n at h

    iterate-GoesOn :
        (n : Node W) (now : ℕ) (event : BusEvent)
        → n.nmt ≢ booting
        → IfSome (iterate new_standard crates n now event) GoesOn
    unfolding iterate
    iterate-GoesOn n now event h = elim (Option-cases (tick n.machine now)) [
      | inl panics ↦
          let stops : iterate new_standard crates n now event ≡ none = ground (arith, panics) in
          subst (λ o. IfSome o GoesOn) (sym stops) tt
      | inr (ticked, e) ↦
          let (m, sent) = send_completed new_standard ticked in
          let inner = on_event new_standard crates (record n { machine = m }) event now in
          let safe = on_event-GoesOn (record n { machine = m }) event now h in
          elim (Option-cases inner) [
            | inl panics ↦
                let stops : iterate new_standard crates n now event ≡ none =
                  ground (arith, e, panics) in
                subst (λ o. IfSome o GoesOn) (sym stops) tt
            | inr ((n', actions), went) ↦
                let goes : iterate new_standard crates n now event ≡ some (n', sent ++ actions) =
                  ground (arith, e, went) in
                let (running, quiet) : GoesOn (n', actions) =
                  subst (λ o. IfSome o GoesOn) went safe in
                subst (λ o. IfSome o GoesOn) (sym goes)
                  (running, All-append IsQuiet sent actions (send_completed-IsQuiet ticked) quiet)
          ]
    ]

    -- Between two turns: the node runs and its ticker agrees with the period read last.
    abbrev IsRunning : Task W → Type 0
    IsRunning t = (t.node.nmt ≢ booting) × Agrees t.ticking

    turn-IsRunning :
        (t : Task W) (x : Turn)
        → IsRunning t
        → IfSome (turn new_standard crates t x) (λ r. IsRunning r.0 × All IsQuiet r.1)
    unfolding turn
    turn-IsRunning t x (running, agrees) =
        IfSome->>= (iterate new_standard crates t.node x.now x.event) GoesOn _ _
          (iterate-GoesOn t.node x.now x.event running)
          (λ (node, actions) (running', quiet).
            let waiting = reevaluate t.ticking x.period in
            let agrees' : Agrees waiting = reevaluate-Agrees t.ticking x.period agrees in
            let beats = is_heartbeat x.event && not node.machine.state.tx_disabled in
            (
              (
                running',
                Agrees-if beats _ _ (restart-Agrees waiting x.period_after agrees') agrees',
              ),
              quiet,
            ))

    turns-IsRunning :
        (t : Task W) (xs : List Turn)
        → IsRunning t
        → IfSome (turns new_standard crates t xs) (λ r. IsRunning r.0 × All IsQuiet r.1)
    unfolding turns
    turns-IsRunning t [] h = (h, tt)
    turns-IsRunning t (x ∷ xs) h =
        IfSome->>= (turn new_standard crates t x) _ _ _ (turn-IsRunning t x h)
          (λ (t', actions) (h', quiet).
            IfSome->>= (turns new_standard crates t' xs) _ _ _ (turns-IsRunning t' xs h')
              (λ (t'', more) (h'', quiet'). (h'', All-append IsQuiet actions more quiet quiet')))

    -- In every run of the task that does not panic, over any events, times and periods: its first action
    -- is the boot-up frame, each later heartbeat is one byte on the node's identifier that is not the
    -- boot-up byte, and wherever the task then waits for a period p, its ticker has the period p, or there
    -- is none and p is 0.
    pub canopen_task-IsQuiet :
        (m : Machine W) (started initial_period : ℕ) (xs : List Turn) (p : ℕ)
        → IfSome (canopen_task new_standard crates m started initial_period xs) (λ (t, actions).
          ((rest : List Action) × (actions ≡ write_heartbeat (0x701, 0x00 ∷ []) ∷ rest)
            × All IsQuiet rest)
          × (((reevaluate t.ticking p).heartbeat ≡ some p)
              ⊎ (((reevaluate t.ticking p).heartbeat ≡ none) × (p ≡ 0))))
    unfolding canopen_task heartbeat_byte
    canopen_task-IsQuiet m started initial_period xs p =
        IfSome->>= (turns new_standard crates (first_task m started initial_period) xs) _ _ _
          (turns-IsRunning (first_task m started initial_period) xs
            ((λ e. cc), ticker_for-Agrees initial_period))
          (λ (t, rest) ((_, agrees), quiet). (
            (rest, refl, quiet),
            subst
                (λ q.
                  ((reevaluate t.ticking p).heartbeat ≡ some q)
                  ⊎ (((reevaluate t.ticking p).heartbeat ≡ none) × (q ≡ 0)))
                (reevaluate-last t.ticking p) (reevaluate-Agrees t.ticking p agrees),
          ))
