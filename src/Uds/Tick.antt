-- ===== src/Uds/Tick.antt =====
-- uds-core/src/pending.rs: what a tick does to the one job that the queue can hold, and to a request
-- that takes too long.
use rust_foc.Uds.Types.{idle, pending}
use rust_foc.Uds.State.{Globals, UdsState}
use rust_foc.Uds.Config.{PendingFn, Machine}
use rust_foc.Uds.Pending.{announce, run_jobs, p2_timeout, tick, p2_star_timeout}
use rust_foc.Uds.Queue.{no_jobs, one_job, KeepsState, QueueInv, resting, working}
use rust_foc.Common.{
  ◌-◌, leb, ◌∙◌, Option-cases, Bool-cases, subst, ◌≤◌, ◌<◌, ℕ, ◌≡◌, refl, arith, inl, inr, some,
  true, false,
}

module _ {W : Type 0} where
  -- A tick in which the job completes ends the operation: the queue is empty, the engine idle, the
  -- response announced, and the globals are those that the job left.
  pub tick_completes :
      (m : Machine W) (now_ms : ℕ) (f : PendingFn W) {s : UdsState} {g : Globals W}
      → m.state.state ≡ pending
      → m.config.pending_queue ≡ one_job f
      → f m.state m.globals ≡ some (s, g, true)
      → tick m now_ms
        ≡ some (record {
          config = record m.config { pending_queue = no_jobs };
          state = record s { response_pending = true; state = idle };
          globals = g;
        })
  unfolding tick run_jobs announce p2_timeout p2_star_timeout
  tick_completes m now_ms f p q e = ground arith

  -- Where P2 is at most P2* and P2* is not zero, the P2* timeout never fires: the P2 timeout has just
  -- put the time of the request forward.
  p2_star_dead :
      (m : Machine W) (now_ms : ℕ)
      → 0 < m.config.request_timeout_ms
      → m.config.p2_server_ms ≤ m.config.request_timeout_ms
      → p2_star_timeout (p2_timeout m now_ms) now_ms ≡ p2_timeout m now_ms
  unfolding p2_star_timeout p2_timeout
  p2_star_dead m now_ms pos le = ground arith

  -- With a positive P2* that is at least P2, after any tick in which the one pending job, which leaves
  -- the state word alone, returns without completing, whatever the time, the engine is still pending
  -- with the same job and announces nothing that the job did not announce.
  pub tick_never_gives_up :
      (m : Machine W) (now_ms : ℕ) (f : PendingFn W) {s : UdsState} {g : Globals W} {m' : Machine W}
      → 0 < m.config.request_timeout_ms
      → m.config.p2_server_ms ≤ m.config.request_timeout_ms
      → KeepsState f
      → m.state.state ≡ pending
      → m.config.pending_queue ≡ one_job f
      → f m.state m.globals ≡ some (s, g, false)
      → tick m now_ms ≡ some m'
      → (m'.state.state ≡ pending)
        × (m'.config.pending_queue ≡ one_job f)
        × (m'.state.response_pending ≡ s.response_pending)
  unfolding tick run_jobs announce p2_timeout
  tick_never_gives_up m now_ms f {s} {g} pos le k p q e h =
      let kept = k m.state m.globals s g false e in
      let waiting : Machine W = record {
        config = record m.config { pending_queue = one_job f };
        state = s;
        globals = g;
      } in
      ground (arith, p2_star_dead waiting now_ms pos le)

  p2_timeout-job :
      (w : Machine W) (now_ms : ℕ) (f : PendingFn W)
      → w.state.state ≡ pending
      → w.config.pending_queue ≡ one_job f
      → ((p2_timeout w now_ms).state.state ≡ pending)
        × ((p2_timeout w now_ms).config.pending_queue ≡ one_job f)
  unfolding p2_timeout
  p2_timeout-job w now_ms f p q = ground arith

  p2_star_timeout-QueueInv :
      (w : Machine W) (now_ms : ℕ) (f : PendingFn W)
      → KeepsState f
      → w.state.state ≡ pending
      → w.config.pending_queue ≡ one_job f
      → QueueInv (p2_star_timeout w now_ms)
  unfolding p2_star_timeout
  p2_star_timeout-QueueInv w now_ms f k p q =
      elim (Bool-cases (leb w.config.request_timeout_ms (now_ms - w.state.request_tick_ms))) [
        | inl over ↦ resting (ground arith) (ground arith)
        | inr wait ↦ working f k (ground arith) (ground arith)
      ]

  -- A tick keeps the invariant of the queue, whatever the timers are and whether the job completes or
  -- not.
  pub tick-QueueInv :
      (m : Machine W) (now_ms : ℕ) {m' : Machine W}
      → QueueInv m
      → tick m now_ms ≡ some m'
      → QueueInv m'
  unfolding tick run_jobs announce
  tick-QueueInv m now_ms {m' = m'} (resting i q) h =
      let e : m ≡ m' = ground arith in subst QueueInv e (resting i q)
  tick-QueueInv m now_ms {m' = m'} (working f k p q) h = elim (Option-cases (f m.state m.globals)) [
    | inl e ↦ absurd (ground arith)
    | inr ((s, g, true), e) ↦
        let done = tick_completes m now_ms f p q e in resting (ground arith) (ground arith)
    | inr ((s, g, false), e) ↦
        let waiting : Machine W = record {
          config = record m.config { pending_queue = one_job f };
          state = s;
          globals = g;
        } in
        let (p', q') = p2_timeout-job waiting now_ms f (k m.state m.globals s g false e ∙ p) refl in
        let left : p2_star_timeout (p2_timeout waiting now_ms) now_ms ≡ m' = ground arith in
        subst QueueInv left (p2_star_timeout-QueueInv (p2_timeout waiting now_ms) now_ms f k p' q')
  ]
