-- ===== src/Uds/Queue.antt =====
-- uds-core/src/pending.rs and table.rs: the life of a queued job. The engine is idle exactly while
-- the queue is empty, and holds one job while it is pending.
use rust_foc.Uds.Frames.{dispatch_0x27_frame}
use rust_foc.Uds.Types.{Nrc, pending, idle}
use rust_foc.Uds.State.{Globals, UdsState}
use rust_foc.Uds.Pending.{
  announce, p2_timeout, p2_star_timeout, claim_slot, push_pending, run_jobs, tick,
}
use rust_foc.Uds.Dispatch.{stamp, keep_request, dispatch_sid, queue_job}
use rust_foc.Uds.Config.{Machine, UdsConfig, Crates, PendingFn}
use rust_foc.Uds.Effect.{
  dispatch_sid-Outcome, Effect, quiet, entered, secured, queued, ignored, declined, served,
}
use rust_foc.Common.{
  Option-cases, if◌then◌else◌, Bool, ◌∙◌, ◌⊎◌, Option, List, ℕ, ◌≡◌, ◌∷◌, [], arith, inl, inr, some,
  none, true, false,
}

module _ {W : Type 0} where
  -- The continuation leaves the engine's own state word to `tick`.
  abbrev pub KeepsState : PendingFn W → Type 0
  KeepsState f =
      (s : UdsState) (g : Globals W) (s' : UdsState) (g' : Globals W) (complete : Bool)
      → f s g ≡ some (s', g', complete)
      → s'.state ≡ s.state

  abbrev pub KeepsState? : Option (PendingFn W) → Type 0
  KeepsState? none = Unit
  KeepsState? (some f) = KeepsState f

  -- So do all three continuations of the platform.
  pub record PlatformKeeps (c : UdsConfig W) : Type 0 where
    pub download : KeepsState? c.request_download_fn
    pub transfer : KeepsState? c.transfer_data_fn
    pub exit : KeepsState? c.transfer_exit_fn

  abbrev pub no_jobs : List (Option (PendingFn W))
  no_jobs = none ∷ none ∷ none ∷ none ∷ []

  abbrev pub one_job : PendingFn W → List (Option (PendingFn W))
  one_job f = some f ∷ none ∷ none ∷ none ∷ []

  -- Idle with an empty queue, or pending with one job, in the first slot.
  pub data QueueInv (m : Machine W) : Type 0 where
    resting : m.state.state ≡ idle → m.config.pending_queue ≡ no_jobs → QueueInv m
    working :
        (f : PendingFn W)
        → KeepsState f
        → m.state.state ≡ pending
        → m.config.pending_queue ≡ one_job f
        → QueueInv m

  queue_job-QueueInv :
      (m : Machine W) (sid : ℕ) (missing : Nrc) (f : Option (PendingFn W))
      → KeepsState? f
      → m.state.state ≡ idle
      → m.config.pending_queue ≡ no_jobs
      → QueueInv (queue_job m sid missing f)
  unfolding queue_job push_pending claim_slot
  queue_job-QueueInv m sid missing none k i q = resting i q
  queue_job-QueueInv m sid missing (some f) k i q =
      working f k (rw (q, claim_slot)) (rw (q, claim_slot))

  one_of_three :
      (c : UdsConfig W) (f : Option (PendingFn W))
      → PlatformKeeps c
      → (f ≡ c.request_download_fn) ⊎ (f ≡ c.transfer_data_fn) ⊎ (f ≡ c.transfer_exit_fn)
      → KeepsState? f
  one_of_three c f k (inl e) = rw e k.download
  one_of_three c f k (inr (inl e)) = rw e k.transfer
  one_of_three c f k (inr (inr e)) = rw e k.exit

  Effect-QueueInv :
      (crates : Crates) (m : Machine W) (req : List ℕ) {m' : Machine W}
      → PlatformKeeps m.config
      → m.state.state ≡ idle
      → m.config.pending_queue ≡ no_jobs
      → Effect crates m req m'
      → QueueInv m'
  Effect-QueueInv crates m req k i q (quiet same fails st c) = resting (st ∙ i) (rw c q)
  Effect-QueueInv crates m req k i q (entered new st c) = resting (st ∙ i) (rw c q)
  Effect-QueueInv crates m req k i q (secured r e n) =
      let (_, st) = dispatch_0x27_frame crates m.config m.state m.globals req e in
      resting (rw n (st ∙ i)) (rw n q)
  Effect-QueueInv crates m req k i q (queued sid missing f w n) =
      rw n (queue_job-QueueInv m sid missing f (one_of_three m.config f k w) i q)

  -- No request that is processed without a panic breaks the invariant of the queue, where the
  -- platform's continuations leave the state word alone.
  pub dispatch_sid-QueueInv :
      (crates : Crates) (m : Machine W) (request : List ℕ) (now_ms : ℕ) {m' : Machine W}
      → PlatformKeeps m.config
      → QueueInv m
      → dispatch_sid crates m request now_ms ≡ some m'
      → QueueInv m'
  dispatch_sid-QueueInv crates m request now_ms k v h =
      elim (dispatch_sid-Outcome crates m request now_ms h) [
        | ignored e ↦ rw e v
        | declined st c ↦ elim v [
          | resting i q ↦ resting (rw st i) (rw c q)
          | working f kf p q ↦ working f kf (rw st p) (rw c q)
        ]
        | served i eff ↦ elim v [
          | resting _ q ↦
              Effect-QueueInv crates (keep_request (stamp m now_ms) request) request k i q eff
          | working f kf p q ↦ absurd (ground arith)
        ]
      ]

  -- What a tick makes of the machine with one job, when the job returns.
  tick_one :
      (m : Machine W) (now_ms : ℕ) (f : PendingFn W) {m' : Machine W}
      → m.state.state ≡ pending
      → m.config.pending_queue ≡ one_job f
      → tick m now_ms ≡ some m'
      → (s : UdsState) × (g : Globals W) × (complete : Bool) × (f m.state m.globals
          ≡ some (s, g, complete))
        × (m'
            ≡ p2_star_timeout
                (p2_timeout
                  (record {
                    config = record m.config {
                      pending_queue = (if complete then none else some f) ∷ none ∷ none ∷ none ∷ [];
                    };
                    state =
                        announce
                          ((if complete then none else some f) ∷ none ∷ none ∷ none ∷ [])
                          complete
                          s;
                    globals = g;
                  })
                  now_ms)
                now_ms)
  unfolding tick run_jobs
  tick_one m now_ms f p q h = elim (Option-cases (f m.state m.globals)) [
    | inl e ↦ absurd (ground arith)
    | inr ((s, g, true), e) ↦ (s, g, true, e, ground arith)
    | inr ((s, g, false), e) ↦ (s, g, false, e, ground arith)
  ]
