-- ===== src/Uds/Histories.antt =====
-- uds-core: what holds after any history of requests and ticks from power-up.
use rust_foc.Uds.Tick.{tick-QueueInv}
use rust_foc.Uds.State.{zeroed, Globals}
use rust_foc.Uds.Pending.{p2_star_timeout, p2_timeout, tick, push_pending}
use rust_foc.Uds.Dispatch.{stamp, keep_request, queue_job}
use rust_foc.Uds.Requests.{tick_at, request, Event, run, step}
use rust_foc.Uds.Config.{Crates, UdsConfig, Machine}
use rust_foc.Uds.Effect.{
  dispatch_sid-Outcome, Effect, quiet, entered, secured, queued, ignored, declined, served,
}
use rust_foc.Uds.Queue.{dispatch_sid-QueueInv, no_jobs, QueueInv, PlatformKeeps, resting}
use rust_foc.Common.{Option-cases, sym, subst, List, ℕ, ◌≡◌, ◌∷◌, [], refl, arith, inl, inr, some}

module _ {W : Type 0} where
  -- All of a configuration but the queue.
  abbrev SameTables : UdsConfig W → UdsConfig W → Type 0
  SameTables c c' = c' ≡ record c { pending_queue = c'.pending_queue }

  SameTables-PlatformKeeps :
      {c c' : UdsConfig W} → SameTables c c' → PlatformKeeps c → PlatformKeeps c'
  SameTables-PlatformKeeps {c} {c'} e k =
      let moved : PlatformKeeps (record c { pending_queue = c'.pending_queue }) = record {
        download = k.download;
        transfer = k.transfer;
        exit = k.exit;
      } in
      subst PlatformKeeps (sym e) moved

  Effect-SameTables :
      (crates : Crates) (m : Machine W) (req : List ℕ) {m' : Machine W}
      → Effect crates m req m'
      → SameTables m.config m'.config
  unfolding queue_job push_pending
  Effect-SameTables crates m req (quiet same fails st c) = ground arith
  Effect-SameTables crates m req (entered new st c) = ground arith
  Effect-SameTables crates m req (secured r e n) = ground arith
  Effect-SameTables crates m req (queued sid missing f w n) = ground arith

  step-SameTables :
      (crates : Crates) (m : Machine W) (e : Event) {m' : Machine W}
      → step crates m e ≡ some m'
      → SameTables m.config m'.config
  unfolding step tick p2_timeout p2_star_timeout
  step-SameTables crates m (request bytes now_ms) h =
      elim (dispatch_sid-Outcome crates m bytes now_ms h) [
        | ignored e ↦ ground arith
        | declined st c ↦ ground arith
        | served i eff ↦ Effect-SameTables crates (keep_request (stamp m now_ms) bytes) bytes eff
      ]
  step-SameTables crates m (tick_at now_ms) h = ground arith

  -- What holds between two events.
  pub record Inv (m : Machine W) : Type 0 where
    pub platform : PlatformKeeps m.config
    pub queue : QueueInv m

  step-Inv :
      (crates : Crates) (m : Machine W) (e : Event) {m' : Machine W}
      → Inv m
      → step crates m e ≡ some m'
      → Inv m'
  unfolding step
  step-Inv crates m (request bytes now_ms) v h = record {
    platform =
        SameTables-PlatformKeeps (step-SameTables crates m (request bytes now_ms) h) v.platform;
    queue = dispatch_sid-QueueInv crates m bytes now_ms v.platform v.queue h;
  }
  step-Inv crates m (tick_at now_ms) v h = record {
    platform = SameTables-PlatformKeeps (step-SameTables crates m (tick_at now_ms) h) v.platform;
    queue = tick-QueueInv m now_ms v.queue h;
  }

  run-Inv :
      (crates : Crates) (m : Machine W) (es : List Event) {m' : Machine W}
      → Inv m
      → run crates m es ≡ some m'
      → Inv m'
  unfolding run
  run-Inv crates m [] v h = let e : m ≡ _ = ground arith in subst Inv e v
  run-Inv crates m (e ∷ es) v h = elim (Option-cases (step crates m e)) [
    | inl stuck ↦ absurd (ground arith)
    | inr (m₁, done) ↦ run-Inv crates m₁ es (step-Inv crates m e v done) (ground arith)
  ]

  -- After any history of requests and ticks from power-up, with an empty queue and continuations that
  -- leave the engine's state word alone, the engine is idle with an empty queue or pending with
  -- exactly one job.
  pub run-QueueInv :
      (crates : Crates) (c : UdsConfig W) (g : Globals W) (es : List Event) {m' : Machine W}
      → PlatformKeeps c
      → c.pending_queue ≡ no_jobs
      → run crates (record { config = c; state = zeroed; globals = g }) es ≡ some m'
      → QueueInv m'
  run-QueueInv crates c g es k q h =
      (run-Inv crates (record { config = c; state = zeroed; globals = g }) es
        (record { platform = k; queue = resting refl q }) h).queue
