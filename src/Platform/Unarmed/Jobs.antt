-- ===== src/Platform/Unarmed/Jobs.antt =====
-- uds-core/src/pending.rs: what the platform's continuations, and the queue of them, leave of the flag
-- of the reset after an update.
use rust_foc.Common.{
  ℕ, Bool, true, false, All, List, [], ◌∷◌, Option, none, some, ◌≡◌, ◌∙◌, refl, arith, inl, inr,
  Option-cases, Bool-cases, subst, take, ap, sym, ◌&&◌, leb, ◌-◌,
}
use rust_foc.Can.Bridge.{List-cases}
use rust_foc.Ota.Flash.{FlashDevice}
use rust_foc.Ota.Handlers.{Ota}
use rust_foc.Platform.Tables.{Board, ota_job}
use rust_foc.Platform.Unarmed.Services.{tables}
use rust_foc.Uds.Config.{UdsConfig, Machine, PendingFn}
use rust_foc.Uds.Dispatch.{queue_job}
use rust_foc.Uds.Pending.{
  push_pending, tick, p2_timeout, p2_star_timeout, claim_slot, clear_queue, run_jobs, announce,
  is_pending, send_response_pending,
}
use rust_foc.Uds.State.{Globals, UdsState, store_response}
use rust_foc.Uds.Types.{Nrc, SrvState-cases}

-- The flag of the reset is not set.
abbrev pub IsUnarmed : {F R : Type 0} → Globals (Board F R) → Type 0
IsUnarmed g = g.world.ota.reset_requested ≡ false

module _ {F R : Type 0} where
  -- A continuation that does not set the flag.
  abbrev pub Keeps : Option (PendingFn (Board F R)) → Type 0
  Keeps none = Unit
  Keeps (some job) =
      (s s' : UdsState) (g g' : Globals (Board F R)) (complete : Bool)
      → job s g ≡ some (s', g', complete)
      → IsUnarmed g
      → IsUnarmed g'

  pub ota_job-Keeps :
      (dev : FlashDevice F) (random_word : R → Option (List ℕ) × R)
      (handler : Ota F → List ℕ → Ota F × List ℕ)
      → ((o : Ota F) (payload : List ℕ) → (handler o payload).0.reset_requested ≡ o.reset_requested)
      → Keeps (some (ota_job dev random_word handler))
  unfolding ota_job store_response
  ota_job-Keeps dev random_word handler same s s' g g' complete h unarmed =
      elim (List-cases (take s.request_len s.request_buf)) [
        | inl e ↦ absurd (ground arith)
        | inr (sid, payload, e) ↦ ground (arith, same g.world.ota payload)
      ]

  pub claim_slot-Keeps :
      (queue queue' : List (Option (PendingFn (Board F R)))) (job : PendingFn (Board F R))
      → claim_slot queue job ≡ some queue'
      → Keeps (some job)
      → All Keeps queue
      → All Keeps queue'
  unfolding claim_slot
  claim_slot-Keeps [] queue' job h k all = absurd (ground arith)
  claim_slot-Keeps (none ∷ slots) queue' job h k (_, all) =
      let e : some job ∷ slots ≡ queue' = ground arith in subst (All Keeps) e (k, all)
  claim_slot-Keeps (some other ∷ slots) queue' job h k (first, all) =
      elim (Option-cases (claim_slot slots job)) [
        | inl e ↦ absurd (ground arith)
        | inr (slots', e) ↦
            let same : some other ∷ slots' ≡ queue' = ground arith in
            subst (All Keeps) same (first, claim_slot-Keeps slots slots' job e k all)
      ]

  clear_queue-Keeps :
      (queue : List (Option (PendingFn (Board F R)))) → All Keeps (clear_queue queue)
  clear_queue-Keeps [] = tt
  clear_queue-Keeps (_ ∷ slots) = (tt, clear_queue-Keeps slots)

  run_jobs-Keeps :
      (queue queue' : List (Option (PendingFn (Board F R)))) (s s' : UdsState)
      (g g' : Globals (Board F R)) (any : Bool)
      → run_jobs queue s g ≡ some (queue', s', g', any)
      → All Keeps queue
      → IsUnarmed g
      → All Keeps queue' × IsUnarmed g'
  unfolding run_jobs
  run_jobs-Keeps [] queue' s s' g g' any h all unarmed =
      let e : [] ≡ queue' = ground arith in (subst (All Keeps) e tt, ground arith)
  run_jobs-Keeps (none ∷ slots) queue' s s' g g' any h (_, all) unarmed =
      elim (Option-cases (run_jobs slots s g)) [
        | inl e ↦ absurd (ground arith)
        | inr ((slots', s₁, g₁, any₁), e) ↦
            let (kept, after) = run_jobs-Keeps slots slots' s s₁ g g₁ any₁ e all unarmed in
            let same : none ∷ slots' ≡ queue' = ground arith in
            (subst (All Keeps) same (tt, kept), ground arith)
      ]
  run_jobs-Keeps (some job ∷ slots) queue' s s' g g' any h (first, all) unarmed =
      elim (Option-cases (job s g)) [
        | inl e ↦ absurd (ground arith)
        | inr ((s₁, g₁, true), e) ↦ elim (Option-cases (run_jobs slots s₁ g₁)) [
          | inl e' ↦ absurd (ground arith)
          | inr ((slots', s₂, g₂, any₂), e') ↦
              let (kept, after) =
                run_jobs-Keeps slots slots' s₁ s₂ g₁ g₂ any₂ e' all
                  (first s s₁ g g₁ true e unarmed) in
              let same : none ∷ slots' ≡ queue' = ground arith in
              (subst (All Keeps) same (tt, kept), ground arith)
        ]
        | inr ((s₁, g₁, false), e) ↦ elim (Option-cases (run_jobs slots s₁ g₁)) [
          | inl e' ↦ absurd (ground arith)
          | inr ((slots', s₂, g₂, any₂), e') ↦
              let (kept, after) =
                run_jobs-Keeps slots slots' s₁ s₂ g₁ g₂ any₂ e' all
                  (first s s₁ g g₁ false e unarmed) in
              let same : some job ∷ slots' ≡ queue' = ground arith in
              (subst (All Keeps) same (first, kept), ground arith)
        ]
      ]

  -- The tables of the platform, continuations that keep the flag, and the flag.
  pub record IsSafe (dev : FlashDevice F) (random_word : R → Option (List ℕ) × R)
      (m : Machine (Board F R)) : Type 0 where
    pub config : m.config ≡ tables dev random_word m.config.pending_queue
    pub jobs : All Keeps m.config.pending_queue
    pub unarmed : IsUnarmed m.globals

module _ {F R : Type 0} (dev : FlashDevice F) (random_word : R → Option (List ℕ) × R) where
  -- A machine with the same configuration and update module.
  pub IsSafe-same :
      (m m' : Machine (Board F R))
      → m'.config ≡ m.config
      → m'.globals.world.ota ≡ m.globals.world.ota
      → IsSafe dev random_word m
      → IsSafe dev random_word m'
  IsSafe-same m m' config ota safe = record {
    config = config ∙ safe.config ∙ ap (λ c. tables dev random_word c.pending_queue) (sym config);
    jobs = subst (λ c. All Keeps c.pending_queue) (sym config) safe.jobs;
    unarmed = ap (λ o. o.reset_requested) ota ∙ safe.unarmed;
  }

  -- A machine with another queue.
  requeued :
      (m m' : Machine (Board F R)) (queue : List (Option (PendingFn (Board F R))))
      → m'.config ≡ record m.config { pending_queue = queue }
      → IsUnarmed m'.globals
      → All Keeps queue
      → IsSafe dev random_word m
      → IsSafe dev random_word m'
  requeued m m' queue config unarmed kept safe = record {
    config =
        config
        ∙ ap {A = UdsConfig (Board F R)} (λ c. record c { pending_queue = queue }) safe.config
        ∙ ap (λ c. tables dev random_word c.pending_queue) (sym config);
    jobs = subst (λ c. All Keeps c.pending_queue) (sym config) kept;
    unarmed = unarmed;
  }

  p2_timeout-IsSafe :
      (m : Machine (Board F R)) (now_ms : ℕ)
      → IsSafe dev random_word m
      → IsSafe dev random_word (p2_timeout m now_ms)
  unfolding p2_timeout send_response_pending store_response
  p2_timeout-IsSafe m now_ms safe =
      IsSafe-same m (p2_timeout m now_ms) (ground arith) (ground arith) safe

  p2_star_timeout-IsSafe :
      (m : Machine (Board F R)) (now_ms : ℕ)
      → IsSafe dev random_word m
      → IsSafe dev random_word (p2_star_timeout m now_ms)
  unfolding p2_star_timeout store_response
  p2_star_timeout-IsSafe m now_ms safe =
      let unarmed : IsUnarmed (p2_star_timeout m now_ms).globals = ground (arith, safe.unarmed) in
      elim (Bool-cases (
        is_pending m.state.state
        && leb m.config.request_timeout_ms (now_ms - m.state.request_tick_ms))) [
          | inl late ↦
              requeued m (p2_star_timeout m now_ms) (clear_queue m.config.pending_queue)
                (ground arith) unarmed (clear_queue-Keeps m.config.pending_queue) safe
          | inr early ↦ IsSafe-same m (p2_star_timeout m now_ms) (ground arith) (ground arith) safe
        ]

  pub tick-IsSafe :
      (m m' : Machine (Board F R)) (now_ms : ℕ)
      → IsSafe dev random_word m
      → tick m now_ms ≡ some m'
      → IsSafe dev random_word m'
  unfolding tick
  tick-IsSafe m m' now_ms safe h = elim (SrvState-cases m.state.state) [
    | inl free ↦ IsSafe-same m m' (ground arith) (ground arith) safe
    | inr busy ↦ elim (Option-cases (run_jobs m.config.pending_queue m.state m.globals)) [
      | inl e ↦ absurd (ground arith)
      | inr ((queue, s, g, any), e) ↦
          let ran : Machine (Board F R) = record {
            config = record m.config { pending_queue = queue };
            state = announce queue any s;
            globals = g;
          } in
          let (kept, unarmed) =
            run_jobs-Keeps m.config.pending_queue queue m.state s m.globals g any e safe.jobs
              safe.unarmed in
          let same : p2_star_timeout (p2_timeout ran now_ms) now_ms ≡ m' = ground arith in
          subst (IsSafe dev random_word) same (
            p2_star_timeout-IsSafe (p2_timeout ran now_ms) now_ms
              (p2_timeout-IsSafe ran now_ms (requeued m ran queue refl unarmed kept safe)))
    ]
  ]

  pub queue_job-IsSafe :
      (m : Machine (Board F R)) (sid : ℕ) (missing : Nrc) (job : PendingFn (Board F R))
      → IsSafe dev random_word m
      → Keeps (some job)
      → IsSafe dev random_word (queue_job m sid missing (some job))
  unfolding queue_job push_pending store_response
  queue_job-IsSafe m sid missing job safe k =
      let after = queue_job m sid missing (some job) in
      elim (Option-cases (claim_slot m.config.pending_queue job)) [
        | inl e ↦ IsSafe-same m after (ground (arith, e)) (ground (arith, e)) safe
        | inr (queue, e) ↦
            requeued m after queue (ground (arith, e)) (ground (arith, e, safe.unarmed))
              (claim_slot-Keeps m.config.pending_queue queue job e k safe.jobs) safe
      ]
