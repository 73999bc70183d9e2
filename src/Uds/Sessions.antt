-- ===== src/Uds/Sessions.antt =====
-- uds-core/src/table.rs: who may change the session, and the lockout of SecurityAccess.
use rust_foc.Uds.Frames.{dispatch_0x27_frame, dispatch_0x27_fails}
use rust_foc.Uds.Security.{locked_out}
use rust_foc.Uds.Pending.{push_pending}
use rust_foc.Uds.State.{UdsState}
use rust_foc.Uds.Dispatch.{stamp, keep_request, dispatch_sid, queue_job}
use rust_foc.Uds.Config.{Machine, Crates, UdsConfig}
use rust_foc.Uds.Effect.{
  Entered, dispatch_sid-Outcome, Effect, quiet, entered, secured, queued, ignored, declined, served,
}
use rust_foc.Common.{◌+◌, ◌≢◌, ◌≤◌, ◌<◌, List, ◌⊎◌, ℕ, ◌≡◌, arith, inl, some, false}

-- The failures after a request: as many as before, none, or one more where the client was not
-- locked out.
abbrev pub Counted : {W : Type 0} → UdsConfig W → UdsState → UdsState → Type 0
Counted c s s' =
    (s'.sa_fail_count ≡ s.sa_fail_count)
    ⊎ (s'.sa_fail_count ≡ 0)
    ⊎ ((locked_out c s ≡ false) × (s'.sa_fail_count ≤ s.sa_fail_count + 1))

module _ {W : Type 0} (crates : Crates) where
  Effect-session_change :
      (m : Machine W) (req : List ℕ) {m' : Machine W}
      → Effect crates m req m'
      → m'.state.session ≢ m.state.session
      → Entered m.state m'.state
  unfolding queue_job push_pending
  Effect-session_change m req (quiet same fails st c) change = absurd (ground arith)
  Effect-session_change m req (entered new st c) change = new
  Effect-session_change m req (secured r e n) change =
      absurd (ground (arith, dispatch_0x27_frame crates m.config m.state m.globals req e))
  Effect-session_change m req (queued sid missing f w n) change = absurd (ground arith)

  -- A request that changes the session locks the security level, forgets the outstanding seed and
  -- clears the failures; and the Programming or Extended session is entered only from an unlocked
  -- level.
  pub dispatch_sid-session_change :
      (m : Machine W) (request : List ℕ) (now_ms : ℕ) {m' : Machine W}
      → dispatch_sid crates m request now_ms ≡ some m'
      → m'.state.session ≢ m.state.session
      → Entered m.state m'.state
  dispatch_sid-session_change m request now_ms h change =
      elim (dispatch_sid-Outcome crates m request now_ms h) [
        | ignored e ↦ absurd (ground arith)
        | declined st c ↦ absurd (ground arith)
        | served i eff ↦
            Effect-session_change (keep_request (stamp m now_ms) request) request eff change
      ]

  Effect-Counted :
      (m : Machine W) (req : List ℕ) {m' : Machine W}
      → Effect crates m req m'
      → Counted m.config m.state m'.state
  unfolding queue_job push_pending
  Effect-Counted m req (quiet same fails st c) = ground arith
  Effect-Counted m req (entered new st c) = ground arith
  Effect-Counted m req (secured r e n) =
      ground (arith, dispatch_0x27_fails crates m.config m.state m.globals req e)
  Effect-Counted m req (queued sid missing f w n) = ground arith

  dispatch_sid-Counted :
      (m : Machine W) (request : List ℕ) (now_ms : ℕ) {m' : Machine W}
      → dispatch_sid crates m request now_ms ≡ some m'
      → Counted m.config m.state m'.state
  dispatch_sid-Counted m request now_ms h = elim (dispatch_sid-Outcome crates m request now_ms h) [
    | ignored e ↦ inl (ground arith)
    | declined st c ↦ inl (ground arith)
    | served i eff ↦ Effect-Counted (keep_request (stamp m now_ms) request) request eff
  ]

  -- Where the configuration bounds the attempts, no request brings the count of failed SendKeys
  -- above the bound; and a client that is locked out stays so, unless its failures are cleared
  -- altogether.
  pub dispatch_sid-attempts_bounded :
      (m : Machine W) (request : List ℕ) (now_ms : ℕ) {m' : Machine W}
      → 0 < m.config.sa_max_attempts
      → m.state.sa_fail_count ≤ m.config.sa_max_attempts
      → dispatch_sid crates m request now_ms ≡ some m'
      → (m'.state.sa_fail_count ≤ m.config.sa_max_attempts)
        × ((m.state.sa_fail_count < m.config.sa_max_attempts)
            ⊎ (m'.state.sa_fail_count ≡ m.config.sa_max_attempts)
            ⊎ (m'.state.sa_fail_count ≡ 0))
  dispatch_sid-attempts_bounded m request now_ms pos le h =
      ground (arith, dispatch_sid-Counted m request now_ms h)
