-- ===== src/Platform/Unarmed/Runs.antt =====
-- uds-core, src/uds/static_config.rs: histories of requests and ticks on the platform's own tables, and
-- the flag of the reset after an update.
use rust_foc.Common.{
  ℕ, false, List, [], ◌∷◌, Option, some, ◌≡◌, refl, arith, inl, inr, Option-cases, Bool-cases,
  subst, length, ltb,
}
use rust_foc.Foc.Total.{IfSome, IfSome-intro}
use rust_foc.Ota.Flash.{FlashDevice}
use rust_foc.Platform.Tables.{Board}
use rust_foc.Platform.Updates.{platform}
use rust_foc.Platform.Unarmed.Jobs.{IsSafe-same, tick-IsSafe}
use rust_foc.Platform.Unarmed.Route.{Safe, route-IsSafe, keep_request-IsSafe}
use rust_foc.Uds.Config.{Crates, Machine, ServiceEntry, security_allowed, session_allowed}
use rust_foc.Uds.Dispatch.{dispatch_sid, find_service, serve, stamp}
use rust_foc.Uds.Requests.{Event, request, run, step, tick_at}
use rust_foc.Uds.State.{Globals, UdsState, store_response}
use rust_foc.Uds.Types.{SrvState-cases}

module _ {F R : Type 0} (dev : FlashDevice F) (random_word : R → Option (List ℕ) × R) where
  serve-IsSafe :
      (crates : Crates) (m : Machine (Board F R)) (sid : ℕ) (rest : List ℕ) (e : ServiceEntry)
      {m' : Machine (Board F R)}
      → serve crates m (sid ∷ rest) e ≡ some m'
      → Safe dev random_word m
      → Safe dev random_word m'
  unfolding serve store_response
  serve-IsSafe crates m sid rest e {m' = m'} h safe =
      elim (Bool-cases (session_allowed m.state.session e.session_access)) [
        | inr off ↦ IsSafe-same dev random_word m m' (ground arith) (ground arith) safe
        | inl on ↦ elim (Bool-cases (security_allowed m.state.security e.security_level)) [
          | inr off ↦ IsSafe-same dev random_word m m' (ground arith) (ground arith) safe
          | inl ok ↦ elim (Bool-cases (ltb 64 (length (sid ∷ rest)))) [
            | inl long ↦ absurd (ground arith)
            | inr fits ↦
                route-IsSafe dev random_word crates m sid rest e.handler (ground arith)
                  (keep_request-IsSafe dev random_word m (sid ∷ rest) safe)
          ]
        ]
      ]

  dispatch_sid-IsSafe :
      (crates : Crates) (m : Machine (Board F R)) (req : List ℕ) (now_ms : ℕ)
      {m' : Machine (Board F R)}
      → dispatch_sid crates m req now_ms ≡ some m'
      → Safe dev random_word m
      → Safe dev random_word m'
  unfolding dispatch_sid store_response
  dispatch_sid-IsSafe crates m [] now_ms {m' = m'} h safe =
      IsSafe-same dev random_word m m' (ground arith) (ground arith) safe
  dispatch_sid-IsSafe crates m (sid ∷ rest) now_ms {m' = m'} h safe =
      elim (SrvState-cases m.state.state) [
        | inr busy ↦ IsSafe-same dev random_word m m' (ground arith) (ground arith) safe
        | inl free ↦ elim (Option-cases (find_service m sid)) [
          | inl e ↦ IsSafe-same dev random_word m m' (ground arith) (ground arith) safe
          | inr (entry, e) ↦
              serve-IsSafe crates (stamp m now_ms) sid rest entry (ground arith)
                (IsSafe-same dev random_word m (stamp m now_ms) refl refl safe)
        ]
      ]

  step-IsSafe :
      (crates : Crates) (m : Machine (Board F R)) (e : Event) {m' : Machine (Board F R)}
      → step crates m e ≡ some m'
      → Safe dev random_word m
      → Safe dev random_word m'
  unfolding step
  step-IsSafe crates m (request bytes now_ms) h safe =
      dispatch_sid-IsSafe crates m bytes now_ms h safe
  step-IsSafe crates m (tick_at now_ms) {m' = m'} h safe =
      tick-IsSafe dev random_word m m' now_ms safe h

  run-IsSafe :
      (crates : Crates) (m : Machine (Board F R)) (es : List Event) {m' : Machine (Board F R)}
      → run crates m es ≡ some m'
      → Safe dev random_word m
      → Safe dev random_word m'
  unfolding run
  run-IsSafe crates m [] h safe =
      let e : m ≡ _ = ground arith in subst (Safe dev random_word) e safe
  run-IsSafe crates m (e ∷ es) h safe = elim (Option-cases (step crates m e)) [
    | inl stuck ↦ absurd (ground arith)
    | inr (m₁, done) ↦ run-IsSafe crates m₁ es (ground arith) (step-IsSafe crates m e done safe)
  ]

  -- On the platform's own tables, with an empty queue and the reset after an update not armed: no
  -- history of requests and ticks, whatever the state of the engine, its security level and the
  -- times, arms that reset, as long as nothing panics.
  pub run-unarmed :
      (crates : Crates) (s : UdsState) (g : Globals (Board F R)) (es : List Event)
      → g.world.ota.reset_requested ≡ false
      → IfSome
          (run crates (platform dev random_word s g) es)
          (λ m. m.globals.world.ota.reset_requested ≡ false)
  run-unarmed crates s g es unarmed =
      let start : Safe dev random_word (platform dev random_word s g) = record {
        config = refl;
        jobs = (tt, (tt, (tt, (tt, tt))));
        unarmed = unarmed;
      } in
      IfSome-intro (run crates (platform dev random_word s g) es) _
        (λ m e. (run-IsSafe crates (platform dev random_word s g) es e start).unarmed)
