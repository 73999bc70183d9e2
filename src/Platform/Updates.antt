-- ===== src/Platform/Updates.antt =====
-- src/uds: a request of the update services through the engine, its queue and a tick.

use rust_foc.Uds.Pending.{
  p2_star_timeout, p2_timeout, announce, claim_slot, push_pending, run_jobs, tick,
}
use rust_foc.Uds.Config.{security_allowed, Crates, session_allowed, Machine}
use rust_foc.Platform.Tables.{ota_job, ota_transfer_data, ota_request_download, uds_config, Board}
use rust_foc.Ota.Handlers.{handle_transfer_data, handle_request_download, Ota}
use rust_foc.Uds.State.{store_response, Globals, UdsState}
use rust_foc.Uds.Dispatch.{dispatch_0x36, dispatch_0x34, route, serve, dispatch_sid}
use rust_foc.Ota.Flash.{FlashDevice}
use rust_foc.Common.{ap, ◌∙◌, arith, ℕ, ◌≡◌, refl, true, List, [], ◌∷◌, Option, ◌>>=◌}
use rust_foc.Uds.Types.{default, extended, Session, SecurityLevel, programming, idle}
use rust_foc.Foc.Total.{Yields}

-- What the services 0x34 and 0x36 let through to their handlers.
pub data Request : Type 0 where
  download : ℕ → ℕ → ℕ → ℕ → Request
  block : ℕ → ℕ → ℕ → Request

abbrev pub request_bytes : Request → List ℕ
request_bytes (download b0 b1 b2 b3) = 0x34 ∷ 0x00 ∷ b0 ∷ b1 ∷ b2 ∷ b3 ∷ []
request_bytes (block seq b0 b1) = 0x36 ∷ seq ∷ b0 ∷ b1 ∷ []

module _ {F R : Type 0} (dev : FlashDevice F) (random_word : R → Option (List ℕ) × R) where
  -- The platform between two requests.
  abbrev pub platform : UdsState → Globals (Board F R) → Machine (Board F R)
  platform s g = record { config = uds_config dev random_word; state = s; globals = g }

  -- What a handler of the updates leaves, called without the engine.
  abbrev pub called :
      (Ota F → List ℕ → Ota F × List ℕ) → Globals (Board F R) → List ℕ → Globals (Board F R)
  called handler g payload =
      let (o, reply) = handler g.world.ota payload in
      store_response reply (record g { world = record g.world { ota = o } })

  abbrev pub handled : Request → Globals (Board F R) → Globals (Board F R)
  handled (download b0 b1 b2 b3) g =
      called (handle_request_download dev) g (0x00 ∷ b0 ∷ b1 ∷ b2 ∷ b3 ∷ [])
  handled (block seq b0 b1) g = called (handle_transfer_data dev) g (seq ∷ b0 ∷ b1 ∷ [])

  -- What a tick leaves of a request.
  abbrev pub Answered : Request → UdsState → Globals (Board F R) → Machine (Board F R) → Type 0
  Answered x s g m =
      m.globals ≡ handled x g
      × m.config ≡ uds_config dev random_word
      × m.state.state ≡ idle
      × m.state.response_pending ≡ true
      × m.state.session ≡ programming
      × m.state.security ≡ s.security

  -- A request of an update is queued, with the statics kept, and any tick then runs its handler.
  pub dispatch_sid-queued :
      (crates : Crates) (s : UdsState) (g : Globals (Board F R)) (x : Request) (t1 : ℕ)
      → s.state ≡ idle
      → s.session ≡ programming
      → security_allowed s.security 1 ≡ true
      → Yields
          (dispatch_sid crates (platform s g) (request_bytes x) t1)
          (λ q. q.globals ≡ g × ((t2 : ℕ) → Yields (tick q t2) (Answered x s g)))
  unfolding dispatch_sid serve route dispatch_0x34 dispatch_0x36 tick run_jobs push_pending
      claim_slot announce p2_timeout p2_star_timeout session_allowed ota_request_download
      ota_transfer_data ota_job
  dispatch_sid-queued crates s g (download b0 b1 b2 b3) t1 free session unlocked =
      rw (free, session, unlocked)
        (_, refl, (refl, λ t2. (_, refl, (refl, refl, refl, refl, refl, refl))))
  dispatch_sid-queued crates s g (block seq b0 b1) t1 free session unlocked =
      rw (free, session, unlocked)
        (_, refl, (refl, λ t2. (_, refl, (refl, refl, refl, refl, refl, refl))))

  -- On the platform's own tables, with the engine idle in the programming session and unlocked: a
  -- request of RequestDownload or of TransferData, followed by a tick, leaves what its handler,
  -- called directly with the payload, leaves, the response included; the queue is empty again, the
  -- engine is idle and the response is announced, the session and the level stay. The times of both
  -- are any.
  pub dispatch_sid-handled :
      (crates : Crates) (s : UdsState) (g : Globals (Board F R)) (x : Request) (t1 t2 : ℕ)
      → s.state ≡ idle
      → s.session ≡ programming
      → security_allowed s.security 1 ≡ true
      → Yields (dispatch_sid crates (platform s g) (request_bytes x) t1 >>= λ m. tick m t2) (λ m.
        m.globals ≡ handled x g
        × m.config ≡ uds_config dev random_word
        × m.state.state ≡ idle
        × m.state.response_pending ≡ true
        × m.state.session ≡ programming
        × m.state.security ≡ s.security)
  dispatch_sid-handled crates s g x t1 t2 free session unlocked =
      let (q, e, (_, ticks)) = dispatch_sid-queued crates s g x t1 free session unlocked in
      let (m, e', answered) = ticks t2 in (m, ap (λ o. o >>= λ k. tick k t2) e ∙ e', answered)

  pub any_session : (x : Session) → session_allowed x 7 ≡ true
  unfolding session_allowed
  any_session default = refl
  any_session programming = refl
  any_session extended = refl

  pub any_level : (x : SecurityLevel) → security_allowed x 0 ≡ true
  unfolding security_allowed
  any_level x = ground arith
