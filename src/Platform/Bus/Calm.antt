-- ===== src/Platform/Bus/Calm.antt =====
-- src/drivers/can/canopen.rs: what the parts of a turn of `canopen_task` leave of an engine between two
-- requests of an update.
use rust_foc.Common.{
  leb, not, ◌&&◌, ◌-◌, none, ℕ, Bool, true, false, List, [], ◌∷◌, Option, some, ◌≡◌, refl, ap, sym,
  ◌∙◌, Bool-cases, inl, inr,
}
use rust_foc.Can.Bridge.{FdFrame}
use rust_foc.Can.Reset.{resets}
use rust_foc.Can.Task.{
  can_timeout_ms, Node, note_rx, on_heartbeat, send_completed, send_reply, take_reset,
}
use rust_foc.Foc.Total.{Yields}
use rust_foc.Ota.Flag.{
  handle_request_download-reset_requested, handle_transfer_data-reset_requested,
}
use rust_foc.Ota.Flash.{FlashDevice}
use rust_foc.Ota.Handlers.{Ota, handle_request_download, handle_transfer_data, take_reset_request}
use rust_foc.Platform.Bus.{board_reset}
use rust_foc.Platform.Tables.{Board, uds_config}
use rust_foc.Platform.Updates.{
  dispatch_sid-queued, Request, block, download, handled, platform, request_bytes,
}
use rust_foc.Uds.Config.{Crates, Machine, security_allowed}
use rust_foc.Uds.Dispatch.{dispatch_sid}
use rust_foc.Uds.State.{DtcRecord}
use rust_foc.Uds.Pending.{tick}
use rust_foc.Uds.State.{Globals, store_response}
use rust_foc.Uds.Types.{idle, programming}

module _ {F R : Type 0} (dev : FlashDevice F) (random_word : R → Option (List ℕ) × R) where
  -- What a request does to the update module, without the engine.
  abbrev pub after : Request → Ota F → Ota F
  after (download b0 b1 b2 b3) o = (handle_request_download dev o (0x00 ∷ b0 ∷ b1 ∷ b2 ∷ b3 ∷ [])).0
  after (block seq a b) o = (handle_transfer_data dev o (seq ∷ a ∷ b ∷ [])).0

  -- The engine waits for a request of an update over this state of the module, and no reset is armed.
  pub record IsCalm (o : Ota F) (m : Machine (Board F R)) : Type 0 where
    pub config : m.config ≡ uds_config dev random_word
    pub free : m.state.state ≡ idle
    pub session : m.state.session ≡ programming
    pub unlocked : security_allowed m.state.security 1 ≡ true
    pub ota : m.globals.world.ota ≡ o
    pub kept : m.globals.reset_requested ≡ false
    pub unarmed : o.reset_requested ≡ false

  -- The next tick, at any time, leaves the engine calm.
  abbrev pub Settles : Ota F → Machine (Board F R) → Type 0
  Settles o m = (t : ℕ) → Yields (tick m t) (IsCalm o)

  pub IsCalm-Settles : (o : Ota F) (m : Machine (Board F R)) → IsCalm o m → Settles o m
  unfolding tick
  IsCalm-Settles o m calm t = (m, rw calm.free refl, calm)

  after-handled :
      (x : Request) (g : Globals (Board F R))
      → (handled dev random_word x g).world.ota ≡ after x g.world.ota
  unfolding store_response
  after-handled (download b0 b1 b2 b3) g = refl
  after-handled (block seq a b) g = refl

  handled-reset_requested :
      (x : Request) (g : Globals (Board F R))
      → (handled dev random_word x g).reset_requested ≡ g.reset_requested
  unfolding store_response
  handled-reset_requested (download b0 b1 b2 b3) g = refl
  handled-reset_requested (block seq a b) g = refl

  after-reset_requested :
      (x : Request) (o : Ota F) → (after x o).reset_requested ≡ o.reset_requested
  after-reset_requested (download b0 b1 b2 b3) o = handle_request_download-reset_requested dev o _
  after-reset_requested (block seq a b) o = handle_transfer_data-reset_requested dev o _

  pub dispatch_sid-Settles :
      (crates : Crates) (o : Ota F) (m : Machine (Board F R)) (x : Request) (now_ms : ℕ)
      → IsCalm o m
      → Yields
          (dispatch_sid crates m (request_bytes x) now_ms)
          (λ q. q.globals ≡ m.globals × Settles (after x o) q)
  dispatch_sid-Settles crates o m x now_ms calm =
      let (q, e, (globals, ticks)) =
        dispatch_sid-queued dev random_word crates m.state m.globals x now_ms calm.free calm.session
          calm.unlocked in
      let same : platform dev random_word m.state m.globals ≡ m =
        ap (λ c. record { config = c; state = m.state; globals = m.globals }) (sym calm.config) in
      (
        q,
        ap (λ k. dispatch_sid crates k (request_bytes x) now_ms) (sym same) ∙ e,
        (
          globals,
          λ t2.
              let (m', e', (globals', config, free, _, session, security)) = ticks t2 in
              (
                m',
                e',
                record {
                  config = config;
                  free = free;
                  session = session;
                  unlocked = ap (λ l. security_allowed l 1) security ∙ calm.unlocked;
                  ota =
                      ap (λ g. g.world.ota) globals'
                      ∙ after-handled x m.globals
                      ∙ ap (after x) calm.ota;
                  kept =
                      ap (λ g. g.reset_requested) globals'
                      ∙ handled-reset_requested x m.globals
                      ∙ calm.kept;
                  unarmed = after-reset_requested x o ∙ calm.unarmed;
                },
              ),
        ),
      )

  -- Where no reset is armed, a reply changes nothing and no reset follows it.
  pub send_reply-calm :
      (m : Machine (Board F R)) (reply : Option FdFrame)
      → m.globals.reset_requested ≡ false
      → m.globals.world.ota.reset_requested ≡ false
      → ((send_reply m reply).0 ≡ m) × (resets (send_reply m reply).1 ≡ false)
  unfolding send_reply take_reset take_reset_request
  send_reply-calm m none kept unarmed = (refl, refl)
  send_reply-calm m (some reply) kept unarmed =
      let rebuilt : Bool → Bool → Machine (Board F R) = λ a b. record m {
        globals = record m.globals {
          reset_requested = a;
          world = record m.globals.world {
            ota = record m.globals.world.ota { reset_requested = b };
          };
        };
      } in
      let taken : (send_reply m (some reply)).0 ≡ rebuilt false false = rw (kept, unarmed) refl in
      (
        taken
            ∙ ap (λ a. rebuilt a false) (sym kept)
            ∙ ap (λ b. rebuilt m.globals.reset_requested b) (sym unarmed),
        rw (kept, unarmed) refl,
      )

  abbrev with_dtcs : Machine (Board F R) → List (Option DtcRecord) → Machine (Board F R)
  with_dtcs m dtcs = record m { globals = record m.globals { dtcs = dtcs } }

  IsCalm-with_dtcs :
      (o : Ota F) (m : Machine (Board F R)) (dtcs : List (Option DtcRecord))
      → IsCalm o m
      → IsCalm o (with_dtcs m dtcs)
  IsCalm-with_dtcs o m dtcs calm = record {
    config = calm.config;
    free = calm.free;
    session = calm.session;
    unlocked = calm.unlocked;
    ota = calm.ota;
    kept = calm.kept;
    unarmed = calm.unarmed;
  }

  pub note_rx-IsCalm :
      (o : Ota F) (n : Node (Board F R)) (at : ℕ)
      → IsCalm o n.machine
      → IsCalm o (note_rx n at).machine
  unfolding note_rx
  note_rx-IsCalm o n at calm = elim (Bool-cases n.dtc_timeout_recorded) [
    | inl e ↦ rw e (IsCalm-with_dtcs o n.machine _ calm)
    | inr e ↦ rw e calm
  ]

  pub on_heartbeat-IsCalm :
      (o : Ota F) (n : Node (Board F R)) (at : ℕ)
      → IsCalm o n.machine
      → IsCalm o (on_heartbeat n at).0.machine
  unfolding on_heartbeat
  on_heartbeat-IsCalm o n at calm =
      elim (Bool-cases (leb can_timeout_ms (at - n.last_rx) && not n.dtc_timeout_recorded)) [
        | inl e ↦ rw e (IsCalm-with_dtcs o n.machine _ calm)
        | inr e ↦ rw e calm
      ]

  IsCalm-announced :
      (o : Ota F) (m : Machine (Board F R))
      → IsCalm o m
      → IsCalm o (record m { state = record m.state { response_pending = false } })
  IsCalm-announced o m calm = record {
    config = calm.config;
    free = calm.free;
    session = calm.session;
    unlocked = calm.unlocked;
    ota = calm.ota;
    kept = calm.kept;
    unarmed = calm.unarmed;
  }

  pub send_completed-IsCalm :
      (new_standard : ℕ → List ℕ → Option FdFrame) (o : Ota F) (m : Machine (Board F R))
      → IsCalm o m
      → IsCalm o (send_completed new_standard m).0
  unfolding send_completed
  send_completed-IsCalm new_standard o m calm = elim (Bool-cases m.state.response_pending) [
    | inl e ↦ rw e (IsCalm-announced o m calm)
    | inr e ↦ rw e (IsCalm-announced o m calm)
  ]
