-- ===== src/Platform/Upload.antt =====
-- src/uds: the transfer of a whole image through the engine, and what it leaves of the update module.
use rust_foc.Common.{
  ℕ, ◌+◌, ◌/◌, ◌%◌, ◌≡◌, true, List, [], ◌∷◌, Option, some, ◌>>=◌, length, wrapping_add8, ap, subst,
  sym, ◌∙◌, refl,
}
use rust_foc.Foc.Total.{Yields, Yields->>=}
use rust_foc.Ota.Flash.{FlashDevice}
use rust_foc.Ota.Handlers.{Ota, handle_request_download, handle_transfer_data}
use rust_foc.Ota.Image.{image_of, send_blocks}
use rust_foc.Platform.Tables.{Board, uds_config}
use rust_foc.Platform.Updates.{
  Request, block, dispatch_sid-handled, download, handled, platform, request_bytes,
}
use rust_foc.Uds.Config.{Crates, Machine, security_allowed}
use rust_foc.Uds.Dispatch.{dispatch_sid}
use rust_foc.Uds.Pending.{tick}
use rust_foc.Uds.State.{Globals, UdsState, store_response}
use rust_foc.Uds.Types.{idle, programming}

-- The client of an update, whatever the answers: each request is dispatched and a tick follows, at
-- the times of a clock.
module _ {W : Type 0} (crates : Crates) (clock : ℕ → ℕ) where
  abbrev pub exchange : Machine W → ℕ → Request → Option (Machine W)
  exchange m n x =
      dispatch_sid crates m (request_bytes x) (clock n) >>= λ m'. tick m' (clock (n + 1))

  abbrev pub exchange_blocks : Machine W → ℕ → ℕ → List (ℕ × ℕ) → Option (Machine W)
  exchange_blocks m n seq [] = some m
  exchange_blocks m n seq ((a, b) ∷ blocks) =
      exchange m n (block seq a b) >>= λ m'. exchange_blocks m' (n + 2) (wrapping_add8 seq 1) blocks

  abbrev pub upload : Machine W → List (ℕ × ℕ) → Option (Machine W)
  upload m blocks =
      let n = length (image_of blocks) in
      exchange m 0 (download (n % 256) (n / 256 % 256) (n / 65536 % 256) (n / 16777216 % 256))
      >>= λ m'. exchange_blocks m' 2 1 blocks

module _ {F R : Type 0} (dev : FlashDevice F) (random_word : R → Option (List ℕ) × R)
    (crates : Crates) (clock : ℕ → ℕ) where
  -- The engine is ready for a request of an update, over these statics.
  record IsReady (o : Ota F) (m : Machine (Board F R)) : Type 0 where
    config : m.config ≡ uds_config dev random_word
    free : m.state.state ≡ idle
    session : m.state.session ≡ programming
    unlocked : security_allowed m.state.security 1 ≡ true
    ota : m.globals.world.ota ≡ o

  -- What a handler leaves of the statics.
  abbrev ota_after : Request → Globals (Board F R) → Ota F
  ota_after x g = (handled dev random_word x g).world.ota

  exchange-IsReady :
      (o : Ota F) (m : Machine (Board F R)) (n : ℕ) (x : Request)
      → IsReady o m
      → Yields (exchange crates clock m n x) (IsReady (ota_after x m.globals))
  exchange-IsReady o m n x r =
      let (m', e, (globals, config, free, _, session, security)) =
        dispatch_sid-handled dev random_word crates m.state m.globals x (clock n) (clock (n + 1))
          r.free r.session r.unlocked in
      let same : platform dev random_word m.state m.globals ≡ m =
        ap (λ c. record { config = c; state = m.state; globals = m.globals }) (sym r.config) in
      (
        m',
        ap (λ k. exchange crates clock k n x) (sym same) ∙ e,
        record {
          config = config;
          free = free;
          session = session;
          unlocked = ap (λ l. security_allowed l 1) security ∙ r.unlocked;
          ota = ap (λ g. g.world.ota) globals;
        },
      )

  exchange_blocks-IsReady :
      (o : Ota F) (m : Machine (Board F R)) (n seq : ℕ) (blocks : List (ℕ × ℕ))
      → IsReady o m
      → Yields
          (exchange_blocks crates clock m n seq blocks)
          (IsReady (send_blocks dev o seq blocks))
  unfolding send_blocks store_response
  exchange_blocks-IsReady o m n seq [] r = (m, refl, r)
  exchange_blocks-IsReady o m n seq ((a, b) ∷ blocks) r =
      Yields->>= (exchange crates clock m n (block seq a b)) _ _ _
        (exchange-IsReady o m n (block seq a b) r)
        (λ m' r'.
          exchange_blocks-IsReady (handle_transfer_data dev o (seq ∷ a ∷ b ∷ [])).0 m' (n + 2)
            (wrapping_add8 seq 1) blocks
            (subst (λ k. IsReady k m')
              (ap (λ k. (handle_transfer_data dev k (seq ∷ a ∷ b ∷ [])).0) r.ota) r'))

  -- On the platform's own tables, with the engine idle in the programming session and unlocked: an
  -- image that is sent as a RequestDownload and one TransferData for each two bytes, each followed by
  -- a tick, at any times, leaves the update module exactly as the same calls of its handlers without
  -- the engine do; no request panics, and the engine is idle, in its session and unlocked again.
  pub upload-send_blocks :
      (s : UdsState) (g : Globals (Board F R)) (blocks : List (ℕ × ℕ))
      → s.state ≡ idle
      → s.session ≡ programming
      → security_allowed s.security 1 ≡ true
      → let n = length (image_of blocks) in
        let size = n % 256 ∷ n / 256 % 256 ∷ n / 65536 % 256 ∷ n / 16777216 % 256 ∷ [] in
        let started = (handle_request_download dev g.world.ota (0x00 ∷ size)).0 in
        Yields (upload crates clock (platform dev random_word s g) blocks) (λ m.
          (m.globals.world.ota ≡ send_blocks dev started 1 blocks)
          × (m.state.state ≡ idle)
          × (m.state.session ≡ programming)
          × (security_allowed m.state.security 1 ≡ true))
  unfolding store_response
  upload-send_blocks s g blocks free session unlocked =
      let n = length (image_of blocks) in
      let first = download (n % 256) (n / 256 % 256) (n / 65536 % 256) (n / 16777216 % 256) in
      let ready : IsReady g.world.ota (platform dev random_word s g) = record {
        config = refl;
        free = free;
        session = session;
        unlocked = unlocked;
        ota = refl;
      } in
      let (m, e, r) =
        Yields->>= (exchange crates clock (platform dev random_word s g) 0 first) _ _ _
          (exchange-IsReady g.world.ota (platform dev random_word s g) 0 first ready)
          (λ m' r'. exchange_blocks-IsReady (ota_after first g) m' 2 1 blocks r') in
      (m, e, (r.ota, r.free, r.session, r.unlocked))
