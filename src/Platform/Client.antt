-- ===== src/Platform/Client.antt =====
-- src/uds: a tester with the key of the first level, from a fresh engine to a transferred image.
use rust_foc.Common.{
  ℕ, ◌+◌, ◌/◌, ◌%◌, ◌<◌, ◌≡◌, true, false, List, [], ◌∷◌, Option, some, ◌>>=◌, length, drop, ap,
  sym, ◌∙◌, refl, arith,
}
use rust_foc.Foc.Total.{Yields, Yields->>=}
use rust_foc.Ota.Flash.{FlashDevice}
use rust_foc.Ota.Handlers.{Ota, handle_request_download}
use rust_foc.Ota.Image.{image_of, send_blocks}
use rust_foc.Platform.Handshake.{
  Level, first, handshake-unlocks, key_for, key_request, seed_request,
}
use rust_foc.Platform.Keys.Reload.{GivesWords}
use rust_foc.Platform.Tables.{Board, uds_config}
use rust_foc.Platform.Updates.{any_session, platform}
use rust_foc.Platform.Upload.{upload, upload-send_blocks}
use rust_foc.Uds.Config.{Crates, Machine, security_allowed}
use rust_foc.Uds.Dispatch.{dispatch_sid, route, serve}
use rust_foc.Uds.Security.{sal_session_allowed}
use rust_foc.Uds.Services.{dispatch_0x10, enter_session}
use rust_foc.Uds.State.{AesBlock, Globals, UdsState, response, store_response}
use rust_foc.Uds.Types.{
  default, idle, locked, programming, sal1, security_as_u8, session_from_u8, SecurityLevel, Session,
}

module _ {W : Type 0} (crates : Crates) (masks : List AesBlock) (clock : ℕ → ℕ) where
  -- Both requests of a level; the key is made from the seed that was answered.
  abbrev pub unlock : Machine W → Level → ℕ → Option (Machine W)
  unlock m l n = dispatch_sid crates m (seed_request l) (clock n) >>= λ m'.
      dispatch_sid crates m' (key_request l (key_for crates masks l (drop 2 (response m'.globals))))
        (clock (n + 1))

  -- The first level opens the programming session, which locks it again; there it is opened anew.
  abbrev pub update_session : Machine W → List (ℕ × ℕ) → Option (Machine W)
  update_session m blocks = unlock m first 0 >>= λ m1.
      dispatch_sid crates m1 (0x10 ∷ 0x02 ∷ []) (clock 2) >>= λ m2.
      unlock m2 first 3 >>= λ m3. upload crates (λ n. clock (n + 5)) m3 blocks

-- The engine is idle in a session at a level, with these masks and this update module.
module _ {F R : Type 0} (dev : FlashDevice F) (random_word : R → Option (List ℕ) × R) where
  record IsAt (masks : List AesBlock) (o : Ota F) (session : Session) (level : SecurityLevel)
      (m : Machine (Board F R)) : Type 0 where
    config : m.config ≡ uds_config dev random_word
    free : m.state.state ≡ idle
    in_session : m.state.session ≡ session
    at_level : m.state.security ≡ level
    no_failures : m.state.sa_fail_count ≡ 0
    key_masks : m.globals.key_masks ≡ masks
    ota : m.globals.world.ota ≡ o

  IsAt-platform :
      {masks : List AesBlock} {o : Ota F} {session : Session} {level : SecurityLevel}
      (m : Machine (Board F R))
      → IsAt masks o session level m
      → m ≡ platform dev random_word m.state m.globals
  IsAt-platform m h = ap (λ c. record { config = c; state = m.state; globals = m.globals }) h.config

  module _ (words : GivesWords random_word) (crates : Crates)
      (blocks : (key block : AesBlock) → length (crates.encrypt_block key block) ≡ 16)
      (masks : List AesBlock) (clock : ℕ → ℕ) (o : Ota F) where
    unlock-IsAt :
        (session : Session) (m : Machine (Board F R)) (n : ℕ)
        → sal_session_allowed 1 session ≡ true
        → IsAt masks o session locked m
        → Yields (unlock crates masks clock m first n) (IsAt masks o session sal1)
    unlock-IsAt session m n admitted h =
        let above : security_as_u8 m.state.security < 1 = rw h.at_level (omega arith) in
        let few : m.state.sa_fail_count < 3 = omega (arith, h.no_failures) in
        let (m', e, at) : Yields
            (unlock crates m.globals.key_masks clock (platform dev random_word m.state m.globals)
              first n)
            (IsAt masks o session sal1) =
          Yields->>=
            (dispatch_sid crates (platform dev random_word m.state m.globals) (seed_request first)
              (clock n))
            _ _ _
            (handshake-unlocks dev random_word words crates m.state m.globals first (clock n)
              (clock (n + 1)) blocks h.free (ap (sal_session_allowed 1) h.in_session ∙ admitted)
              above few)
            (λ m1 (_, (m2, e2, (level, cleared, same, _, free, config, ms, ota))). (
              m2,
              e2,
              record {
                config = config;
                free = free;
                in_session = same ∙ h.in_session;
                at_level = level;
                no_failures = cleared;
                key_masks = ms ∙ h.key_masks;
                ota = ota ∙ h.ota;
              },
            )) in
        (
          m',
          ap (λ ms. unlock crates ms clock m first n) (sym h.key_masks)
              ∙ (ap (λ k. unlock crates m.globals.key_masks clock k first n) (IsAt-platform m h)
                  ∙ e),
          at,
        )

    -- The state and the statics in the programming session.
    abbrev entered : UdsState → ℕ → UdsState
    entered s t = record s {
      request_tick_ms = t;
      request_len = 2;
      request_buf = 0x10 ∷ 0x02 ∷ drop 2 s.request_buf;
      session = programming;
      security = locked;
      seed_sent = false;
      sa_fail_count = 0;
    }

    enter-platform :
        (s : UdsState) (g : Globals (Board F R)) (t : ℕ)
        → s.state ≡ idle
        → s.security ≡ sal1
        → dispatch_sid crates (platform dev random_word s g) (0x10 ∷ 0x02 ∷ []) t
          ≡ some (platform dev random_word (entered s t) (store_response (0x50 ∷ 0x02 ∷ []) g))
    unfolding dispatch_sid serve route dispatch_0x10 enter_session session_from_u8 security_allowed
    enter-platform s g t free level = rw (free, level, any_session dev random_word s.session) refl

    enter-IsAt :
        (m : Machine (Board F R)) (t : ℕ)
        → IsAt masks o default sal1 m
        → Yields (dispatch_sid crates m (0x10 ∷ 0x02 ∷ []) t) (IsAt masks o programming locked)
    unfolding store_response
    enter-IsAt m t h = (
      platform dev random_word (entered m.state t) (store_response (0x50 ∷ 0x02 ∷ []) m.globals),
      ap (λ k. dispatch_sid crates k (0x10 ∷ 0x02 ∷ []) t) (IsAt-platform m h)
          ∙ enter-platform m.state m.globals t h.free h.at_level,
      record {
        config = refl;
        free = h.free;
        in_session = refl;
        at_level = refl;
        no_failures = refl;
        key_masks = h.key_masks;
        ota = h.ota;
      },
    )

    upload-IsAt :
        (m : Machine (Board F R)) (image : List (ℕ × ℕ))
        → IsAt masks o programming sal1 m
        → let n = length (image_of image) in
          let size = n % 256 ∷ n / 256 % 256 ∷ n / 65536 % 256 ∷ n / 16777216 % 256 ∷ [] in
          Yields (upload crates clock m image) (λ m'.
            m'.globals.world.ota
            ≡ send_blocks dev (handle_request_download dev o (0x00 ∷ size)).0 1 image)
    unfolding security_allowed
    upload-IsAt m image h =
        let n = length (image_of image) in
        let size = n % 256 ∷ n / 256 % 256 ∷ n / 65536 % 256 ∷ n / 16777216 % 256 ∷ [] in
        let (m', e, (left, _, _, _)) =
          upload-send_blocks dev random_word crates clock m.state m.globals image h.free
            h.in_session (ap (λ l. security_allowed l 1) h.at_level) in
        (
          m',
          ap (λ k. upload crates clock k image) (IsAt-platform m h) ∙ e,
          left
              ∙ ap (λ k. send_blocks dev (handle_request_download dev k (0x00 ∷ size)).0 1 image)
                  h.ota,
        )

  -- On the platform's own tables, with a generator of words of 32 bits, a cipher whose blocks have 16
  -- bytes, and an engine that is idle, locked and without failures in the default session: a tester
  -- who has the key masks, opens the first level, enters the programming session, opens the level
  -- again and sends an image, at any times, never meets a panic, and the update module then holds
  -- what the same transfer without the engine leaves.
  pub update_session-send_blocks :
      (crates : Crates) (s : UdsState) (g : Globals (Board F R)) (blocks : List (ℕ × ℕ))
      (clock : ℕ → ℕ)
      → GivesWords random_word
      → ((key block : AesBlock) → length (crates.encrypt_block key block) ≡ 16)
      → s.state ≡ idle
      → s.session ≡ default
      → s.security ≡ locked
      → s.sa_fail_count ≡ 0
      → let n = length (image_of blocks) in
        let size = n % 256 ∷ n / 256 % 256 ∷ n / 65536 % 256 ∷ n / 16777216 % 256 ∷ [] in
        let started = (handle_request_download dev g.world.ota (0x00 ∷ size)).0 in
        Yields
          (update_session crates g.key_masks clock (platform dev random_word s g) blocks)
          (λ m. m.globals.world.ota ≡ send_blocks dev started 1 blocks)
  unfolding sal_session_allowed
  update_session-send_blocks crates s g blocks clock words sized free session level none_failed =
      let o = g.world.ota in
      let start : IsAt g.key_masks o default locked (platform dev random_word s g) = record {
        config = refl;
        free = free;
        in_session = session;
        at_level = level;
        no_failures = none_failed;
        key_masks = refl;
        ota = refl;
      } in
      Yields->>= (unlock crates g.key_masks clock (platform dev random_word s g) first 0) _ _ _
        (unlock-IsAt words crates sized g.key_masks clock o default (platform dev random_word s g) 0
          refl start)
        (λ m1 at1.
          Yields->>= (dispatch_sid crates m1 (0x10 ∷ 0x02 ∷ []) (clock 2)) _ _ _
            (enter-IsAt words crates sized g.key_masks clock o m1 (clock 2) at1)
            (λ m2 at2.
              Yields->>= (unlock crates g.key_masks clock m2 first 3) _ _ _
                (unlock-IsAt words crates sized g.key_masks clock o programming m2 3 refl at2)
                (λ m3 at3.
                  upload-IsAt words crates sized g.key_masks (λ n. clock (n + 5)) o m3 blocks at3)))
