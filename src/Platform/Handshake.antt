-- ===== src/Platform/Handshake.antt =====
-- src/uds/static_config.rs: SecurityAccess on the platform's own tables, from the seed to the level.
use rust_foc.Common.{
  ℕ, zero, suc, ◌+◌, ◌-◌, ◌*◌, ◌<◌, ◌≤◌, ◌≡◌, true, false, ltb, List, [], ◌∷◌, ◌++◌, Option, some,
  length, get_or, drop, arith, refl, ap, sym, ◌∙◌, Option-cases, inl, inr, length-append,
}
use rust_foc.Ota.Flash.{FlashDevice}
use rust_foc.Platform.Keys.Reload.{GivesWords}
use rust_foc.Platform.Tables.{Board, rng_seed, rng_words, uds_config}
use rust_foc.Platform.Updates.{platform, any_session, any_level}
use rust_foc.Uds.Config.{Crates, Machine}
use rust_foc.Uds.Dispatch.{dispatch_sid, serve, route, settled?}
use rust_foc.Uds.Handshake.{IsOpen, dispatch_0x27-seed, dispatch_0x27-key}
use rust_foc.Uds.Response.{response-store_response}
use rust_foc.Uds.Security.{
  dispatch_0x27, fallback_seed, fallback_seed_bytes, generate_seed, generate_key,
  sal_session_allowed, parse_sa_subfunc,
}
use rust_foc.Uds.State.{AesBlock, Globals, UdsState, response, store_response}
use rust_foc.Uds.Types.{SecurityLevel, security_as_u8, security_from_u8, idle}
use rust_foc.Foc.Total.{Yields}

-- The levels that a tester can ask for.
pub data Level : Type 0 where
  first second third : Level

abbrev pub number : Level → ℕ
number first = 1
number second = 2
number third = 3

abbrev pub security_of : Level → SecurityLevel
security_of l = security_from_u8 (number l)

-- The requests: the odd sub-function asks for the seed, the next one sends the key.
abbrev pub seed_request : Level → List ℕ
seed_request l = 0x27 ∷ (number l * 2 - 1) ∷ []

abbrev pub key_request : Level → AesBlock → List ℕ
key_request l key = 0x27 ∷ (number l * 2) ∷ key

-- The key that a tester with the masks makes of a seed.
abbrev pub key_for : Crates → List AesBlock → Level → AesBlock → AesBlock
key_for crates masks l seed = crates.encrypt_block (get_or masks (number l - 1) []) seed

parsed_seed : (l : Level) → parse_sa_subfunc (number l * 2 - 1) ≡ some (number l, true)
unfolding parse_sa_subfunc
parsed_seed first = refl
parsed_seed second = refl
parsed_seed third = refl

parsed_key : (l : Level) → parse_sa_subfunc (number l * 2) ≡ some (number l, false)
unfolding parse_sa_subfunc
parsed_key first = refl
parsed_key second = refl
parsed_key third = refl

-- The state in which the service sees a request.
abbrev kept : UdsState → List ℕ → ℕ → UdsState
kept s request t = record s {
  request_tick_ms = t;
  request_len = length request;
  request_buf = request ++ drop (length request) s.request_buf;
}

module _ {F R : Type 0} (dev : FlashDevice F) (random_word : R → Option (List ℕ) × R)
    (words : GivesWords random_word) where
  length-rng_words :
      (n : ℕ) (r : R) (bytes : List ℕ)
      → (rng_words dev random_word n r).0 ≡ some bytes
      → length bytes ≡ n * 4
  unfolding rng_words
  length-rng_words zero r bytes h = ground (arith, h)
  length-rng_words (suc n) r bytes h = elim (Option-cases (random_word r).0) [
    | inl none_came ↦ absurd (ground (arith, none_came, h))
    | inr (w, came) ↦ elim (Option-cases (rng_words dev random_word n (random_word r).1).0) [
      | inl no_more ↦ absurd (ground (arith, came, no_more, h))
      | inr (more, rest) ↦
          let joined : bytes ≡ w ++ more = ground (arith, came, rest, h) in
          let size = length-rng_words n (random_word r).1 more rest in
          omega (arith, ap length joined, length-append w more, size, words r w came)
    ]
  ]

  -- The platform makes a seed of 16 bytes, and leaves the key masks and the update module alone.
  seed_made :
      (g : Globals (Board F R))
      → Yields
          (generate_seed (uds_config dev random_word) g)
          (λ x. (length x.0 ≡ 16) × (x.1.key_masks ≡ g.key_masks) × (x.1.world.ota ≡ g.world.ota))
  unfolding generate_seed rng_seed fallback_seed fallback_seed_bytes
  seed_made g =
      let drawn = rng_words dev random_word 4 g.world.rng in
      let g' : Globals (Board F R) = record g { world = record g.world { rng = drawn.1 } } in
      elim (Option-cases drawn.0) [
        | inl late ↦ (fallback_seed g', ground (arith, late), (refl, refl, refl))
        | inr (bytes, came) ↦ (
          (bytes, g'),
          ground (arith, came),
          (length-rng_words 4 g.world.rng bytes came, refl, refl),
        )
      ]

  -- An idle engine hands a request of the service to it.
  dispatch_sid-security :
      (crates : Crates) (s : UdsState) (g : Globals (Board F R)) (rest : List ℕ) (t : ℕ)
      → s.state ≡ idle
      → length rest ≤ 63
      → dispatch_sid crates (platform dev random_word s g) (0x27 ∷ rest) t
        ≡ settled? (platform dev random_word (kept s (0x27 ∷ rest) t) g) (
            dispatch_0x27 crates
              (uds_config dev random_word)
              (kept s (0x27 ∷ rest) t)
              g
              (0x27 ∷ rest))
  unfolding dispatch_sid serve route
  dispatch_sid-security crates s g rest t free short =
      let fits : ltb 64 (length (0x27 ∷ rest)) ≡ false = ground arith in
      rw (free, any_session dev random_word s.session, any_level dev random_word s.security, fits)
        refl

  -- What the accepted key leaves.
  abbrev pub Unlocked : UdsState → Globals (Board F R) → Level → Machine (Board F R) → Type 0
  Unlocked s g l m =
      (m.state.security ≡ security_of l)
      × (m.state.sa_fail_count ≡ 0)
      × (m.state.session ≡ s.session)
      × (response m.globals ≡ (number l * 2 + 0x40) ∷ (number l * 2) ∷ [])
      × (m.state.state ≡ idle)
      × (m.config ≡ uds_config dev random_word)
      × (m.globals.key_masks ≡ g.key_masks)
      × (m.globals.world.ota ≡ g.world.ota)

  key_accepted :
      (crates : Crates) (s : UdsState) (g : Globals (Board F R)) (l : Level) (t : ℕ)
      → ((key block : AesBlock) → length (crates.encrypt_block key block) ≡ 16)
      → s.state ≡ idle
      → sal_session_allowed (number l) s.session ≡ true
      → s.sa_fail_count < 3
      → s.seed_sent ≡ true
      → Yields
          (dispatch_sid crates
            (platform dev random_word s g)
            (key_request l (key_for crates g.key_masks l s.current_seed))
            t)
          (Unlocked s g l)
  unfolding generate_key store_response
  key_accepted crates s g l t blocks free admitted few sent =
      let key = key_for crates g.key_masks l s.current_seed in
      let n16 : length key ≡ 16 = blocks (get_or g.key_masks (number l - 1) []) s.current_seed in
      let s1 = kept s (key_request l key) t in
      let open_ : IsOpen crates (uds_config dev random_word) s1 g (number l) (number l * 2) false =
        record { parsed = parsed_key l; admitted = admitted; not_locked_out = ground arith } in
      let e =
        dispatch_sid-security crates s g ((number l * 2) ∷ key) t free (omega (arith, n16))
        ∙ ap (settled? (platform dev random_word s1 g)) (
            dispatch_0x27-key crates (uds_config dev random_word) s1 g (number l) (number l * 2)
              open_ sent refl n16) in
      (
        _,
        e,
        (
          refl,
          refl,
          refl,
          response-store_response ((number l * 2 + 0x40) ∷ (number l * 2) ∷ []) g (omega arith),
          free,
          refl,
          refl,
          refl,
        ),
      )

  pub handshake-unlocks :
      (crates : Crates) (s : UdsState) (g : Globals (Board F R)) (l : Level) (t1 t2 : ℕ)
      → ((key block : AesBlock) → length (crates.encrypt_block key block) ≡ 16)
      → s.state ≡ idle
      → sal_session_allowed (number l) s.session ≡ true
      → security_as_u8 s.security < number l
      → s.sa_fail_count < 3
      → Yields (dispatch_sid crates (platform dev random_word s g) (seed_request l) t1) (λ m.
        let seed = drop 2 (response m.globals) in
        (length seed ≡ 16)
        × Yields
            (dispatch_sid crates m (key_request l (key_for crates g.key_masks l seed)) t2)
            (Unlocked s g l))
  unfolding store_response
  handshake-unlocks crates s g l t1 t2 blocks free admitted above few =
      let s1 = kept s (seed_request l) t1 in
      let ((seed, g1), made, (n16, masks, ota)) = seed_made g in
      let s2 = record s1 { current_seed = seed; seed_sent = true } in
      let g2 = store_response ((number l * 2 - 1 + 0x40) ∷ (number l * 2 - 1) ∷ seed) g1 in
      let open_ : IsOpen crates (uds_config dev random_word) s1 g (number l) (number l * 2 - 1)
          true =
        record { parsed = parsed_seed l; admitted = admitted; not_locked_out = ground arith } in
      let e1 =
        dispatch_sid-security crates s g ((number l * 2 - 1) ∷ []) t1 free (omega arith)
        ∙ ap (settled? (platform dev random_word s1 g)) (
            dispatch_0x27-seed crates (uds_config dev random_word) s1 g (number l)
              (number l * 2 - 1) seed g1 open_ (ground arith) made) in
      let dropped : drop 2 (response g2) ≡ seed = ap (drop 2) (
        response-store_response ((number l * 2 - 1 + 0x40) ∷ (number l * 2 - 1) ∷ seed) g1
          (omega (arith, n16))) in
      let (m', e2, (level, cleared, session, answer, free', config, masks', ota')) =
        key_accepted crates s2 g2 l t2 blocks free admitted few refl in
      let run = λ (ms : List AesBlock) (x : AesBlock).
        dispatch_sid crates (platform dev random_word s2 g2) (key_request l (key_for crates ms l x))
          t2 in
      (
        platform dev random_word s2 g2,
        e1,
        (
          ap length dropped ∙ n16,
          (
            m',
            ap (run g.key_masks) dropped ∙ (ap (λ ms. run ms seed) (sym masks) ∙ e2),
            (level, cleared, session, answer, free', config, masks' ∙ masks, ota' ∙ ota),
          ),
        ),
      )
