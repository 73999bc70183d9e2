-- ===== src/Uds/Handshake.antt =====
-- uds-core/src/table.rs: the two steps of SecurityAccess as a tester with the key takes them.
use rust_foc.Common.{
  ℕ, ◌+◌, ◌-◌, ◌==◌, ◌≡◌, Bool, true, false, [], ◌∷◌, none, some, leb, ltb, length, get_or, arith,
  refl,
}
use rust_foc.Uds.Config.{Crates, UdsConfig}
use rust_foc.Uds.Security.{
  dispatch_0x27, expected_key, generate_key, generate_seed, locked_out, parse_sa_subfunc,
  sa_request_seed, sa_send_key, sal_session_allowed, settle_key,
}
use rust_foc.Uds.State.{AesBlock, Globals, UdsState, store_response}
use rust_foc.Uds.Types.{security_as_u8, security_from_u8}

module _ {W : Type 0} (crates : Crates) (c : UdsConfig W) (s : UdsState) (g : Globals W) where
  -- A level that the session admits, outside a lock-out.
  pub record IsOpen (sal subfunc : ℕ) (asks_seed : Bool) : Type 0 where
    pub parsed : parse_sa_subfunc subfunc ≡ some (sal, asks_seed)
    pub admitted : sal_session_allowed sal s.session ≡ true
    pub not_locked_out : locked_out c s ≡ false

  pub dispatch_0x27-seed :
      (sal subfunc : ℕ) (seed : AesBlock) (g' : Globals W)
      → IsOpen sal subfunc true
      → leb sal (security_as_u8 s.security) ≡ false
      → generate_seed c g ≡ some (seed, g')
      → dispatch_0x27 crates c s g (0x27 ∷ subfunc ∷ [])
        ≡ some (
          record s { current_seed = seed; seed_sent = true },
          store_response ((subfunc + 0x40) ∷ subfunc ∷ seed) g',
        )
  unfolding dispatch_0x27 sa_request_seed
  dispatch_0x27-seed sal subfunc seed g' o above made =
      rw (o.not_locked_out, o.parsed, o.admitted, above, made) refl

  pub dispatch_0x27-key :
      (sal subfunc : ℕ)
      → let key = generate_key crates s.current_seed (get_or g.key_masks (sal - 1) []) in
        IsOpen sal subfunc false
        → s.seed_sent ≡ true
        → c.key_fn ≡ none
        → length key ≡ 16
        → dispatch_0x27 crates c s g (0x27 ∷ subfunc ∷ key)
          ≡ some (
            record s { seed_sent = false; security = security_from_u8 sal; sa_fail_count = 0 },
            store_response ((subfunc + 0x40) ∷ subfunc ∷ []) g,
          )
  unfolding dispatch_0x27 sa_send_key expected_key settle_key
  dispatch_0x27-key sal subfunc o sent no_fn size =
      let key = generate_key crates s.current_seed (get_or g.key_masks (sal - 1) []) in
      let fits : (length (0x27 ∷ subfunc ∷ key) == 18) ≡ true = ground (arith, size) in
      let long : ltb (length (0x27 ∷ subfunc ∷ key)) 2 ≡ false = ground (arith, size) in
      let equal = (crates.ct_eq_iff key key).1 refl in
      let second : ltb 1 (length (0x27 ∷ subfunc ∷ key)) ≡ true = ground (arith, size) in
      let last : ltb 17 (length (0x27 ∷ subfunc ∷ key)) ≡ true = ground (arith, size) in
      rw (o.not_locked_out, long, second, o.parsed, o.admitted, sent, fits, last, no_fn, equal) refl
