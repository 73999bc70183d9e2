-- ===== src/Uds/Access.antt =====
-- uds-core/src/table.rs: who may raise the security level, and who may change the session.
use rust_foc.Uds.Pending.{push_pending}
use rust_foc.Common.{
  ℕ, ◌<◌, true, false, List, some, ◌≡◌, inl, inr, arith, get_or, length, drop, Option-cases,
  Bool-cases,
}
use rust_foc.Uds.Types.{security_as_u8, security_from_u8}
use rust_foc.Uds.State.{AesBlock, UdsState, Globals}
use rust_foc.Uds.Effect.{
  Effect, dispatch_sid-Outcome, quiet, entered, secured, queued, ignored, declined, served,
}
use rust_foc.Uds.Config.{Crates, UdsConfig, Machine}
use rust_foc.Uds.Security.{
  parse_sa_subfunc, sal_session_allowed, expected_key, settle_key, sa_send_key, sa_request_seed,
  dispatch_0x27, locked_out,
}
use rust_foc.Uds.Dispatch.{queue_job, keep_request, dispatch_sid, stamp}

module _ {W : Type 0} (crates : Crates) where
  -- The request is a SendKey of 18 bytes for a level that the session admits, in answer to a seed
  -- that was sent, with no lockout; its key is the one derived from that seed and the level's key
  -- material; and the level becomes the one asked for.
  abbrev pub Unlocks : UdsConfig W → UdsState → Globals W → List ℕ → UdsState → Type 0
  Unlocks c s g req s' =
      (sal : ℕ) × (expected : AesBlock) × (g' : Globals W) × (parse_sa_subfunc (get_or req 1 0)
        ≡ some (sal, false))
      × (s.seed_sent ≡ true)
      × (locked_out c s ≡ false)
      × (length req ≡ 18)
      × (sal_session_allowed sal s.session ≡ true)
      × (expected_key crates c s g sal ≡ some (expected, g'))
      × (drop 2 req ≡ expected)
      × (s'.security ≡ security_from_u8 sal)

  sa_send_key_effect :
      (c : UdsConfig W) (s : UdsState) (g : Globals W) (sal sub : ℕ) (req : List ℕ)
      {r : UdsState × Globals W}
      → sa_send_key crates c s g sal sub req ≡ some r
      → security_as_u8 s.security < security_as_u8 r.0.security
      → (expected : AesBlock) × (g' : Globals W) × (s.seed_sent ≡ true)
        × (length req ≡ 18)
        × (expected_key crates c s g sal ≡ some (expected, g'))
        × (drop 2 req ≡ expected)
        × (r.0.security ≡ security_from_u8 sal)
  unfolding sa_send_key settle_key
  sa_send_key_effect c s g sal sub req h up = elim (Option-cases (expected_key crates c s g sal)) [
    | inl e ↦ absurd (ground arith)
    | inr ((k, g'), e) ↦ elim (Bool-cases (crates.ct_eq (drop 2 req) k)) [
      | inl same ↦ (
        k,
        g',
        ground arith,
        ground arith,
        e,
        (crates.ct_eq_iff (drop 2 req) k).0 same,
        ground arith,
      )
      | inr other ↦ absurd (ground arith)
    ]
  ]

  dispatch_0x27_effect :
      (c : UdsConfig W) (s : UdsState) (g : Globals W) (req : List ℕ) {r : UdsState × Globals W}
      → dispatch_0x27 crates c s g req ≡ some r
      → security_as_u8 s.security < security_as_u8 r.0.security
      → Unlocks c s g req r.0
  unfolding dispatch_0x27 sa_request_seed
  dispatch_0x27_effect c s g req {r} h up =
      elim (Option-cases (parse_sa_subfunc (get_or req 1 0))) [
        | inl e ↦ absurd (ground arith)
        | inr ((sal, true), e) ↦ absurd (ground arith)
        | inr ((sal, false), e) ↦
            let sent : sa_send_key crates c s g sal (get_or req 1 0) req ≡ some r = ground arith in
            let (k, g', a, b, d, same, lvl) =
              sa_send_key_effect c s g sal (get_or req 1 0) req sent up in
            (sal, k, g', e, a, ground arith, b, ground arith, d, same, lvl)
      ]

  Effect-security_raise :
      (m : Machine W) (req : List ℕ) {m' : Machine W}
      → Effect crates m req m'
      → security_as_u8 m.state.security < security_as_u8 m'.state.security
      → Unlocks m.config m.state m.globals req m'.state
  unfolding queue_job push_pending
  Effect-security_raise m req (quiet same fails st c) up = absurd (ground arith)
  Effect-security_raise m req (entered new st c) up = absurd (ground arith)
  Effect-security_raise m req (secured r e n) up =
      rw n (dispatch_0x27_effect m.config m.state m.globals req e (rw n at up))
  Effect-security_raise m req (queued sid missing f w n) up = absurd (ground arith)

  -- A request that raises the security level is a SendKey that unlocks the level.
  pub dispatch_sid-security_raise :
      (m : Machine W) (request : List ℕ) (now_ms : ℕ) {m' : Machine W}
      → dispatch_sid crates m request now_ms ≡ some m'
      → security_as_u8 m.state.security < security_as_u8 m'.state.security
      → Unlocks m.config m.state m.globals request m'.state
  unfolding expected_key
  dispatch_sid-security_raise m request now_ms h up =
      elim (dispatch_sid-Outcome crates m request now_ms h) [
        | ignored e ↦ absurd (ground arith)
        | declined st c ↦ absurd (ground arith)
        | served i eff ↦
            Effect-security_raise (keep_request (stamp m now_ms) request) request eff up
      ]
