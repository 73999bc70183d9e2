-- ===== src/Uds/Frames.antt =====
-- uds-core/src/table.rs: what each service leaves alone in `UdsState`.
use rust_foc.Uds.Security.{locked_out, settle_key, sa_send_key, sa_request_seed, dispatch_0x27}
use rust_foc.Common.{◌+◌, ℕ, false, List, some, ◌≡◌, ◌⊎◌, arith, ◌≤◌}
use rust_foc.Uds.Types.{locked, default, security_as_u8}
use rust_foc.Uds.State.{UdsState, Globals}
use rust_foc.Uds.Config.{Crates, UdsConfig, Machine, RoutineSub}
use rust_foc.Uds.Services.{
  dispatch_0x3e, dispatch_0x10, dispatch_0x11, dispatch_0x22, dispatch_0x2e, dispatch_0x28,
  dispatch_0x31, read_entry, write_entry, routine_entry, enter_session,
}
use rust_foc.Uds.Dispatch.{dispatch_0x34, dispatch_0x36, dispatch_0x37}
use rust_foc.Uds.Pending.{push_pending}

-- The access state of a client: its session, its level and its outstanding seed.
abbrev pub SameAccess : UdsState → UdsState → Type 0
SameAccess s s' =
    (s'.session ≡ s.session)
    × (s'.security ≡ s.security)
    × (s'.seed_sent ≡ s.seed_sent)
    × (s'.current_seed ≡ s.current_seed)

module _ {W : Type 0} where
  pub dispatch_0x22_frame :
      (c : UdsConfig W) (s : UdsState) (g : Globals W) (req : List ℕ) {r : UdsState × Globals W}
      → dispatch_0x22 c s g req ≡ some r
      → r.0 ≡ s
  unfolding dispatch_0x22 read_entry
  dispatch_0x22_frame c s g req h = ground arith

  pub dispatch_0x2e_frame :
      (c : UdsConfig W) (s : UdsState) (g : Globals W) (req : List ℕ) {r : UdsState × Globals W}
      → dispatch_0x2e c s g req ≡ some r
      → r.0 ≡ s
  unfolding dispatch_0x2e write_entry
  dispatch_0x2e_frame c s g req h = ground arith

  pub dispatch_0x31_frame :
      (c : UdsConfig W) (s : UdsState) (g : Globals W) (req : List ℕ) (sub : RoutineSub)
      {r : UdsState × Globals W}
      → dispatch_0x31 c s g req sub ≡ some r
      → r.0 ≡ s
  unfolding dispatch_0x31 routine_entry
  dispatch_0x31_frame c s g req sub h = ground arith

  pub dispatch_0x28_frame :
      (s : UdsState) (g : Globals W) (req : List ℕ) {r : UdsState × Globals W}
      → dispatch_0x28 s g req ≡ some r
      → let s' = r.0 in
        SameAccess s s' × (s'.sa_fail_count ≡ s.sa_fail_count) × (s'.state ≡ s.state)
  unfolding dispatch_0x28
  dispatch_0x28_frame s g req h = ground arith

  pub dispatch_0x3e_frame :
      (s : UdsState) (g : Globals W) (req : List ℕ) {r : UdsState × Globals W}
      → dispatch_0x3e s g req ≡ some r
      → r.0 ≡ s
  unfolding dispatch_0x3e
  dispatch_0x3e_frame s g req h = ground arith

  pub dispatch_0x11_frame :
      (s : UdsState) (g : Globals W) (req : List ℕ) {r : UdsState × Globals W}
      → dispatch_0x11 s g req ≡ some r
      → let s' = r.0 in
        SameAccess s s'
        × ((s'.sa_fail_count ≡ s.sa_fail_count) ⊎ (s'.sa_fail_count ≡ 0))
        × (s'.state ≡ s.state)
  unfolding dispatch_0x11
  dispatch_0x11_frame s g req h = ground arith

  -- 0x10 leaves the state alone, or enters a session with its security locked, no seed and no
  -- failures; a session other than the default one was entered from an unlocked level.
  pub dispatch_0x10_effect :
      (c : UdsConfig W) (s : UdsState) (g : Globals W) (req : List ℕ) {r : UdsState × Globals W}
      → dispatch_0x10 c s g req ≡ some r
      → (r.0 ≡ s)
        ⊎ ((r.0.security ≡ locked)
            × (r.0.seed_sent ≡ false)
            × (r.0.sa_fail_count ≡ 0)
            × (r.0.state ≡ s.state)
            × ((r.0.session ≡ default) ⊎ (1 ≤ security_as_u8 s.security)))
  unfolding dispatch_0x10 enter_session
  dispatch_0x10_effect c s g req h = ground arith

  pub dispatch_0x34_frame :
      (m : Machine W)
      → SameAccess m.state (dispatch_0x34 m).state
        × ((dispatch_0x34 m).state.sa_fail_count ≡ m.state.sa_fail_count)
  unfolding dispatch_0x34 push_pending
  dispatch_0x34_frame m = ground arith

  pub dispatch_0x36_frame :
      (m : Machine W)
      → SameAccess m.state (dispatch_0x36 m).state
        × ((dispatch_0x36 m).state.sa_fail_count ≡ m.state.sa_fail_count)
  unfolding dispatch_0x36 push_pending
  dispatch_0x36_frame m = ground arith

  pub dispatch_0x37_frame :
      (m : Machine W)
      → SameAccess m.state (dispatch_0x37 m).state
        × ((dispatch_0x37 m).state.sa_fail_count ≡ m.state.sa_fail_count)
  unfolding dispatch_0x37 push_pending
  dispatch_0x37_frame m = ground arith

  pub dispatch_0x27_frame :
      (crates : Crates) (c : UdsConfig W) (s : UdsState) (g : Globals W) (req : List ℕ)
      {r : UdsState × Globals W}
      → dispatch_0x27 crates c s g req ≡ some r
      → (r.0.session ≡ s.session) × (r.0.state ≡ s.state)
  unfolding dispatch_0x27 sa_request_seed sa_send_key settle_key
  dispatch_0x27_frame crates c s g req h = ground arith

  -- A request of 0x27 adds at most one failure, and none while the client is locked out.
  pub dispatch_0x27_fails :
      (crates : Crates) (c : UdsConfig W) (s : UdsState) (g : Globals W) (req : List ℕ)
      {r : UdsState × Globals W}
      → dispatch_0x27 crates c s g req ≡ some r
      → (r.0.sa_fail_count ≡ s.sa_fail_count)
        ⊎ ((locked_out c s ≡ false) × (r.0.sa_fail_count ≤ s.sa_fail_count + 1))
  unfolding dispatch_0x27 sa_request_seed sa_send_key settle_key
  dispatch_0x27_fails crates c s g req h = ground arith
