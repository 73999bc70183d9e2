-- ===== src/Can/Addressing.antt =====
-- src/drivers/can/uds_bridge.rs: what a broadcast can do to the node.
use rust_foc.Uds.Dtc.{handle_clear, handle_read}
use rust_foc.Uds.Services.{dispatch_0x3e}
use rust_foc.Uds.Frames.{dispatch_0x3e_frame}
use rust_foc.Uds.Frames.{dispatch_0x22_frame}
use rust_foc.Uds.State.{Globals, UdsState}
use rust_foc.Uds.Types.{SrvState-cases, locked, default, security_as_u8, session_from_u8}
use rust_foc.Uds.Services.{dispatch_0x22, enter_session, dispatch_0x10}
use rust_foc.Uds.Dispatch.{
  beside, beside-some, keep_request, stamp, serve, dispatch_sid, settled?-some, find_service, route,
}
use rust_foc.Can.Bridge.{
  handle_rx_frame-Received, handle_rx_frame, cob_id_functional_request, FdFrame, functional_blocked,
}
use rust_foc.Uds.Types.{default, locked}
use rust_foc.Can.Bridge.{dropped, dispatched, standard}
use rust_foc.Common.{
  length, ltb, Option-cases, Bool-cases, Option, inl, inr, refl, ◌∷◌, some, false, arith, inr, inl,
  ◌⊎◌, ◌≤◌, false, List, ◌≡◌, ℕ, some,
}
use rust_foc.Uds.Config.{
  security_allowed, session_allowed, UdsConfig, ServiceEntry, Crates, ServiceHandler, Machine,
  session, ecu_reset, clear_dtc, read_dtc, read_data_by_id, write_data_by_id, comm_control,
  security_access, routine_start, routine_stop, routine_result, request_download, transfer_data,
  transfer_exit, tester_present,
}

-- The service identifier that ISO 14229-1 gives each service.
unfoldable pub iso_sid : ServiceHandler → ℕ
iso_sid session = 0x10
iso_sid ecu_reset = 0x11
iso_sid clear_dtc = 0x14
iso_sid read_dtc = 0x19
iso_sid read_data_by_id = 0x22
iso_sid security_access = 0x27
iso_sid comm_control = 0x28
iso_sid write_data_by_id = 0x2E
iso_sid routine_start = 0x31
iso_sid routine_stop = 0x31
iso_sid routine_result = 0x31
iso_sid request_download = 0x34
iso_sid transfer_data = 0x36
iso_sid transfer_exit = 0x37
iso_sid tester_present = 0x3E

module _ {W : Type 0} where
  -- The service table gives each service its identifier.
  abbrev pub IsStandard : Machine W → Type 0
  IsStandard m =
      (sid : ℕ) (e : ServiceEntry) → find_service m sid ≡ some e → iso_sid e.handler ≡ sid

  -- What a broadcast leaves alone: the configuration with its queue of jobs, the pending state and
  -- the transmit switch. The security level may fall, and the session may go back to the default.
  abbrev pub Harmless : Machine W → Machine W → Type 0
  Harmless m m' =
      (m'.config ≡ m.config)
      × (m'.state.state ≡ m.state.state)
      × (m'.state.tx_disabled ≡ m.state.tx_disabled)
      × (security_as_u8 m'.state.security ≤ security_as_u8 m.state.security)
      × ((m'.state.session ≡ m.state.session) ⊎ (m'.state.session ≡ default))

  dispatch_0x10-default :
      (c : UdsConfig W) (s : UdsState) (g : Globals W) (req : List ℕ) {r : UdsState × Globals W}
      → functional_blocked 0x10 req ≡ false
      → dispatch_0x10 c s g req ≡ some r
      → (r.0 ≡ s)
        ⊎ ((r.0.security ≡ locked)
            × (r.0.session ≡ default)
            × (r.0.state ≡ s.state)
            × (r.0.tx_disabled ≡ s.tx_disabled))
  unfolding functional_blocked dispatch_0x10 session_from_u8 enter_session
  dispatch_0x10-default c s g req allowed h = ground arith

  route-Harmless :
      (crates : Crates) (m : Machine W) (req : List ℕ) (h : ServiceHandler) {m' : Machine W}
      → functional_blocked (iso_sid h) req ≡ false
      → route crates m req h ≡ some m'
      → Harmless m m'
  unfolding route functional_blocked iso_sid
  route-Harmless crates m req session allowed h =
      let (r, e, n) = settled?-some m (dispatch_0x10 m.config m.state m.globals req) h in
      elim (dispatch_0x10-default m.config m.state m.globals req allowed e) [
        | inl same ↦ (ground arith, ground arith, ground arith, ground arith, inl (ground arith))
        | inr (locks, resets, stays, switch) ↦ (
          ground arith,
          ground arith,
          ground arith,
          rw (n, locks) (omega arith),
          inr (ground arith),
        )
      ]
  route-Harmless crates m req clear_dtc allowed h =
      let (r, e, n) = settled?-some m (beside m.state (handle_clear m.globals req)) h in
      let (same, _) = beside-some m.state (handle_clear m.globals req) e in
      (ground arith, ground arith, ground arith, ground arith, inl (ground arith))
  route-Harmless crates m req read_dtc allowed h =
      let (r, e, n) = settled?-some m (beside m.state (handle_read m.globals req)) h in
      let (same, _) = beside-some m.state (handle_read m.globals req) e in
      (ground arith, ground arith, ground arith, ground arith, inl (ground arith))
  route-Harmless crates m req tester_present allowed h =
      let (r, e, n) = settled?-some m (dispatch_0x3e m.state m.globals req) h in
      let same = dispatch_0x3e_frame m.state m.globals req e in
      (ground arith, ground arith, ground arith, ground arith, inl (ground arith))
  route-Harmless crates m req read_data_by_id allowed h =
      let (r, e, n) = settled?-some m (dispatch_0x22 m.config m.state m.globals req) h in
      let same = dispatch_0x22_frame m.config m.state m.globals req e in
      (ground arith, ground arith, ground arith, ground arith, inl (ground arith))
  route-Harmless crates m req _ allowed h = absurd (ground arith)

  serve-Harmless :
      (crates : Crates) (m : Machine W) (req : List ℕ) (e : ServiceEntry) {m' : Machine W}
      → functional_blocked (iso_sid e.handler) req ≡ false
      → serve crates m req e ≡ some m'
      → Harmless m m'
  unfolding serve
  serve-Harmless crates m req e {m' = m'} allowed h =
      elim (Bool-cases (session_allowed m.state.session e.session_access)) [
        | inr off ↦ (ground arith, ground arith, ground arith, ground arith, inl (ground arith))
        | inl on ↦ elim (Bool-cases (security_allowed m.state.security e.security_level)) [
          | inr off ↦ (ground arith, ground arith, ground arith, ground arith, inl (ground arith))
          | inl ok' ↦ elim (Bool-cases (ltb 64 (length req))) [
            | inl long ↦ absurd (ground arith)
            | inr fits ↦
                let routed : route crates (keep_request m req) req e.handler ≡ some m' =
                  ground arith in
                route-Harmless crates (keep_request m req) req e.handler allowed routed
          ]
        ]
      ]

  dispatch_sid-Harmless :
      (crates : Crates) (m : Machine W) (sid : ℕ) (rest : List ℕ) (now_ms : ℕ) {m' : Machine W}
      → IsStandard m
      → functional_blocked sid (sid ∷ rest) ≡ false
      → dispatch_sid crates m (sid ∷ rest) now_ms ≡ some m'
      → Harmless m m'
  unfolding dispatch_sid
  dispatch_sid-Harmless crates m sid rest now_ms {m' = m'} table allowed h =
      elim (SrvState-cases m.state.state) [
        | inr p ↦ (ground arith, ground arith, ground arith, ground arith, inl (ground arith))
        | inl i ↦ elim (Option-cases (find_service m sid)) [
          | inl e ↦ (ground arith, ground arith, ground arith, ground arith, inl (ground arith))
          | inr (entry, e) ↦
              let served : serve crates (stamp m now_ms) (sid ∷ rest) entry ≡ some m' =
                ground arith in
              serve-Harmless crates (stamp m now_ms) (sid ∷ rest) entry
                (rw (table sid entry e) allowed) served
        ]
      ]

  -- On a platform whose service table gives each service its own identifier, a broadcast frame never
  -- raises the security level, never enters a session other than the default one, never queues a job
  -- and never switches transmission off; the remaining hypothesis is that neither the engine nor a
  -- callback panics.
  pub handle_rx_frame-Harmless :
      (new_standard : ℕ → List ℕ → Option FdFrame) (crates : Crates) (m : Machine W)
      (frame : FdFrame) (now_ms : ℕ) {m' : Machine W} {reply : Option FdFrame}
      → IsStandard m
      → frame.id ≡ standard cob_id_functional_request
      → handle_rx_frame new_standard crates m frame now_ms ≡ some (m', reply)
      → Harmless m m'
  handle_rx_frame-Harmless new_standard crates m frame now_ms table f h =
      elim (handle_rx_frame-Received new_standard crates m cob_id_functional_request frame now_ms f
        h) [
          | dropped e r ↦ rw e (refl, refl, refl, omega arith, inl refl)
          | dispatched sid rest e allowed d r ↦
              dispatch_sid-Harmless crates m sid rest now_ms table allowed d
        ]
