-- ===== src/Uds/Effect.antt =====
-- uds-core/src/table.rs: what `dispatch_sid` can do to a machine, in four kinds. The modules on
-- access, sessions and the queue reason by these kinds instead of by the fifteen services.
use rust_foc.Uds.Security.{dispatch_0x27}
use rust_foc.Uds.Services.{
  dispatch_0x11, dispatch_0x28, dispatch_0x3e, dispatch_0x31, dispatch_0x2e, dispatch_0x22,
  dispatch_0x10,
}
use rust_foc.Uds.Frames.{
  dispatch_0x31_frame, dispatch_0x28_frame, dispatch_0x2e_frame, dispatch_0x22_frame,
  dispatch_0x3e_frame, dispatch_0x10_effect, dispatch_0x11_frame, SameAccess,
}
use rust_foc.Uds.Dtc.{handle_clear, handle_read}
use rust_foc.Uds.Dispatch.{
  beside, beside-some, find_service, keep_request, serve, dispatch_sid, stamp, queue_job,
  stored_request, settled?-some, refusing, settled, route, dispatch_0x34, dispatch_0x36,
  dispatch_0x37,
}
use rust_foc.Uds.Types.{
  SrvState-cases, idle, request_out_of_range, incorrect_message_length_or_invalid_format,
  security_as_u8, Nrc, default, locked,
}
use rust_foc.Uds.State.{Globals, UdsState}
use rust_foc.Uds.Config.{
  security_allowed, session_allowed, ServiceEntry, PendingFn, ServiceHandler, Machine, Crates,
  clear_dtc, read_dtc, tester_present, session, ecu_reset, read_data_by_id, write_data_by_id,
  comm_control, security_access, routine_start, routine_stop, routine_result, request_download,
  transfer_data, transfer_exit, start, stop, result,
}
use rust_foc.Common.{
  [], ltb, Option-cases, ◌∷◌, subst, get_or, ◌||◌, ◌==◌, Option, length, ◌≤◌, ◌⊎◌, Bool-cases, not,
  List, ℕ, ◌≡◌, refl, arith, inl, inr, some, false,
}

-- What a change of session leaves behind.
abbrev pub Entered : UdsState → UdsState → Type 0
Entered s s' =
    (s'.security ≡ locked)
    × (s'.seed_sent ≡ false)
    × (s'.sa_fail_count ≡ 0)
    × ((s'.session ≡ default) ⊎ (1 ≤ security_as_u8 s.security))

module _ {W : Type 0} (crates : Crates) where
  -- `quiet`: the access state and the queue stay. `entered`: the session is entered anew.
  -- `secured`: SecurityAccess ran. `queued`: a continuation of the platform is queued, if there is
  -- room.
  pub data Effect (m : Machine W) (req : List ℕ) (m' : Machine W) : Type 0 where
    quiet :
        SameAccess m.state m'.state
        → (m'.state.sa_fail_count ≡ m.state.sa_fail_count) ⊎ (m'.state.sa_fail_count ≡ 0)
        → m'.state.state ≡ m.state.state
        → m'.config ≡ m.config
        → Effect m req m'
    entered :
        Entered m.state m'.state
        → m'.state.state ≡ m.state.state
        → m'.config ≡ m.config
        → Effect m req m'
    secured :
        (r : UdsState × Globals W)
        → dispatch_0x27 crates m.config m.state m.globals req ≡ some r
        → m' ≡ settled m r
        → Effect m req m'
    queued :
        (sid : ℕ) (missing : Nrc) (f : Option (PendingFn W))
        → (f ≡ m.config.request_download_fn)
          ⊎ (f ≡ m.config.transfer_data_fn)
          ⊎ (f ≡ m.config.transfer_exit_fn)
        → m' ≡ queue_job m sid missing f
        → Effect m req m'

  unmoved :
      (m : Machine W) (req : List ℕ) (r : UdsState × Globals W) {m' : Machine W}
      → r.0 ≡ m.state
      → m' ≡ settled m r
      → Effect m req m'
  unmoved m req r same e = quiet (ground arith) (inl (ground arith)) (ground arith) (ground arith)

  entering :
      (m : Machine W) (req : List ℕ) (r : UdsState × Globals W) {m' : Machine W}
      → dispatch_0x10 m.config m.state m.globals req ≡ some r
      → m' ≡ settled m r
      → Effect m req m'
  entering m req r e n = elim (dispatch_0x10_effect m.config m.state m.globals req e) [
    | inl same ↦ unmoved m req r same n
    | inr new ↦ entered (ground arith) (ground arith) (ground arith)
  ]

  -- A refusal of a service that leaves the state alone.
  refused-Effect :
      (m : Machine W) (req : List ℕ) (nrc : Nrc) (sid : ℕ) → Effect m req (refusing nrc sid m)
  refused-Effect m req nrc sid = quiet (refl, refl, refl, refl) (inl refl) refl refl

  dispatch_0x34-Effect : (m : Machine W) (req : List ℕ) → Effect m req (dispatch_0x34 m)
  unfolding dispatch_0x34
  dispatch_0x34-Effect m req =
      let test =
        not (length (stored_request m.state) == 6)
        || not (get_or (stored_request m.state) 1 0 == 0x00) in
      elim (Bool-cases test) [
        | inl bad ↦ rw bad (refused-Effect m req request_out_of_range 0x34)
        | inr good ↦
            rw good (queued 0x34 request_out_of_range m.config.request_download_fn (inl refl) refl)
      ]

  dispatch_0x36-Effect : (m : Machine W) (req : List ℕ) → Effect m req (dispatch_0x36 m)
  unfolding dispatch_0x36
  dispatch_0x36-Effect m req = elim (Bool-cases (not (length (stored_request m.state) == 4))) [
    | inl bad ↦ rw bad (refused-Effect m req incorrect_message_length_or_invalid_format 0x36)
    | inr good ↦ rw good (
        queued 0x36 incorrect_message_length_or_invalid_format m.config.transfer_data_fn
          (inr (inl refl)) refl)
  ]

  dispatch_0x37-Effect : (m : Machine W) (req : List ℕ) → Effect m req (dispatch_0x37 m)
  unfolding dispatch_0x37
  dispatch_0x37-Effect m req = elim (Bool-cases (not (length (stored_request m.state) == 0))) [
    | inl bad ↦ rw bad (refused-Effect m req incorrect_message_length_or_invalid_format 0x37)
    | inr good ↦ rw good (
        queued 0x37 incorrect_message_length_or_invalid_format m.config.transfer_exit_fn
          (inr (inr refl)) refl)
  ]

  pub route-Effect :
      (m : Machine W) (req : List ℕ) (h : ServiceHandler) {m' : Machine W}
      → route crates m req h ≡ some m'
      → Effect m req m'
  unfolding route
  route-Effect m req session h =
      let (r, e, n) = settled?-some m (dispatch_0x10 m.config m.state m.globals req) h in
      entering m req r e n
  route-Effect m req ecu_reset h =
      let (r, e, n) = settled?-some m (dispatch_0x11 m.state m.globals req) h in
      let f = dispatch_0x11_frame m.state m.globals req e in
      quiet (ground (arith, f)) (ground (arith, f)) (ground (arith, f)) (ground arith)
  route-Effect m req read_data_by_id h =
      let (r, e, n) = settled?-some m (dispatch_0x22 m.config m.state m.globals req) h in
      unmoved m req r (dispatch_0x22_frame m.config m.state m.globals req e) n
  route-Effect m req write_data_by_id h =
      let (r, e, n) = settled?-some m (dispatch_0x2e m.config m.state m.globals req) h in
      unmoved m req r (dispatch_0x2e_frame m.config m.state m.globals req e) n
  route-Effect m req comm_control h =
      let (r, e, n) = settled?-some m (dispatch_0x28 m.state m.globals req) h in
      let f = dispatch_0x28_frame m.state m.globals req e in
      quiet (ground (arith, f)) (inl (ground (arith, f))) (ground (arith, f)) (ground arith)
  route-Effect m req security_access h =
      let (r, e, n) = settled?-some m (dispatch_0x27 crates m.config m.state m.globals req) h in
      secured r e n
  route-Effect m req routine_start h =
      let (r, e, n) = settled?-some m (dispatch_0x31 m.config m.state m.globals req start) h in
      unmoved m req r (dispatch_0x31_frame m.config m.state m.globals req start e) n
  route-Effect m req routine_stop h =
      let (r, e, n) = settled?-some m (dispatch_0x31 m.config m.state m.globals req stop) h in
      unmoved m req r (dispatch_0x31_frame m.config m.state m.globals req stop e) n
  route-Effect m req routine_result h =
      let (r, e, n) = settled?-some m (dispatch_0x31 m.config m.state m.globals req result) h in
      unmoved m req r (dispatch_0x31_frame m.config m.state m.globals req result e) n
  route-Effect m req request_download {m' = m'} h =
      let e : dispatch_0x34 m ≡ m' = ground arith in
      subst (Effect m req) e (dispatch_0x34-Effect m req)
  route-Effect m req transfer_data {m' = m'} h =
      let e : dispatch_0x36 m ≡ m' = ground arith in
      subst (Effect m req) e (dispatch_0x36-Effect m req)
  route-Effect m req transfer_exit {m' = m'} h =
      let e : dispatch_0x37 m ≡ m' = ground arith in
      subst (Effect m req) e (dispatch_0x37-Effect m req)
  route-Effect m req clear_dtc h =
      let (r, e, n) = settled?-some m (beside m.state (handle_clear m.globals req)) h in
      unmoved m req r (beside-some m.state (handle_clear m.globals req) e).0 n
  route-Effect m req read_dtc h =
      let (r, e, n) = settled?-some m (beside m.state (handle_read m.globals req)) h in
      unmoved m req r (beside-some m.state (handle_read m.globals req) e).0 n
  route-Effect m req tester_present h =
      let (r, e, n) = settled?-some m (dispatch_0x3e m.state m.globals req) h in
      unmoved m req r (dispatch_0x3e_frame m.state m.globals req e) n

  -- What a whole request does: nothing, a refusal at the gates, or the effect of its service.
  pub data Outcome (m : Machine W) (req : List ℕ) (now_ms : ℕ) (m' : Machine W) : Type 0 where
    ignored : m' ≡ m → Outcome m req now_ms m'
    declined : m'.state ≡ (stamp m now_ms).state → m'.config ≡ m.config → Outcome m req now_ms m'
    served :
        m.state.state ≡ idle
        → Effect (keep_request (stamp m now_ms) req) req m'
        → Outcome m req now_ms m'

  serve-Outcome :
      (m : Machine W) (req : List ℕ) (now_ms : ℕ) (e : ServiceEntry) {m' : Machine W}
      → m.state.state ≡ idle
      → serve crates (stamp m now_ms) req e ≡ some m'
      → Outcome m req now_ms m'
  unfolding serve
  serve-Outcome m req now_ms e {m' = m'} i h =
      elim (Bool-cases (session_allowed m.state.session e.session_access)) [
        | inr off ↦ declined (ground arith) (ground arith)
        | inl on ↦ elim (Bool-cases (security_allowed m.state.security e.security_level)) [
          | inr off ↦ declined (ground arith) (ground arith)
          | inl ok' ↦ elim (Bool-cases (ltb 64 (length req))) [
            | inl long ↦ absurd (ground arith)
            | inr fits ↦
                let kept = keep_request (stamp m now_ms) req in
                let routed : route crates kept req e.handler ≡ some m' = ground arith in
                served i (route-Effect kept req e.handler routed)
          ]
        ]
      ]

  pub dispatch_sid-Outcome :
      (m : Machine W) (req : List ℕ) (now_ms : ℕ) {m' : Machine W}
      → dispatch_sid crates m req now_ms ≡ some m'
      → Outcome m req now_ms m'
  unfolding dispatch_sid
  dispatch_sid-Outcome m [] now_ms h = ignored (ground arith)
  dispatch_sid-Outcome m (sid ∷ rest) now_ms h = elim (SrvState-cases m.state.state) [
    | inr p ↦ declined (ground arith) (ground arith)
    | inl i ↦ elim (Option-cases (find_service m sid)) [
      | inl e ↦ declined (ground arith) (ground arith)
      | inr (entry, e) ↦ serve-Outcome m (sid ∷ rest) now_ms entry i (ground arith)
    ]
  ]
