-- ===== src/Uds/Dispatch.antt =====
-- uds-core/src/table.rs: the services 0x34, 0x36 and 0x37, which queue the platform's OTA
-- continuations, and `dispatch_sid`, which routes every request. `none` is a panic: in a callback,
-- in a read of the request past its end, or in the copy of one longer than the 64-byte buffer.
use rust_foc.Common.{
  ◌≡◌, refl, arith, ℕ, not, ◌||◌, List, [], ◌∷◌, ◌++◌, Option, none, some, ◌==◌, ltb, if◌then◌else◌,
  length, get_or, take, drop, find,
}
use rust_foc.Uds.Types.{
  Nrc, busy_repeat_request, conditions_not_correct, request_out_of_range, service_not_supported,
  service_not_supported_in_active_session, security_access_denied,
  incorrect_message_length_or_invalid_format,
}
use rust_foc.Uds.State.{UdsState, Globals}
use rust_foc.Uds.Config.{
  Crates, Machine, PendingFn, ServiceEntry, ServiceHandler, session, ecu_reset, clear_dtc, read_dtc,
  read_data_by_id, write_data_by_id, comm_control, security_access, routine_start, routine_stop,
  routine_result, request_download, transfer_data, transfer_exit, tester_present, start, stop,
  result, session_allowed, security_allowed,
}
use rust_foc.Uds.Pending.{push_pending, is_pending}
use rust_foc.Uds.Dtc.{handle_clear, handle_read}
use rust_foc.Uds.Services.{
  refuse, dispatch_0x10, dispatch_0x11, dispatch_0x22, dispatch_0x2e, dispatch_0x28, dispatch_0x31,
  dispatch_0x3e,
}
use rust_foc.Uds.Security.{dispatch_0x27}

-- `request_buf[..request_len]`
abbrev pub stored_request : UdsState → List ℕ
stored_request s = take s.request_len s.request_buf

module _ {W : Type 0} where
  abbrev pub refusing : Nrc → ℕ → Machine W → Machine W
  refusing nrc sid m = record m { globals = refuse nrc sid m.globals }

  -- The common end of 0x34, 0x36 and 0x37: queue the continuation, if the platform gave one. The
  -- `bool` that the source returns is read by nobody.
  unfoldable pub queue_job : Machine W → ℕ → Nrc → Option (PendingFn W) → Machine W
  queue_job m sid missing f = elim f [
    | none ↦ refusing missing sid m
    | some job ↦
        let (pushed, s, c) = push_pending m.state m.config job in
        if pushed then record m { state = s; config = c } else refusing conditions_not_correct sid m
  ]

  unfoldable pub dispatch_0x34 : Machine W → Machine W
  unfolding queue_job
  dispatch_0x34 m =
      let req = stored_request m.state in
      if not (length req == 6) || not (get_or req 1 0 == 0x00)
      then refusing request_out_of_range 0x34 m
      else queue_job m 0x34 request_out_of_range m.config.request_download_fn

  unfoldable pub dispatch_0x36 : Machine W → Machine W
  unfolding queue_job
  dispatch_0x36 m =
      let req = stored_request m.state in
      if not (length req == 4)
      then refusing incorrect_message_length_or_invalid_format 0x36 m
      else queue_job m 0x36 incorrect_message_length_or_invalid_format m.config.transfer_data_fn

  unfoldable pub dispatch_0x37 : Machine W → Machine W
  unfolding queue_job
  dispatch_0x37 m =
      let req = stored_request m.state in
      if not (length req == 0)
      then refusing incorrect_message_length_or_invalid_format 0x37 m
      else queue_job m 0x37 incorrect_message_length_or_invalid_format m.config.transfer_exit_fn

  -- A service that changes the state and the globals alone.
  abbrev pub settled : Machine W → UdsState × Globals W → Machine W
  settled m (s, g) = record m { state = s; globals = g }

  abbrev pub settled? : Machine W → Option (UdsState × Globals W) → Option (Machine W)
  settled? m none = none
  settled? m (some r) = some (settled m r)

  -- A service that changes the globals alone.
  abbrev pub beside : UdsState → Option (Globals W) → Option (UdsState × Globals W)
  beside s none = none
  beside s (some g) = some (s, g)

  pub beside-some :
      (s : UdsState) (o : Option (Globals W)) {r : UdsState × Globals W}
      → beside s o ≡ some r
      → (r.0 ≡ s) × (o ≡ some r.1)
  beside-some s none h = cc
  beside-some s (some g) h = (ground arith, ground arith)

  pub settled?-some :
      (m : Machine W) (o : Option (UdsState × Globals W)) {m' : Machine W}
      → settled? m o ≡ some m'
      → (r : UdsState × Globals W) × (o ≡ some r) × (m' ≡ settled m r)
  settled?-some m none h = cc
  settled?-some m (some r) h = (r, refl, ground arith)

  unfoldable pub route : Crates → Machine W → List ℕ → ServiceHandler → Option (Machine W)
  route crates m req session = settled? m (dispatch_0x10 m.config m.state m.globals req)
  route crates m req ecu_reset = settled? m (dispatch_0x11 m.state m.globals req)
  route crates m req clear_dtc = settled? m (beside m.state (handle_clear m.globals req))
  route crates m req read_dtc = settled? m (beside m.state (handle_read m.globals req))
  route crates m req read_data_by_id = settled? m (dispatch_0x22 m.config m.state m.globals req)
  route crates m req write_data_by_id = settled? m (dispatch_0x2e m.config m.state m.globals req)
  route crates m req comm_control = settled? m (dispatch_0x28 m.state m.globals req)
  route crates m req security_access =
      settled? m (dispatch_0x27 crates m.config m.state m.globals req)
  route crates m req routine_start = settled? m (dispatch_0x31 m.config m.state m.globals req start)
  route crates m req routine_stop = settled? m (dispatch_0x31 m.config m.state m.globals req stop)
  route crates m req routine_result =
      settled? m (dispatch_0x31 m.config m.state m.globals req result)
  route crates m req request_download = some (dispatch_0x34 m)
  route crates m req transfer_data = some (dispatch_0x36 m)
  route crates m req transfer_exit = some (dispatch_0x37 m)
  route crates m req tester_present = settled? m (dispatch_0x3e m.state m.globals req)

  abbrev pub stamp : Machine W → ℕ → Machine W
  stamp m now_ms = record m { state = record m.state { request_tick_ms = now_ms } }

  -- The copy of the request into `request_buf`.
  abbrev pub keep_request : Machine W → List ℕ → Machine W
  keep_request m request = record m {
    state = record m.state {
      request_len = length request;
      request_buf = request ++ drop (length request) m.state.request_buf;
    };
  }

  -- The gates of one entry of the service table, then its handler.
  unfoldable pub serve : Crates → Machine W → List ℕ → ServiceEntry → Option (Machine W)
  serve crates m request e =
      let sid = get_or request 0 0 in
      if not (session_allowed m.state.session e.session_access)
      then some (refusing service_not_supported_in_active_session sid m)
      else if not (security_allowed m.state.security e.security_level)
      then some (refusing security_access_denied sid m)
      else if ltb 64 (length request)
      then none
      else route crates (keep_request m request) request e.handler

  abbrev pub find_service : Machine W → ℕ → Option ServiceEntry
  find_service m sid = find (λ e. e.sid == sid) m.config.services

  unfoldable pub dispatch_sid : Crates → Machine W → List ℕ → ℕ → Option (Machine W)
  dispatch_sid crates m [] now_ms = some m
  dispatch_sid crates m (sid ∷ rest) now_ms =
      if is_pending m.state.state
      then some (refusing busy_repeat_request sid (stamp m now_ms))
      else elim (find_service m sid) [
        | none ↦ some (refusing service_not_supported sid (stamp m now_ms))
        | some e ↦ serve crates (stamp m now_ms) (sid ∷ rest) e
      ]
