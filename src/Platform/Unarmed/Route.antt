-- ===== src/Platform/Unarmed/Route.antt =====
-- uds-core/src/table.rs, src/uds/static_config.rs: what a routed request leaves of the flag of the
-- reset after an update.
use rust_foc.Common.{
  ℕ, not, ◌||◌, List, ◌∷◌, Option, some, ◌≡◌, ◌∙◌, ◌==◌, refl, arith, inl, inr, Bool-cases, subst,
  ap, sym, length, get_or,
}
use rust_foc.Ota.Flag.{
  handle_request_download-reset_requested, handle_transfer_data-reset_requested,
}
use rust_foc.Ota.Flash.{FlashDevice}
use rust_foc.Ota.Handlers.{handle_request_download, handle_transfer_data}
use rust_foc.Platform.Tables.{Board, ota_request_download, ota_transfer_data}
use rust_foc.Platform.Unarmed.Jobs.{IsSafe, IsSafe-same, ota_job-Keeps, queue_job-IsSafe}
use rust_foc.Platform.Unarmed.Services.{
  dispatch_0x10-ota, dispatch_0x11-ota, dispatch_0x22-ota, dispatch_0x27-ota, dispatch_0x28-ota,
  dispatch_0x2e-ota, dispatch_0x31-ota, dispatch_0x3e-ota, handle_clear-ota, handle_read-ota,
}
use rust_foc.Uds.Config.{
  Crates, Machine, ServiceHandler, session, ecu_reset, clear_dtc, read_dtc, read_data_by_id,
  write_data_by_id, comm_control, security_access, routine_start, routine_stop, routine_result,
  request_download, transfer_data, transfer_exit, tester_present, start, stop, result,
}
use rust_foc.Uds.Dispatch.{
  beside, beside-some, dispatch_0x34, dispatch_0x36, dispatch_0x37, keep_request, queue_job,
  refusing, route, settled, settled?-some, stored_request,
}
use rust_foc.Uds.Dtc.{handle_clear, handle_read}
use rust_foc.Uds.Security.{dispatch_0x27}
use rust_foc.Uds.Services.{
  dispatch_0x10, dispatch_0x11, dispatch_0x22, dispatch_0x28, dispatch_0x2e, dispatch_0x31,
  dispatch_0x3e,
}
use rust_foc.Uds.State.{Globals, UdsState, store_response}
use rust_foc.Uds.Types.{Nrc, incorrect_message_length_or_invalid_format, request_out_of_range}

module _ {F R : Type 0} (dev : FlashDevice F) (random_word : R → Option (List ℕ) × R) where
  abbrev pub Safe : Machine (Board F R) → Type 0
  Safe = IsSafe dev random_word

  dispatch_0x34-IsSafe : (m : Machine (Board F R)) → Safe m → Safe (dispatch_0x34 m)
  unfolding dispatch_0x34 ota_request_download store_response
  dispatch_0x34-IsSafe m safe =
      let test =
        not (length (stored_request m.state) == 6)
        || not (get_or (stored_request m.state) 1 0 == 0x00) in
      elim (Bool-cases test) [
        | inl bad ↦ rw bad (IsSafe-same dev random_word m _ refl refl safe)
        | inr good ↦ rw good (
            subst (λ f. Safe (queue_job m 0x34 request_out_of_range f))
              (sym (ap (λ c. c.request_download_fn) safe.config))
              (queue_job-IsSafe dev random_word m 0x34 request_out_of_range _ safe (
                ota_job-Keeps dev random_word (handle_request_download dev)
                  (handle_request_download-reset_requested dev))))
      ]

  dispatch_0x36-IsSafe : (m : Machine (Board F R)) → Safe m → Safe (dispatch_0x36 m)
  unfolding dispatch_0x36 ota_transfer_data store_response
  dispatch_0x36-IsSafe m safe = elim (Bool-cases (not (length (stored_request m.state) == 4))) [
    | inl bad ↦ rw bad (IsSafe-same dev random_word m _ refl refl safe)
    | inr good ↦ rw good (
        subst (λ f. Safe (queue_job m 0x36 incorrect_message_length_or_invalid_format f))
          (sym (ap (λ c. c.transfer_data_fn) safe.config))
          (queue_job-IsSafe dev random_word m 0x36 incorrect_message_length_or_invalid_format _ safe
            (ota_job-Keeps dev random_word (handle_transfer_data dev)
              (handle_transfer_data-reset_requested dev))))
  ]

  -- The stored request is not empty.
  dispatch_0x37-refused :
      (m : Machine (Board F R)) (sid : ℕ) (rest : List ℕ)
      → dispatch_0x37 (keep_request m (sid ∷ rest))
        ≡ refusing incorrect_message_length_or_invalid_format 0x37 (keep_request m (sid ∷ rest))
  unfolding dispatch_0x37
  dispatch_0x37-refused m sid rest = ground arith

  -- A service that changes the state and the globals alone.
  served :
      (m : Machine (Board F R)) (r : UdsState × Globals (Board F R)) {m' : Machine (Board F R)}
      → m' ≡ settled m r
      → r.1.world.ota ≡ m.globals.world.ota
      → Safe m
      → Safe m'
  served m r e ota safe =
      subst Safe (sym e) (IsSafe-same dev random_word m (settled m r) refl ota safe)

  refusing-IsSafe :
      (m : Machine (Board F R)) (nrc : Nrc) (sid : ℕ) → Safe m → Safe (refusing nrc sid m)
  unfolding store_response
  refusing-IsSafe m nrc sid safe = IsSafe-same dev random_word m (refusing nrc sid m) refl refl safe

  pub keep_request-IsSafe :
      (m : Machine (Board F R)) (req : List ℕ) → Safe m → Safe (keep_request m req)
  keep_request-IsSafe m req safe = IsSafe-same dev random_word m (keep_request m req) refl refl safe

  pub route-IsSafe :
      (crates : Crates) (m : Machine (Board F R)) (sid : ℕ) (rest : List ℕ) (h : ServiceHandler)
      {m' : Machine (Board F R)}
      → route crates (keep_request m (sid ∷ rest)) (sid ∷ rest) h ≡ some m'
      → Safe (keep_request m (sid ∷ rest))
      → Safe m'
  unfolding route
  route-IsSafe crates m sid rest session h safe =
      let kept = keep_request m (sid ∷ rest) in
      let (r, e, n) =
        settled?-some kept (dispatch_0x10 m.config kept.state m.globals (sid ∷ rest)) h in
      served kept r n
        (dispatch_0x10-ota dev random_word m.config.pending_queue kept.state m.globals (sid ∷ rest)
          (subst (λ c. dispatch_0x10 c kept.state m.globals (sid ∷ rest) ≡ some r) safe.config e))
        safe
  route-IsSafe crates m sid rest read_data_by_id h safe =
      let kept = keep_request m (sid ∷ rest) in
      let (r, e, n) =
        settled?-some kept (dispatch_0x22 m.config kept.state m.globals (sid ∷ rest)) h in
      served kept r n
        (dispatch_0x22-ota dev random_word m.config.pending_queue kept.state m.globals (sid ∷ rest)
          (subst (λ c. dispatch_0x22 c kept.state m.globals (sid ∷ rest) ≡ some r) safe.config e))
        safe
  route-IsSafe crates m sid rest write_data_by_id h safe =
      let kept = keep_request m (sid ∷ rest) in
      let (r, e, n) =
        settled?-some kept (dispatch_0x2e m.config kept.state m.globals (sid ∷ rest)) h in
      served kept r n
        (dispatch_0x2e-ota dev random_word m.config.pending_queue kept.state m.globals (sid ∷ rest)
          (subst (λ c. dispatch_0x2e c kept.state m.globals (sid ∷ rest) ≡ some r) safe.config e))
        safe
  route-IsSafe crates m sid rest security_access h safe =
      let kept = keep_request m (sid ∷ rest) in
      let (r, e, n) =
        settled?-some kept (dispatch_0x27 crates m.config kept.state m.globals (sid ∷ rest)) h in
      served kept r n
        (dispatch_0x27-ota dev random_word m.config.pending_queue kept.state m.globals (sid ∷ rest)
          crates
          (subst (λ c. dispatch_0x27 crates c kept.state m.globals (sid ∷ rest) ≡ some r)
            safe.config e))
        safe
  route-IsSafe crates m sid rest routine_start h safe =
      let kept = keep_request m (sid ∷ rest) in
      let (r, e, n) =
        settled?-some kept (dispatch_0x31 m.config kept.state m.globals (sid ∷ rest) start) h in
      served kept r n
        (dispatch_0x31-ota dev random_word m.config.pending_queue kept.state m.globals (sid ∷ rest)
          start
          (subst (λ c. dispatch_0x31 c kept.state m.globals (sid ∷ rest) start ≡ some r) safe.config
            e))
        safe
  route-IsSafe crates m sid rest routine_stop h safe =
      let kept = keep_request m (sid ∷ rest) in
      let (r, e, n) =
        settled?-some kept (dispatch_0x31 m.config kept.state m.globals (sid ∷ rest) stop) h in
      served kept r n
        (dispatch_0x31-ota dev random_word m.config.pending_queue kept.state m.globals (sid ∷ rest)
          stop
          (subst (λ c. dispatch_0x31 c kept.state m.globals (sid ∷ rest) stop ≡ some r) safe.config
            e))
        safe
  route-IsSafe crates m sid rest routine_result h safe =
      let kept = keep_request m (sid ∷ rest) in
      let (r, e, n) =
        settled?-some kept (dispatch_0x31 m.config kept.state m.globals (sid ∷ rest) result) h in
      served kept r n
        (dispatch_0x31-ota dev random_word m.config.pending_queue kept.state m.globals (sid ∷ rest)
          result
          (subst (λ c. dispatch_0x31 c kept.state m.globals (sid ∷ rest) result ≡ some r)
            safe.config e))
        safe
  route-IsSafe crates m sid rest ecu_reset h safe =
      let kept = keep_request m (sid ∷ rest) in
      let (r, e, n) = settled?-some kept (dispatch_0x11 kept.state m.globals (sid ∷ rest)) h in
      served kept r n
        (dispatch_0x11-ota dev random_word m.config.pending_queue kept.state m.globals (sid ∷ rest)
          e)
        safe
  route-IsSafe crates m sid rest comm_control h safe =
      let kept = keep_request m (sid ∷ rest) in
      let (r, e, n) = settled?-some kept (dispatch_0x28 kept.state m.globals (sid ∷ rest)) h in
      served kept r n
        (dispatch_0x28-ota dev random_word m.config.pending_queue kept.state m.globals (sid ∷ rest)
          e)
        safe
  route-IsSafe crates m sid rest tester_present h safe =
      let kept = keep_request m (sid ∷ rest) in
      let (r, e, n) = settled?-some kept (dispatch_0x3e kept.state m.globals (sid ∷ rest)) h in
      served kept r n
        (dispatch_0x3e-ota dev random_word m.config.pending_queue kept.state m.globals (sid ∷ rest)
          e)
        safe
  route-IsSafe crates m sid rest clear_dtc h safe =
      let kept = keep_request m (sid ∷ rest) in
      let left = handle_clear m.globals (sid ∷ rest) in
      let (r, e, n) = settled?-some kept (beside kept.state left) h in
      served kept r n
        (handle_clear-ota dev random_word m.config.pending_queue kept.state m.globals (sid ∷ rest)
          (beside-some kept.state left e).1)
        safe
  route-IsSafe crates m sid rest read_dtc h safe =
      let kept = keep_request m (sid ∷ rest) in
      let left = handle_read m.globals (sid ∷ rest) in
      let (r, e, n) = settled?-some kept (beside kept.state left) h in
      served kept r n
        (handle_read-ota dev random_word m.config.pending_queue kept.state m.globals (sid ∷ rest)
          (beside-some kept.state left e).1)
        safe
  route-IsSafe crates m sid rest request_download {m' = m'} h safe =
      let ran : dispatch_0x34 (keep_request m (sid ∷ rest)) ≡ m' = ground arith in
      subst Safe ran (dispatch_0x34-IsSafe (keep_request m (sid ∷ rest)) safe)
  route-IsSafe crates m sid rest transfer_data {m' = m'} h safe =
      let ran : dispatch_0x36 (keep_request m (sid ∷ rest)) ≡ m' = ground arith in
      subst Safe ran (dispatch_0x36-IsSafe (keep_request m (sid ∷ rest)) safe)
  route-IsSafe crates m sid rest transfer_exit {m' = m'} h safe =
      let kept = keep_request m (sid ∷ rest) in
      let ran : dispatch_0x37 kept ≡ m' = ground arith in
      subst Safe (sym (dispatch_0x37-refused m sid rest) ∙ ran)
        (refusing-IsSafe kept incorrect_message_length_or_invalid_format 0x37 safe)
