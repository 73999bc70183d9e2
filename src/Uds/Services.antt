-- ===== src/Uds/Services.antt =====
-- uds-core/src/table.rs: the built-in services `dispatch_0xNN` that act at once. Each returns the
-- state and the globals that it leaves; `none` is a panic, of a callback of the platform or of a read of
-- the request past its end.
-- Logging is left out.
use rust_foc.Common.{
  indexed, ℕ, Bool, true, false, not, ◌&&◌, ◌||◌, List, [], ◌∷◌, Option, none, some, ◌==◌, ltb,
  if◌then◌else◌, min, length, get_or, take, drop, replicate, find, low_bits, has_bit, be16,
}
use rust_foc.Uds.Types.{
  Session, default, programming, extended, locked, session_from_u8, security_as_u8, Nrc,
  negative_response, incorrect_message_length_or_invalid_format, sub_function_not_supported,
  security_access_denied, request_out_of_range, service_not_supported_in_active_session,
  sub_function_not_supported_in_active_session,
}
use rust_foc.Uds.State.{UdsState, Globals, store_response}
use rust_foc.Uds.Config.{
  UdsConfig, DidReadEntry, DidWriteEntry, RoutineEntry, RoutineSub, start, stop, result, ok, err,
  session_allowed, security_allowed,
}

-- Programming and Extended both require SAL1.
abbrev pub needs_sal1 : Session → Bool
needs_sal1 default = false
needs_sal1 programming = true
needs_sal1 extended = true

abbrev pub read_answer : List ℕ → ℕ → List ℕ → List ℕ
read_answer req n payload = 0x62 ∷ get_or req 1 0 ∷ get_or req 2 0 ∷ take (min n 61) payload

module _ {W : Type 0} where
  abbrev pub refuse : Nrc → ℕ → Globals W → Globals W
  refuse nrc sid g = store_response (negative_response nrc sid) g

  -- A positive response, unless its suppress bit is set.
  abbrev pub answer : Bool → List ℕ → Globals W → Globals W
  answer suppress payload g = if suppress then store_response [] g else store_response payload g

  abbrev pub session_hook : UdsConfig W → Session → Option (Globals W → Option (Globals W))
  session_hook c default = c.on_default_session_enter
  session_hook c programming = c.on_programming_session_enter
  session_hook c extended = c.on_extended_session_enter

  abbrev pub run_hook : Option (Globals W → Option (Globals W)) → Globals W → Option (Globals W)
  run_hook none g = some g
  run_hook (some cb) g = cb g

  -- The part of 0x10 after its checks.
  unfoldable pub enter_session :
      UdsConfig W → UdsState → Globals W → Session → ℕ → Bool → Option (UdsState × Globals W)
  enter_session c s g new_session subfunc suppress =
      elim (run_hook (session_hook c new_session) g) [
        | none ↦ none
        | some g' ↦ some (
          record s {
            session = new_session;
            security = locked;
            seed_sent = false;
            sa_fail_count = 0;
          },
          answer suppress (0x50 ∷ subfunc ∷ []) g',
        )
      ]

  unfoldable pub dispatch_0x10 :
      UdsConfig W → UdsState → Globals W → List ℕ → Option (UdsState × Globals W)
  dispatch_0x10 c s g req =
      if not (length req == 2)
      then some (s, refuse incorrect_message_length_or_invalid_format 0x10 g)
      else indexed req 1 (
          let subfunc = low_bits (get_or req 1 0) 7 in
          elim (session_from_u8 subfunc) [
            | none ↦ some (s, refuse sub_function_not_supported 0x10 g)
            | some new_session ↦
                if needs_sal1 new_session && ltb (security_as_u8 s.security) 1
                then some (s, refuse security_access_denied 0x10 g)
                else enter_session c s g new_session subfunc (has_bit (get_or req 1 0) 7)
          ])

  unfoldable pub dispatch_0x11 : UdsState → Globals W → List ℕ → Option (UdsState × Globals W)
  dispatch_0x11 s g req =
      if not (length req == 2)
      then some (s, refuse incorrect_message_length_or_invalid_format 0x11 g)
      else indexed req 1 (
          let subfunc = low_bits (get_or req 1 0) 7 in
          if subfunc == 0x01 || subfunc == 0x03
          then some (
            record s { sa_fail_count = 0 },
            answer (has_bit (get_or req 1 0) 7) (0x51 ∷ subfunc ∷ [])
                (record g { reset_requested = true; reset_subfunc = subfunc }),
          )
          else some (s, refuse sub_function_not_supported 0x11 g))

  unfoldable pub read_entry :
      DidReadEntry W → UdsState → Globals W → List ℕ → Option (UdsState × Globals W)
  read_entry e s g req =
      if not (session_allowed s.session e.session_access)
      then some (s, refuse service_not_supported_in_active_session 0x22 g)
      else if not (security_allowed s.security e.security_level)
      then some (s, refuse security_access_denied 0x22 g)
      else elim (e.func (replicate 64 0) g) [
        | none ↦ none
        | some (ok n, payload, g') ↦ some (s, store_response (read_answer req n payload) g')
        | some (err nrc, payload, g') ↦ some (s, refuse nrc 0x22 g')
      ]

  unfoldable pub dispatch_0x22 :
      UdsConfig W → UdsState → Globals W → List ℕ → Option (UdsState × Globals W)
  dispatch_0x22 c s g req =
      if not (length req == 3)
      then some (s, refuse incorrect_message_length_or_invalid_format 0x22 g)
      else indexed req 2 (
          let did = be16 (get_or req 1 0) (get_or req 2 0) in
          elim (find (λ e. e.did == did) c.read_dids) [
            | none ↦ some (s, refuse request_out_of_range 0x22 g)
            | some e ↦ read_entry e s g req
          ])

  unfoldable pub write_entry :
      DidWriteEntry W → UdsState → Globals W → List ℕ → Option (UdsState × Globals W)
  write_entry e s g req =
      if not (session_allowed s.session e.session_access)
      then some (s, refuse service_not_supported_in_active_session 0x2E g)
      else if not (security_allowed s.security e.security_level)
      then some (s, refuse security_access_denied 0x2E g)
      else elim (e.func (drop 3 req) g) [
        | none ↦ none
        | some (ok _, g') ↦
            some (s, store_response (0x6E ∷ get_or req 1 0 ∷ get_or req 2 0 ∷ []) g')
        | some (err nrc, g') ↦ some (s, refuse nrc 0x2E g')
      ]

  unfoldable pub dispatch_0x2e :
      UdsConfig W → UdsState → Globals W → List ℕ → Option (UdsState × Globals W)
  dispatch_0x2e c s g req =
      if ltb (length req) 3
      then some (s, refuse incorrect_message_length_or_invalid_format 0x2E g)
      else indexed req 2 (
          let did = be16 (get_or req 1 0) (get_or req 2 0) in
          elim (find (λ e. e.did == did) c.write_dids) [
            | none ↦ some (s, refuse request_out_of_range 0x2E g)
            | some e ↦ write_entry e s g req
          ])

  unfoldable pub dispatch_0x28 : UdsState → Globals W → List ℕ → Option (UdsState × Globals W)
  dispatch_0x28 s g req =
      if not (length req == 3)
      then some (s, refuse incorrect_message_length_or_invalid_format 0x28 g)
      else indexed req 2 (
          let suppress = has_bit (get_or req 1 0) 7 in
          let subfunc = low_bits (get_or req 1 0) 7 in
          if subfunc == 0x00
          then some (record s { tx_disabled = false }, answer suppress (0x68 ∷ 0x00 ∷ []) g)
          else if subfunc == 0x01
          then some (record s { tx_disabled = true }, answer suppress (0x68 ∷ 0x01 ∷ []) g)
          else if subfunc == 0x02
          then some (s, answer suppress (0x68 ∷ 0x02 ∷ []) g)
          else if subfunc == 0x03
          then some (record s { tx_disabled = true }, answer suppress (0x68 ∷ 0x03 ∷ []) g)
          else some (s, refuse sub_function_not_supported 0x28 g))

  abbrev pub routine_table : UdsConfig W → RoutineSub → List (RoutineEntry W)
  routine_table c start = c.routines_start
  routine_table c stop = c.routines_stop
  routine_table c result = c.routines_result

  unfoldable pub routine_entry :
      RoutineEntry W → UdsState → Globals W → List ℕ → Option (UdsState × Globals W)
  routine_entry e s g req =
      if not (session_allowed s.session e.session_access)
      then some (s, refuse sub_function_not_supported_in_active_session 0x31 g)
      else if not (security_allowed s.security e.security_level)
      then some (s, refuse security_access_denied 0x31 g)
      else elim (e.func (drop 4 req) (replicate 60 0) g) [
        | none ↦ none
        | some (ok resp_len, resp_buf, g') ↦ some (
          s,
          answer (has_bit (get_or req 1 0) 7)
              (0x71
                ∷ low_bits (get_or req 1 0) 7
                ∷ get_or req 2 0
                ∷ get_or req 3 0
                ∷ take (min resp_len 60) resp_buf)
              g',
        )
        | some (err nrc, resp_buf, g') ↦ some (s, refuse nrc 0x31 g')
      ]

  unfoldable pub dispatch_0x31 :
      UdsConfig W → UdsState → Globals W → List ℕ → RoutineSub → Option (UdsState × Globals W)
  dispatch_0x31 c s g req sub =
      if ltb (length req) 4
      then some (s, refuse incorrect_message_length_or_invalid_format 0x31 g)
      else indexed req 3 (
          let rid = be16 (get_or req 2 0) (get_or req 3 0) in
          elim (find (λ e. e.rid == rid) (routine_table c sub)) [
            | none ↦ some (s, refuse request_out_of_range 0x31 g)
            | some e ↦ routine_entry e s g req
          ])

  unfoldable pub dispatch_0x3e : UdsState → Globals W → List ℕ → Option (UdsState × Globals W)
  dispatch_0x3e s g req =
      if not (length req == 2)
      then some (s, refuse incorrect_message_length_or_invalid_format 0x3E g)
      else indexed req 1 (
          let subfunc = get_or req 1 0 in
          if low_bits subfunc 7 == 0x00
          then some (s, answer (has_bit subfunc 7) (0x7E ∷ 0x00 ∷ []) g)
          else some (s, refuse sub_function_not_supported 0x3E g))
