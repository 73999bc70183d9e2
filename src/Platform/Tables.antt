-- ===== src/Platform/Tables.antt =====
-- src/uds/static_config.rs: the one instance of the engine's configuration. A callback that borrows
-- UDS_STATE or UDS_CONFIG takes the RefCell, whose borrow panics while it is held; `dispatch`
-- (src/uds/mod.rs) holds both mutably around every callback.
use rust_foc.Platform.Keys.{decode_keys, store}
use rust_foc.Uds.Types.{session_as_u8}
use rust_foc.Uds.State.{UdsState}
use rust_foc.Uds.Security.{fallback_seed}
use rust_foc.Ota.Handlers.{handle_request_download, handle_transfer_exit, handle_transfer_data, Ota}
use rust_foc.Ota.Flash.{FlashDevice}
use rust_foc.Common.{
  set, zero, suc, suc, ℕ, Bool, true, not, List, [], ◌∷◌, ◌++◌, Option, none, some, ◌==◌, ◌&&◌,
  if◌then◌else◌, length, take, drop, ◌>>=◌,
}
use rust_foc.Uds.Types.{request_out_of_range, incorrect_message_length_or_invalid_format}
use rust_foc.Uds.State.{AesBlock, Globals, store_response}
use rust_foc.Uds.Config.{
  ServiceEntry, ServiceHandler, RoutineEntry, UdsConfig, PendingFn, Result, ok, err, session,
  ecu_reset, clear_dtc, read_dtc, read_data_by_id, security_access, comm_control, write_data_by_id,
  routine_start, request_download, transfer_data, transfer_exit, tester_present,
}

-- A RefCell with its value, or one that is mutably borrowed.
pub data Cell (A : Type 0) : Type 0 where
  free : A → Cell A
  held : Cell A

-- `borrow_ref` and `borrow_ref_mut`, which panic.
abbrev pub borrow : {A : Type 0} → Cell A → Option A
borrow (free a) = some a
borrow held = none

-- The state of the update handlers, and of the random number generator.
pub record Board (F R : Type 0) : Type 0 where
  pub ota : Ota F
  pub rng : R

abbrev pub service : ℕ → ℕ → ℕ → ServiceHandler → ServiceEntry
service sid access level handler = record {
  sid = sid;
  session_access = access;
  security_level = level;
  handler = handler;
}

abbrev pub services_table : List ServiceEntry
services_table =
    service 0x10 7 0 session
    ∷ service 0x11 7 0 ecu_reset
    ∷ service 0x14 7 0 clear_dtc
    ∷ service 0x19 7 0 read_dtc
    ∷ service 0x22 7 0 read_data_by_id
    ∷ service 0x27 7 0 security_access
    ∷ service 0x28 7 0 comm_control
    ∷ service 0x2E 7 0 write_data_by_id
    ∷ service 0x31 7 0 routine_start
    ∷ service 0x34 2 1 request_download
    ∷ service 0x36 2 1 transfer_data
    ∷ service 0x37 2 1 transfer_exit
    ∷ service 0x3E 7 0 tester_present
    ∷ []

-- The masks that the firmware is built with.
abbrev pub default_key_masks : List AesBlock
default_key_masks =
    (0x30 ∷ 0x00 ∷ 0x22 ∷ 0x12 ∷ 0xAB ∷ 0xCD ∷ 0xEF ∷ 0x01 ∷ 0x23 ∷ 0x45 ∷ 0x67 ∷ 0x89 ∷ 0x01 ∷ 0x23
      ∷ 0x45 ∷ 0x67 ∷ [])
    ∷ (0x52 ∷ 0x4C ∷ 0x5E ∷ 0x63 ∷ 0xDE ∷ 0xAD ∷ 0xBE ∷ 0xEF ∷ 0x12 ∷ 0x34 ∷ 0x56 ∷ 0x78 ∷ 0x9A
        ∷ 0xBC ∷ 0xDE ∷ 0xF0 ∷ [])
    ∷ (0xA5 ∷ 0xC3 ∷ 0xF1 ∷ 0x1B ∷ 0xCA ∷ 0xFE ∷ 0xBA ∷ 0xBE ∷ 0x34 ∷ 0x56 ∷ 0x78 ∷ 0x9A ∷ 0xBC
        ∷ 0xDE ∷ 0xF0 ∷ 0x12 ∷ [])
    ∷ []

abbrev pub all_zero : List ℕ → Bool
all_zero [] = true
all_zero (b ∷ bytes) = b == 0 && all_zero bytes

module _ {F R : Type 0} (dev : FlashDevice F) (random_word : R → Option (List ℕ) × R) where
  abbrev pub BoardGlobals : Type 0
  BoardGlobals = Globals (Board F R)

  unfoldable pub read_active_session :
      Cell UdsState → List ℕ → BoardGlobals → Option (Result ℕ × List ℕ × BoardGlobals)
  read_active_session uds_state out g =
      borrow uds_state >>= λ s. some (ok 1, set out 0 (session_as_u8 s.session), g)

  -- The three masks are looked at in turn; then they are put into UDS_CONFIG, whose `key_masks` stand
  -- in the globals, and into flash, where a failure is only logged.
  unfoldable pub write_key_masks :
      Cell (Unit {0}) → List ℕ → BoardGlobals → Option (Result (Unit {0}) × BoardGlobals)
  write_key_masks uds_config bytes g =
      if not (length bytes == 48)
      then some (err incorrect_message_length_or_invalid_format, g)
      else if all_zero (take 16 bytes)
      then some (err request_out_of_range, g)
      else if all_zero (take 16 (drop 16 bytes))
      then some (err request_out_of_range, g)
      else if all_zero (drop 32 bytes)
      then some (err request_out_of_range, g)
      else borrow uds_config >>= λ _.
          let masks = decode_keys 3 bytes in
          let flash = (store dev g.world.ota.flash masks).0 in
          some (
            ok tt,
            record g {
              key_masks = masks;
              world = record g.world { ota = record g.world.ota { flash = flash } };
            },
          )

  abbrev pub routine_noop :
      List ℕ → List ℕ → BoardGlobals → Option (Result ℕ × List ℕ × BoardGlobals)
  routine_noop req resp g = some (ok 0, resp, g)

  -- `resp[0]` panics where the slice is empty.
  abbrev pub routine_check_pre :
      List ℕ → List ℕ → BoardGlobals → Option (Result ℕ × List ℕ × BoardGlobals)
  routine_check_pre req [] g = none
  routine_check_pre req (_ ∷ resp) g = some (ok 1, 0x00 ∷ resp, g)

  -- The random words of a seed; `none` when one of them does not come in time.
  unfoldable pub rng_words : ℕ → R → Option (List ℕ) × R
  rng_words zero r = (some [], r)
  rng_words (suc n) r =
      let (word, r') = random_word r in
      let rest = rng_words n r' in
      elim word [
        | none ↦ (none, r')
        | some bytes ↦ (rest.0 >>= λ more. some (bytes ++ more), rest.1)
      ]

  unfoldable pub rng_seed : BoardGlobals → Option (AesBlock × BoardGlobals)
  rng_seed g =
      let (seed, r) = rng_words 4 g.world.rng in
      let g' : BoardGlobals = record g { world = record g.world { rng = r } } in
      elim seed [ none ↦ some (fallback_seed g') | some bytes ↦ some (bytes, g') ]

  -- `&req[1..]` panics on an empty request. The handler stores its response.
  unfoldable pub ota_job : (Ota F → List ℕ → Ota F × List ℕ) → PendingFn (Board F R)
  ota_job handler s g = elim (take s.request_len s.request_buf) [
    | [] ↦ none
    | _ ∷ payload ↦
        let (o, reply) = handler g.world.ota payload in
        some (s, store_response reply (record g { world = record g.world { ota = o } }), true)
  ]

  unfoldable pub ota_request_download : PendingFn (Board F R)
  ota_request_download = ota_job (handle_request_download dev)

  unfoldable pub ota_transfer_data : PendingFn (Board F R)
  ota_transfer_data = ota_job (handle_transfer_data dev)

  unfoldable pub ota_transfer_exit : PendingFn (Board F R)
  ota_transfer_exit s g =
      let (o, reply) = handle_transfer_exit dev g.world.ota [] in
      some (s, store_response reply (record g { world = record g.world { ota = o } }), true)

  abbrev pub routine :
      ℕ
      → ℕ
      → ℕ
      → (List ℕ → List ℕ → BoardGlobals → Option (Result ℕ × List ℕ × BoardGlobals))
      → RoutineEntry (Board F R)
  routine rid access level func = record {
    rid = rid;
    session_access = access;
    security_level = level;
    func = func;
  }

  abbrev pub uds_config : UdsConfig (Board F R)
  uds_config = record {
    services = services_table;
    read_dids =
        record {
          did = 0xF186;
          session_access = 7;
          security_level = 0;
          func = read_active_session held;
        }
        ∷ [];
    write_dids =
        record { did = 0xF180; session_access = 3; security_level = 2; func = write_key_masks held }
        ∷ [];
    routines_start = routine 0xFF00 3 1 routine_noop ∷ [];
    routines_stop = routine 0xFF00 3 1 routine_noop ∷ [];
    routines_result = routine 0xF001 7 0 routine_check_pre ∷ [];
    pending_queue = none ∷ none ∷ none ∷ none ∷ [];
    p2_server_ms = 50;
    request_timeout_ms = 5000;
    sa_max_attempts = 3;
    on_default_session_enter = none;
    on_programming_session_enter = none;
    on_extended_session_enter = none;
    seed_fn = some rng_seed;
    key_fn = none;
    request_download_fn = some ota_request_download;
    transfer_data_fn = some ota_transfer_data;
    transfer_exit_fn = some ota_transfer_exit;
  }
