-- ===== src/Uds/Config.antt =====
-- uds-core/src/table.rs: the shape of the service tables, `UdsConfig`, and the access checks.
-- A callback of the platform acts on `Globals`; `none` is a panic in it. `Crates` holds what the
-- code takes from the `aes` and `subtle` crates, with the documented law of `ct_eq`.
use rust_foc.Common.{
  ℕ, ◌-◌, ◌^◌, Bool, true, not, List, Option, ◌≡◌, ◌↔◌, ◌==◌, leb, if◌then◌else◌, bit_and,
}
use rust_foc.Uds.Types.{Session, SecurityLevel, Nrc, session_as_u8, security_as_u8}
use rust_foc.Uds.State.{AesBlock, UdsState, Globals}

pub record Crates : Type 0 where
  -- `Aes128::new(key)` then `encrypt_block(block)`
  pub encrypt_block : AesBlock → AesBlock → AesBlock
  pub ct_eq : List ℕ → List ℕ → Bool
  pub ct_eq_iff : (a b : List ℕ) → (ct_eq a b ≡ true) ↔ (a ≡ b)

pub data Result (A : Type 0) : Type 0 where
  ok : A → Result A
  err : Nrc → Result A

pub data ServiceHandler : Type 0 where
  session ecu_reset clear_dtc read_dtc read_data_by_id write_data_by_id : ServiceHandler
  comm_control security_access routine_start routine_stop routine_result : ServiceHandler
  request_download transfer_data transfer_exit tester_present : ServiceHandler

pub record ServiceEntry : Type 0 where
  pub sid : ℕ
  pub session_access : ℕ
  pub security_level : ℕ
  pub handler : ServiceHandler

-- `fn(out: &mut [u8; 64]) -> Result<usize, Nrc>`: the buffer comes back beside the result.
pub record DidReadEntry (W : Type 0) : Type 0 where
  pub did : ℕ
  pub session_access : ℕ
  pub security_level : ℕ
  pub func : List ℕ → Globals W → Option (Result ℕ × List ℕ × Globals W)

pub record DidWriteEntry (W : Type 0) : Type 0 where
  pub did : ℕ
  pub session_access : ℕ
  pub security_level : ℕ
  pub func : List ℕ → Globals W → Option (Result (Unit {0}) × Globals W)

pub record RoutineEntry (W : Type 0) : Type 0 where
  pub rid : ℕ
  pub session_access : ℕ
  pub security_level : ℕ
  pub func : List ℕ → List ℕ → Globals W → Option (Result ℕ × List ℕ × Globals W)

pub data RoutineSub : Type 0 where
  start stop result : RoutineSub

-- `fn(&mut UdsContext)`: the state that the closure leaves, and the `complete` flag it sets.
abbrev pub PendingFn : Type 0 → Type 0
PendingFn W = UdsState → Globals W → Option (UdsState × Globals W × Bool)

pub record UdsConfig (W : Type 0) : Type 0 where
  pub services : List ServiceEntry
  pub read_dids : List (DidReadEntry W)
  pub write_dids : List (DidWriteEntry W)
  pub routines_start : List (RoutineEntry W)
  pub routines_stop : List (RoutineEntry W)
  pub routines_result : List (RoutineEntry W)
  pub pending_queue : List (Option (PendingFn W))
  pub p2_server_ms : ℕ
  pub request_timeout_ms : ℕ
  pub sa_max_attempts : ℕ
  pub on_default_session_enter : Option (Globals W → Option (Globals W))
  pub on_programming_session_enter : Option (Globals W → Option (Globals W))
  pub on_extended_session_enter : Option (Globals W → Option (Globals W))
  pub seed_fn : Option (Globals W → Option (AesBlock × Globals W))
  pub key_fn : Option (AesBlock → AesBlock → Globals W → Option (AesBlock × Globals W))
  pub request_download_fn : Option (PendingFn W)
  pub transfer_data_fn : Option (PendingFn W)
  pub transfer_exit_fn : Option (PendingFn W)

-- What one call of the engine reads and writes.
pub record Machine (W : Type 0) : Type 0 where
  pub config : UdsConfig W
  pub state : UdsState
  pub globals : Globals W

-- `1 << (s - 1)`
abbrev pub session_bit : Session → ℕ
session_bit s = 2 ^ (session_as_u8 s - 1)

unfoldable pub session_allowed : Session → ℕ → Bool
session_allowed s access = if access == 0 then true else not (bit_and access (session_bit s) == 0)

unfoldable pub security_allowed : SecurityLevel → ℕ → Bool
security_allowed s required = leb required (security_as_u8 s)
