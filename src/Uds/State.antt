-- ===== src/Uds/State.antt =====
-- uds-core/src/state.rs: the engine's mutable state and the shared response buffer.
-- `Globals` gathers the statics of the crate that the services write (RESPONSE_BUF, RESPONSE_LEN,
-- RESET_REQUESTED, RESET_SUBFUNC, DTCS, the seed COUNTER), the `Cell` of key masks in `UdsConfig`,
-- and the platform's own state `W`, which only the platform's callbacks touch.
use rust_foc.Common.{
  ℕ, ◌-◌, ◌%◌, min, Bool, false, List, ◌++◌, Option, length, take, drop, replicate,
}
use rust_foc.Uds.Types.{Session, SecurityLevel, SrvState, default, locked, idle}

-- A 16-byte block: a seed, a key, or key material.
abbrev pub AesBlock : Type 0
AesBlock = List ℕ

pub record UdsState : Type 0 where
  pub session : Session
  pub security : SecurityLevel
  pub seed_sent : Bool
  pub current_seed : AesBlock
  pub state : SrvState
  pub request_buf : List ℕ
  pub request_len : ℕ
  pub response_pending : Bool
  pub request_tick_ms : ℕ
  pub tx_disabled : Bool
  pub sa_fail_count : ℕ
  pub pending_sid : ℕ

abbrev pub zeroed : UdsState
zeroed = record {
  session = default;
  security = locked;
  seed_sent = false;
  current_seed = replicate 16 0;
  state = idle;
  request_buf = replicate 64 0;
  request_len = 0;
  response_pending = false;
  request_tick_ms = 0;
  tx_disabled = false;
  sa_fail_count = 0;
  pending_sid = 0;
}

pub record DtcRecord : Type 0 where
  pub code : ℕ
  pub status : ℕ

pub record Globals (W : Type 0) : Type 0 where
  pub response_buf : List ℕ
  pub response_len : ℕ
  pub reset_requested : Bool
  pub reset_subfunc : ℕ
  pub dtcs : List (Option DtcRecord)
  pub seed_counter : ℕ
  pub key_masks : List AesBlock
  pub world : W

abbrev pub response_buf_size : ℕ
response_buf_size = 64

module _ {W : Type 0} where
  -- The first `len` bytes of the buffer are overwritten; the rest keeps what it held.
  unfoldable pub store_response : List ℕ → Globals W → Globals W
  store_response payload g =
      let len = min (length payload) response_buf_size in
      record g {
        response_buf = take len payload ++ drop len g.response_buf;
        response_len = len % 256;
      }

  unfoldable pub load_response : Globals W → List ℕ × ℕ
  load_response g =
      let n = min g.response_len 64 in
      (take n g.response_buf ++ replicate (64 - n) 0, g.response_len)

  -- What a transport sends: `&bytes[..len]` of the loaded response.
  unfoldable pub response : Globals W → List ℕ
  unfolding load_response
  response g = let (bytes, len) = load_response g in take len bytes
