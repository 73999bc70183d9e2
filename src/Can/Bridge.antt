-- ===== src/Can/Bridge.antt =====
-- src/drivers/can/uds_bridge.rs: UDS requests and responses in CAN-FD frames.
-- `FdFrame::new_standard` belongs to the CAN crate and is the parameter `new_standard`, which gives no
-- frame where the crate refuses the data.
use rust_foc.Uds.Dispatch.{dispatch_sid}
use rust_foc.Uds.State.{load_response, Globals}
use rust_foc.Uds.Config.{Machine, Crates}
use rust_foc.Common.{
  arith, Bool-cases, Option-cases, ◌⊎◌, ◌≡◌, inl, inr, refl, ◌∷◌, [], some, none, false, get_or,
  low_bits, min, ◌∷◌, take, ◌&&◌, not, length, ◌||◌, leb, ltb, false, if◌then◌else◌, ◌==◌, Option,
  Bool, List, ℕ, none, some, [],
}

pub data FrameId : Type 0 where
  standard extended : ℕ → FrameId

pub record FdFrame : Type 0 where
  pub id : FrameId
  pub len : ℕ
  pub data_bytes : List ℕ

abbrev pub cob_id_functional_request : ℕ
cob_id_functional_request = 0x7DF

abbrev pub cob_id_physical_request : ℕ
cob_id_physical_request = 0x7E0

abbrev pub cob_id_physical_response : ℕ
cob_id_physical_response = 0x7E8

abbrev pub uds_frame_max : ℕ
uds_frame_max = 64

unfoldable pub functional_blocked : ℕ → List ℕ → Bool
functional_blocked sid request =
    if sid == 0x10
    then ltb 1 (length request) && leb 0x02 (low_bits (get_or request 1 0) 7)
    else sid == 0x11
      || sid == 0x27
      || sid == 0x28
      || sid == 0x2E
      || sid == 0x31
      || sid == 0x34
      || sid == 0x36
      || sid == 0x37

abbrev pub is_uds_request_id : ℕ → Bool
is_uds_request_id id = id == cob_id_functional_request || id == cob_id_physical_request

abbrev pub response_id_for_request : ℕ → ℕ
response_id_for_request _ = cob_id_physical_response

unfoldable pub is_uds_frame : FdFrame → Bool
is_uds_frame frame = elim frame.id [ extended _ ↦ false | standard id ↦ is_uds_request_id id ]

unfoldable pub parse_request_frame : FdFrame → List ℕ
parse_request_frame frame =
    if leb frame.len (length frame.data_bytes)
    then take frame.len frame.data_bytes
    else frame.data_bytes

module _ (new_standard : ℕ → List ℕ → Option FdFrame) {W : Type 0} where
  unfoldable pub build_response_frame : Globals W → ℕ → Option FdFrame
  build_response_frame g request_id =
      let (bytes, len) = load_response g in
      if len == 0
      then none
      else new_standard (response_id_for_request request_id) (take (min len uds_frame_max) bytes)

  -- The end of `handle_rx_frame`: the dispatch, then the response that stands in the buffer.
  unfoldable pub respond : Crates → Machine W → ℕ → List ℕ → ℕ → Option (Machine W × Option FdFrame)
  respond crates m id request now_ms = elim (dispatch_sid crates m request now_ms) [
    | none ↦ none
    | some m' ↦ some (m', build_response_frame m'.globals id)
  ]

  -- The outer `none` is a panic of the engine or of a callback.
  unfoldable pub handle_rx_frame :
      Crates → Machine W → FdFrame → ℕ → Option (Machine W × Option FdFrame)
  handle_rx_frame crates m frame now_ms = elim frame.id [
    | extended _ ↦ some (m, none)
    | standard id ↦
        if not (is_uds_request_id id) then some (m, none) else elim (parse_request_frame frame) [
          | [] ↦ some (m, none)
          | sid ∷ rest ↦
              if (id == cob_id_functional_request) && functional_blocked sid (sid ∷ rest)
              then some (m, none)
              else respond crates m id (sid ∷ rest) now_ms
        ]
  ]

pub List-cases : (xs : List ℕ) → (xs ≡ []) ⊎ ((a : ℕ) × (rest : List ℕ) × (xs ≡ a ∷ rest))
List-cases [] = inl refl
List-cases (a ∷ rest) = inr (a, rest, refl)

-- What became of a received frame: nothing, or a dispatch.
pub data Received {W : Type 0} (new_standard : ℕ → List ℕ → Option FdFrame) (crates : Crates)
    (m : Machine W) (id : ℕ) (frame : FdFrame) (now_ms : ℕ) (m' : Machine W)
    (reply : Option FdFrame) : Type 0 where
  dropped : m' ≡ m → reply ≡ none → Received new_standard crates m id frame now_ms m' reply
  dispatched :
      (sid : ℕ) (rest : List ℕ)
      → parse_request_frame frame ≡ sid ∷ rest
      → ((id == cob_id_functional_request) && functional_blocked sid (sid ∷ rest)) ≡ false
      → dispatch_sid crates m (sid ∷ rest) now_ms ≡ some m'
      → reply ≡ build_response_frame new_standard m'.globals id
      → Received new_standard crates m id frame now_ms m' reply

module _ (new_standard : ℕ → List ℕ → Option FdFrame) {W : Type 0} (crates : Crates) where
  respond_lem :
      (m : Machine W) (id : ℕ) (request : List ℕ) (now_ms : ℕ) {m' : Machine W}
      {reply : Option FdFrame}
      → respond new_standard crates m id request now_ms ≡ some (m', reply)
      → (dispatch_sid crates m request now_ms ≡ some m')
        × (reply ≡ build_response_frame new_standard m'.globals id)
  unfolding respond
  respond_lem m id request now_ms h = elim (Option-cases (dispatch_sid crates m request now_ms)) [
    | inl e ↦ absurd (ground arith)
    | inr (m'', e) ↦ ground arith
  ]

  pub handle_rx_frame-Received :
      (m : Machine W) (id : ℕ) (frame : FdFrame) (now_ms : ℕ) {m' : Machine W}
      {reply : Option FdFrame}
      → frame.id ≡ standard id
      → handle_rx_frame new_standard crates m frame now_ms ≡ some (m', reply)
      → Received new_standard crates m id frame now_ms m' reply
  unfolding handle_rx_frame
  handle_rx_frame-Received m id frame now_ms s h = elim (Bool-cases (is_uds_request_id id)) [
    | inr other ↦ dropped (ground arith) (ground arith)
    | inl ours ↦ elim (List-cases (parse_request_frame frame)) [
      | inl empty ↦ dropped (ground arith) (ground arith)
      | inr (sid, rest, e) ↦
          elim (Bool-cases
            ((id == cob_id_functional_request) && functional_blocked sid (sid ∷ rest))) [
              | inl blocked ↦ dropped (ground arith) (ground arith)
              | inr allowed ↦
                  let (d, b) = respond_lem m id (sid ∷ rest) now_ms (ground arith) in
                  dispatched sid rest e allowed d b
            ]
    ]
  ]
