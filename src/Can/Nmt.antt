-- ===== src/Can/Nmt.antt =====
-- src/drivers/can/canopen.rs: the NMT state of the node. `Frame::new_standard` belongs to the CAN
-- crate; a heartbeat frame is its identifier and its data.
use rust_foc.Can.Bridge.{FdFrame}
use rust_foc.Common.{
  refl, ◌∷◌, [], some, none, ◌||◌, get_or, ◌&&◌, ◌==◌, leb, arith, ◌∷◌, ◌≢◌, if◌then◌else◌, List,
  ◌+◌, Option, ℕ, none, some, [],
}

abbrev pub node_id : ℕ
node_id = 1

abbrev pub heartbeat_cob_id : ℕ
heartbeat_cob_id = 0x700 + node_id

abbrev pub nmt_cob_id : ℕ
nmt_cob_id = 0x000

pub data NmtState : Type 0 where
  booting pre_operational operational stopped : NmtState

unfoldable pub heartbeat_byte : NmtState → ℕ
heartbeat_byte booting = 0x00
heartbeat_byte stopped = 0x04
heartbeat_byte operational = 0x05
heartbeat_byte pre_operational = 0x7F

unfoldable pub apply_nmt_command : NmtState → ℕ → Option NmtState
apply_nmt_command _ cmd =
    if cmd == 0x01
    then some operational
    else if cmd == 0x02
    then some stopped
    else if cmd == 0x80
    then some pre_operational
    else none

-- The identifier and the data of the frame.
abbrev pub build_heartbeat_frame : NmtState → ℕ × List ℕ
build_heartbeat_frame state = (heartbeat_cob_id, heartbeat_byte state ∷ [])

-- The arm of `canopen_task` for a frame on `nmt_cob_id`: `[cmd, node_id]`. The crate's frame holds at
-- least `len` bytes.
unfoldable pub on_nmt_frame : NmtState → FdFrame → NmtState
unfolding apply_nmt_command
on_nmt_frame state frame =
    let bytes = frame.data_bytes in
    if leb 2 frame.len && (get_or bytes 1 0 == node_id || get_or bytes 1 0 == 0x00)
    then elim (apply_nmt_command state (get_or bytes 0 0)) [ none ↦ state | some next ↦ next ]
    else state

abbrev pub on_nmt_frames : NmtState → List FdFrame → NmtState
on_nmt_frames state [] = state
on_nmt_frames state (frame ∷ frames) = on_nmt_frames (on_nmt_frame state frame) frames

pub on_nmt_frame-running :
    (state : NmtState) (frame : FdFrame) → state ≢ booting → on_nmt_frame state frame ≢ booting
unfolding on_nmt_frame apply_nmt_command
on_nmt_frame-running state frame h e = ground arith

-- Once a node has left `booting`, no sequence of NMT frames makes its heartbeat the boot-up byte
-- again.
heartbeat_byte-on_nmt_frames :
    (state : NmtState) (frames : List FdFrame)
    → state ≢ booting
    → heartbeat_byte (on_nmt_frames state frames) ≢ heartbeat_byte booting
unfolding heartbeat_byte
heartbeat_byte-on_nmt_frames booting [] h e = h refl
heartbeat_byte-on_nmt_frames pre_operational [] h e = omega (arith, e)
heartbeat_byte-on_nmt_frames operational [] h e = omega (arith, e)
heartbeat_byte-on_nmt_frames stopped [] h e = omega (arith, e)
heartbeat_byte-on_nmt_frames state (frame ∷ frames) h e =
    heartbeat_byte-on_nmt_frames (on_nmt_frame state frame) frames
      (on_nmt_frame-running state frame h) e
