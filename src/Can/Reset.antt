-- ===== src/Can/Reset.antt =====
-- src/drivers/can/canopen.rs: when the node resets.

use rust_foc.Uds.Pending.{tick}
use rust_foc.Can.Nmt.{nmt_cob_id}
use rust_foc.Uds.State.{load_response}
use rust_foc.Uds.Config.{Crates, Machine}
use rust_foc.Can.Bridge.{handle_rx_frame, is_uds_frame, cob_id_physical_response, FdFrame}
use rust_foc.Can.Task.{
  HasReset, optional_write, note_rx, standard_id, BusEvent, on_rx, iterate, on_event,
  send_completed, take_reset, Action, Node, on_heartbeat, send_reply, write_fd, write_heartbeat,
  sys_reset, received, bus_error, heartbeat_due,
}
use mathlib.Core.List.{append_assoc}
use rust_foc.Common.{
  subst, take, ◌==◌, sym, Option-cases, ◌∙◌, Bool-cases, ap, none, some, inl, inr, [], ◌∷◌, arith,
  some, ◌⊎◌, [], arith, ◌∷◌, ◌||◌, Bool, ◌++◌, ◌≡◌, Option, List, ℕ, refl, true, false,
}

abbrev pub resets : List Action → Bool
resets [] = false
resets (write_fd _ ∷ actions) = resets actions
resets (write_heartbeat _ ∷ actions) = resets actions
resets (sys_reset ∷ actions) = true

-- The actions end with a reply and then the reset.
pub data ReplyThenReset (actions : List Action) : Type 0 where
  reply_then_reset :
      (before : List Action) (reply : FdFrame)
      → actions ≡ before ++ write_fd reply ∷ sys_reset ∷ []
      → ReplyThenReset actions

pub resets-append : (xs ys : List Action) → resets (xs ++ ys) ≡ (resets xs || resets ys)
resets-append [] ys = refl
resets-append (write_fd _ ∷ xs) ys = resets-append xs ys
resets-append (write_heartbeat _ ∷ xs) ys = resets-append xs ys
resets-append (sys_reset ∷ xs) ys = refl

module _ {W : Type 0} ⦃ota : HasReset W⦄ where
  send_reply-resets :
      (m : Machine W) (reply : Option FdFrame)
      → resets (send_reply m reply).1 ≡ true
      → ReplyThenReset (send_reply m reply).1
        × ((m.globals.reset_requested ≡ true) ⊎ ((ota.take_ota_reset m.globals.world).0 ≡ true))
  unfolding send_reply take_reset
  send_reply-resets m none h = absurd (ground arith)
  send_reply-resets m (some reply) h = elim (Bool-cases m.globals.reset_requested) [
    | inl uds ↦ (reply_then_reset [] reply (ground arith), inl uds)
    | inr not_uds ↦ elim (Bool-cases (ota.take_ota_reset m.globals.world).0) [
      | inl armed ↦ (reply_then_reset [] reply (ground arith), inr armed)
      | inr not_ota ↦ absurd (ground arith)
    ]
  ]

  pub on_heartbeat-quiet : (n : Node W) (at : ℕ) → resets (on_heartbeat n at).1 ≡ false
  unfolding on_heartbeat
  on_heartbeat-quiet n at = ground arith

optional_write-quiet : (frame : Option FdFrame) → resets (optional_write frame) ≡ false
optional_write-quiet none = refl
optional_write-quiet (some frame) = refl

ReplyThenReset-append :
    (before actions : List Action) → ReplyThenReset actions → ReplyThenReset (before ++ actions)
ReplyThenReset-append before actions (reply_then_reset earlier reply e) =
    reply_then_reset (before ++ earlier) reply (
      ap (λ xs. before ++ xs) e
      ∙ sym (append_assoc before earlier (write_fd reply ∷ sys_reset ∷ [])))

module _ (new_standard : ℕ → List ℕ → Option FdFrame) {W : Type 0} ⦃ota : HasReset W⦄ where
  pub send_completed-quiet : (m : Machine W) → resets (send_completed new_standard m).1 ≡ false
  unfolding send_completed
  send_completed-quiet m =
      let (bytes, len) = load_response m.globals in
      ground (arith, optional_write-quiet (new_standard cob_id_physical_response (take len bytes)))

  on_rx-resets :
      (crates : Crates) (n : Node W) (frame : FdFrame) (at now : ℕ) {n' : Node W}
      {actions : List Action}
      → on_rx new_standard crates n frame at now ≡ some (n', actions)
      → resets actions ≡ true
      → ReplyThenReset actions
  unfolding on_rx
  on_rx-resets crates n frame at now {actions = actions} h r =
      elim (Bool-cases (standard_id frame.id == nmt_cob_id)) [
        | inl nmt ↦ absurd (ground arith)
        | inr other ↦ elim (Bool-cases (is_uds_frame frame)) [
          | inr foreign ↦ absurd (ground arith)
          | inl uds ↦
              elim (Option-cases
                (handle_rx_frame new_standard crates (note_rx n at).machine frame now)) [
                  | inl e ↦ absurd (ground arith)
                  | inr ((m, reply), e) ↦
                      let same : (send_reply m reply).1 ≡ actions = ground arith in
                      subst ReplyThenReset same (send_reply-resets m reply (ap resets same ∙ r)).0
                ]
        ]
      ]

  on_event-resets :
      (crates : Crates) (n : Node W) (event : BusEvent) (now : ℕ) {n' : Node W}
      {actions : List Action}
      → on_event new_standard crates n event now ≡ some (n', actions)
      → resets actions ≡ true
      → ReplyThenReset actions
  unfolding on_event
  on_event-resets crates n (received frame at) now h r = on_rx-resets crates n frame at now h r
  on_event-resets crates n bus_error now h r = absurd (ground arith)
  on_event-resets crates n (heartbeat_due at) now h r =
      absurd (ground (arith, on_heartbeat-quiet n at))

  -- Whatever an iteration of the task does, a reset of the chip is its last action and comes straight
  -- after the transmission of a reply.
  pub iterate-reset_after_reply :
      (crates : Crates) (n : Node W) (now : ℕ) (event : BusEvent) {n' : Node W}
      {actions : List Action}
      → iterate new_standard crates n now event ≡ some (n', actions)
      → resets actions ≡ true
      → ReplyThenReset actions
  unfolding iterate
  iterate-reset_after_reply crates n now event {actions = actions} h r =
      elim (Option-cases (tick n.machine now)) [
        | inl e ↦ absurd (ground arith)
        | inr (ticked, e) ↦
            let (m, sent) = send_completed new_standard ticked in
            elim (Option-cases
              (on_event new_standard crates (record n { machine = m }) event now)) [
                | inl e' ↦ absurd (ground arith)
                | inr ((n'', later), e') ↦
                    let same : sent ++ later ≡ actions = ground arith in
                    let quiet : resets sent ≡ false = send_completed-quiet ticked in
                    let last : resets later ≡ true =
                      ground (arith, resets-append sent later, same, quiet) in
                    subst ReplyThenReset same (
                      ReplyThenReset-append sent later
                        (on_event-resets crates (record n { machine = m }) event now e' last))
              ]
      ]
