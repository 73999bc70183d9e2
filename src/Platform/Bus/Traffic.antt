-- ===== src/Platform/Bus/Traffic.antt =====
-- src/drivers/can/canopen.rs: an update over the bus, among any other traffic.
use rust_foc.Common.{
  ℕ, ◌/◌, ◌%◌, false, List, [], ◌∷◌, ◌++◌, Option, ◌≡◌, refl, ◌∙◌, arith, length, wrapping_add8,
}
use rust_foc.Can.Bridge.{FdFrame}
use rust_foc.Can.Loop.{Task, Turn, turns}
use rust_foc.Can.Reset.{resets, resets-append}
use rust_foc.Can.Task.{iterate}
use rust_foc.Foc.Total.{Yields, Yields->>=}
use rust_foc.Ota.Flash.{FlashDevice}
use rust_foc.Ota.Handlers.{Ota, handle_request_download}
use rust_foc.Ota.Image.{image_of, send_blocks}
use rust_foc.Platform.Bus.{Carries, asks, board_reset, passes, silence}
use rust_foc.Platform.Bus.Calm.{IsCalm, IsCalm-Settles, Settles, after}
use rust_foc.Platform.Tables.{Board}
use rust_foc.Platform.Updates.{Request, block, download}
use rust_foc.Uds.Config.{Crates}
use rust_foc.Uds.Pending.{tick}
use rust_foc.Uds.Types.{idle}
use rust_foc.Platform.Bus.Turns.{
  Leaves, on_event-request, on_event-foreign, turn-Yields, iterate-Leaves,
}

abbrev pub block_requests : ℕ → List (ℕ × ℕ) → List Request
block_requests seq [] = []
block_requests seq ((a, b) ∷ blocks) = block seq a b ∷ block_requests (wrapping_add8 seq 1) blocks

-- RequestDownload with the size of the image, then one TransferData for each two bytes.
abbrev pub image_requests : List (ℕ × ℕ) → List Request
image_requests blocks =
    let n = length (image_of blocks) in
    download (n % 256) (n / 256 % 256) (n / 65536 % 256) (n / 16777216 % 256)
    ∷ block_requests 1 blocks

module _ {F R : Type 0} (dev : FlashDevice F) (random_word : R → Option (List ℕ) × R)
    (new_standard : ℕ → List ℕ → Option FdFrame) (crates : Crates) where
  after_all : List Request → Ota F → Ota F
  after_all [] o = o
  after_all (x ∷ xs) o = after_all xs (after dev random_word x o)

  turns-first :
      (o o' : Ota F) (t : Task (Board F R)) (x : Turn) (ts : List Turn)
      → Yields
          (iterate new_standard crates t.node x.now x.event)
          (Leaves dev random_word new_standard crates o)
      → ((t' : Task (Board F R))
          → Settles dev random_word o t'.node.machine
          → Yields
              (turns new_standard crates t' ts)
              (λ r. Leaves dev random_word new_standard crates o' (r.0.node, r.1)))
      → Yields
          (turns new_standard crates t (x ∷ ts))
          (λ r. Leaves dev random_word new_standard crates o' (r.0.node, r.1))
  unfolding turns
  turns-first o o' t x ts ran later =
      Yields->>= _ _ _ _
        (turn-Yields dev random_word new_standard crates t x
          (Leaves dev random_word new_standard crates o) ran)
        (λ (t', sent) (settles, quiet).
          Yields->>= _ _ _ _ (later t' settles) (λ (t'', more) (settles', quiet'). (
            (t'', sent ++ more),
            refl,
            (settles', resets-append sent more ∙ ground (arith, quiet, quiet')),
          )))

  turns-Leaves :
      (o : Ota F) (t : Task (Board F R)) (ts : List Turn) (xs : List Request)
      → Carries ts xs
      → Settles dev random_word o t.node.machine
      → Yields
          (turns new_standard crates t ts)
          (λ r. Leaves dev random_word new_standard crates (after_all xs o) (r.0.node, r.1))
  unfolding turns after_all
  turns-Leaves o t _ _ silence settles = (_, refl, (settles, refl))
  turns-Leaves o t _ _ (asks x request at ts xs e carries) settles =
      let next = after dev random_word request o in
      turns-first next _ t x ts
        (iterate-Leaves dev random_word new_standard crates o next t.node x.now x.event settles
          (λ m calm.
            on_event-request dev random_word new_standard crates o _ x.event request at x.now e
              calm))
        (λ t' settles'. turns-Leaves next t' ts xs carries settles')
  turns-Leaves o t _ _ (passes x ts xs foreign carries) settles =
      turns-first o _ t x ts
        (iterate-Leaves dev random_word new_standard crates o o t.node x.now x.event settles
          (λ m calm.
            on_event-foreign dev random_word new_standard crates o _ x.event x.now foreign calm))
        (λ t' settles'. turns-Leaves o t' ts xs carries settles')

  after_all-send_blocks :
      (o : Ota F) (seq : ℕ) (blocks : List (ℕ × ℕ))
      → after_all (block_requests seq blocks) o ≡ send_blocks dev o seq blocks
  unfolding after_all send_blocks
  after_all-send_blocks o seq [] = refl
  after_all-send_blocks o seq ((a, b) ∷ blocks) =
      after_all-send_blocks (after dev random_word (block seq a b) o) (wrapping_add8 seq 1) blocks

  -- On the platform's own tables, with the engine idle in the programming session and unlocked and no
  -- reset armed: turns of the task whose events are the requests of an image in their order, one
  -- frame each, between any others that are not for the engine (heartbeats, errors of the bus, frames
  -- to other identifiers), at any times, never panic and never reset the chip; and the tick that
  -- follows, at any time, leaves the update module exactly as the same calls of its handlers without
  -- the bus and the engine do, and the engine idle.
  pub turns-send_blocks :
      (o : Ota F) (t : Task (Board F R)) (ts : List Turn) (blocks : List (ℕ × ℕ))
      → IsCalm dev random_word o t.node.machine
      → Carries ts (image_requests blocks)
      → let n = length (image_of blocks) in
        let size = n % 256 ∷ n / 256 % 256 ∷ n / 65536 % 256 ∷ n / 16777216 % 256 ∷ [] in
        let started = (handle_request_download dev o (0x00 ∷ size)).0 in
        Yields (turns new_standard crates t ts) (λ r.
          (resets r.1 ≡ false)
          × ((now : ℕ)
              → Yields (tick r.0.node.machine now) (λ m.
                (m.globals.world.ota ≡ send_blocks dev started 1 blocks) × (m.state.state ≡ idle))))
  unfolding after_all
  turns-send_blocks o t ts blocks calm carries =
      let n = length (image_of blocks) in
      let first = download (n % 256) (n / 256 % 256) (n / 65536 % 256) (n / 16777216 % 256) in
      let started = after dev random_word first o in
      let (r, e, (settles, quiet)) =
        turns-Leaves o t ts (image_requests blocks) carries
          (IsCalm-Settles dev random_word o t.node.machine calm) in
      (
        r,
        e,
        (
          quiet,
          λ now.
              let (m, e', after_it) = settles now in
              (m, e', (after_it.ota ∙ after_all-send_blocks started 1 blocks, after_it.free)),
        ),
      )
