-- ===== src/Platform/Bus/Stored.antt =====
-- src/drivers/can/canopen.rs, src/ota/mod.rs: what an update over the bus leaves in the flash.
use rust_foc.Common.{ℕ, ◌-◌, ◌%◌, ◌<◌, ◌≤◌, List, Option, ◌≡◌, sym, subst, length, take}
use rust_foc.Can.Bridge.{FdFrame}
use rust_foc.Can.Loop.{Task, Turn, turns}
use rust_foc.Foc.Total.{Yields}
use rust_foc.Ota.Device.{Behaves}
use rust_foc.Ota.Flash.{FlashDevice, read_bytes}
use rust_foc.Ota.Handlers.{Ota, dfu_end, dfu_start, idle, receiving}
use rust_foc.Ota.Image.{image_of, send_blocks-stored}
use rust_foc.Platform.Bus.{Carries, board_reset}
use rust_foc.Platform.Bus.Calm.{IsCalm}
use rust_foc.Platform.Bus.Traffic.{image_requests, turns-send_blocks}
use rust_foc.Platform.Tables.{Board}
use rust_foc.Uds.Config.{Crates}
use rust_foc.Uds.Pending.{tick}

module _ {F R : Type 0} (dev : FlashDevice F) (random_word : R → Option (List ℕ) × R)
    (new_standard : ℕ → List ℕ → Option FdFrame) (crates : Crates) where
  -- On flash hardware that behaves as documented and the platform's own tables, with the engine idle
  -- in the programming session and unlocked, no reset armed, no transfer begun and an image that is
  -- not empty and fits the partition: any turns of the task that carry the requests of the image in
  -- their order, between any events that are not for the engine, never panic; and after the next
  -- tick the transfer has no bytes left, and the whole words of the image stand at the start of the
  -- partition.
  pub turns-stored :
      Behaves dev
      → (o : Ota F) (t : Task (Board F R)) (ts : List Turn) (blocks : List (ℕ × ℕ))
      → IsCalm dev random_word o t.node.machine
      → o.state ≡ idle
      → 0 < length blocks
      → length (image_of blocks) ≤ dfu_end - dfu_start
      → Carries ts (image_requests blocks)
      → let n = length (image_of blocks) in
        Yields (turns new_standard crates t ts) (λ r.
          (now : ℕ)
          → Yields (tick r.0.node.machine now) (λ m.
            let o' = m.globals.world.ota in
            (o'.state ≡ receiving)
            × (o'.remaining ≡ 0)
            × (read_bytes dev o'.flash dfu_start (n - n % 8) ≡ take (n - n % 8) (image_of blocks))))
  turns-stored behaves o t ts blocks calm free pos fits carries =
      let n = length (image_of blocks) in
      let (r, e, (quiet, ticks)) =
        turns-send_blocks dev random_word new_standard crates o t ts blocks calm carries in
      (
        r,
        e,
        λ now.
            let (m, e', (ota, _)) = ticks now in
            (
              m,
              e',
              subst
                  (λ o'.
                    (o'.state ≡ receiving)
                    × (o'.remaining ≡ 0)
                    × (read_bytes dev o'.flash dfu_start (n - n % 8)
                        ≡ take (n - n % 8) (image_of blocks)))
                  (sym ota) (send_blocks-stored dev behaves o blocks free pos fits),
            ),
      )
