-- ===== src/Platform/Boot.antt =====
-- src/main.rs: what a start of the firmware does to the flash and to the keys in force.
pub mod Restart
use rust_foc.Common.{ℕ, ◌+◌, ◌-◌, ◌%◌, List, Option, replicate}
use rust_foc.Ota.Flash.{FlashDevice, erase_region, write_u64}
use rust_foc.Ota.Handlers.{state_addr}
use rust_foc.Platform.Keys.{init}
use rust_foc.Platform.Tables.{Board}
use rust_foc.Uds.State.{Globals}

-- `BOOT_MAGIC` in all eight bytes.
abbrev pub boot_magic : List ℕ
boot_magic = replicate 8 0xD0

-- Errors of both calls are dropped.
unfoldable pub mark_booted : {F : Type 0} → FlashDevice F → F → F
mark_booted dev f =
    let page = state_addr - state_addr % 2048 in
    let erased = (erase_region dev f page (page + 2048)).0 in
    (write_u64 dev erased state_addr page (page + 2048) boot_magic).0

-- `main` up to the tasks: the keys are loaded or made and put in force, then the boot is confirmed.
unfoldable pub boot :
    {F R : Type 0}
    → FlashDevice F
    → (R → Option (List ℕ) × R)
    → Globals (Board F R)
    → Globals (Board F R)
boot dev random_word g =
    let (live_keys, f, r) = init dev random_word g.world.ota.flash g.world.rng in
    record g {
      key_masks = live_keys;
      world = record { ota = record g.world.ota { flash = mark_booted dev f }; rng = r };
    }
