-- ===== src/Tests/Starts.antt =====
-- Starts of the firmware and a tester with the key, on a toy flash, generator and cipher.
use rust_foc.Common.{
  ℕ, zero, suc, ◌+◌, ◌*◌, ◌%◌, ◌≡◌, ◌==◌, if◌then◌else◌, bit_xor, true, false, Option, none, some,
  List, [], ◌∷◌, drop, get_or, length, replicate, refl, arith, ap,
}
use rust_foc.Foc.Total.{Yields}
use rust_foc.Ota.Flash.{read_bytes, erase_region, erase_pages}
use rust_foc.Ota.Handlers.{Ota, state_addr, handle_request_download, start_transfer}
use rust_foc.Ota.Image.{send_blocks}
use rust_foc.Platform.Boot.{boot, boot_magic}
use rust_foc.Platform.Boot.Restart.{boot-boot, boot-download}
use rust_foc.Platform.Client.{update_session, update_session-send_blocks}
use rust_foc.Platform.Keys.{
  all_erased, init, first_boot, generate_keys, generate_key_from_rng, key_words,
}
use rust_foc.Platform.Keys.Laws.{join}
use rust_foc.Platform.Keys.Reload.{GivesWords}
use rust_foc.Platform.Tables.{Board, default_key_masks}
use rust_foc.Platform.Updates.{platform}
use rust_foc.Platform.Upload.{upload, upload-send_blocks}
use rust_foc.Tests.Fixtures.{crates}
use rust_foc.Tests.Updates.{memory, behaves, at_rest, zeros, erased}
use rust_foc.Uds.Config.{Crates, security_allowed}
use rust_foc.Uds.State.{AesBlock, Globals, UdsState, zeroed}
use rust_foc.Uds.Types.{programming, sal1, idle}

-- A generator that counts, and does not answer every fourth time.
abbrev pub counter : ℕ → Option (List ℕ) × ℕ
counter n = (if n % 4 == 3 then none else some (n % 256 ∷ 0 ∷ 0 ∷ 0 ∷ []), n + 1)

counter-GivesWords : GivesWords counter
counter-GivesWords r w h = ground arith

-- Sixteen bytes of the sums of two blocks.
abbrev mix : ℕ → AesBlock → AesBlock → AesBlock
mix zero key block = []
mix (suc n) key block =
    bit_xor (get_or key 0 0) (get_or block 0 0) ∷ mix n (drop 1 key) (drop 1 block)

length-mix : (n : ℕ) (key block : AesBlock) → length (mix n key block) ≡ n
length-mix zero key block = refl
length-mix (suc n) key block = ap suc (length-mix n (drop 1 key) (drop 1 block))

abbrev pub sealed : Crates
sealed = record { encrypt_block = mix 16; ct_eq = crates.ct_eq; ct_eq_iff = crates.ct_eq_iff }

abbrev pub board : (ℕ → ℕ) → Globals (Board (ℕ → ℕ) ℕ)
board flash = record {
  response_buf = replicate 64 0;
  response_len = 0;
  reset_requested = false;
  reset_subfunc = 0;
  dtcs = replicate 16 none;
  seed_counter = 0;
  key_masks = default_key_masks;
  world = record { ota = record at_rest { flash = flash }; rng = 0 };
}

abbrev next_start : Globals (Board (ℕ → ℕ) ℕ)
next_start = record (board erased) {
  world = record {
    ota = record at_rest { flash = (boot memory counter (board erased)).world.ota.flash };
    rng = 77;
  };
}

keys_made : all_erased (join (boot memory counter (board erased)).key_masks) ≡ false
unfolding boot init first_boot generate_keys generate_key_from_rng key_words erase_region
    erase_pages
keys_made = refl

boot-boot_example :
    let once = boot memory counter (board erased) in
    let again = boot memory counter next_start in
    (again.key_masks ≡ once.key_masks)
    × (again.world.rng ≡ 77)
    × ((x : ℕ) → memory.read again.world.ota.flash x ≡ memory.read next_start.world.ota.flash x)
    × (read_bytes memory again.world.ota.flash state_addr 8 ≡ boot_magic)
boot-boot_example =
    boot-boot memory counter behaves (board erased) next_start counter-GivesWords keys_made refl

abbrev small : List ℕ
small = 0x00 ∷ 0x10 ∷ 0x00 ∷ 0x00 ∷ 0x00 ∷ []

small_accepted :
    handle_request_download memory at_rest small
    ≡ ((handle_request_download memory at_rest small).0, 0x74 ∷ 0x00 ∷ 0x00 ∷ 0x02 ∷ [])
unfolding handle_request_download start_transfer erase_region erase_pages
small_accepted = refl

abbrev after_request : Globals (Board (ℕ → ℕ) ℕ)
after_request = board (handle_request_download memory at_rest small).0.flash

boot-download_example :
    (boot memory counter after_request).key_masks ≡ (generate_keys counter 3 0).0
boot-download_example =
    boot-download memory counter behaves at_rest (handle_request_download memory at_rest small).0
      small after_request small_accepted refl

abbrev image : List (ℕ × ℕ)
image = (1, 2) ∷ (3, 4) ∷ []

abbrev left : Ota (ℕ → ℕ)
left =
    send_blocks memory
      (handle_request_download memory (board zeros).world.ota
        (0x00 ∷ 0x04 ∷ 0x00 ∷ 0x00 ∷ 0x00 ∷ [])).0
      1 image

abbrev pub opened : UdsState
opened = record zeroed { session = programming; security = sal1 }

pub opened-unlocked : security_allowed opened.security 1 ≡ true
unfolding security_allowed
opened-unlocked = refl

upload-send_blocks_example :
    Yields (upload sealed (λ n. n * 10) (platform memory counter opened (board zeros)) image) (λ m.
      (m.globals.world.ota ≡ left)
      × (m.state.state ≡ idle)
      × (m.state.session ≡ programming)
      × (security_allowed m.state.security 1 ≡ true))
upload-send_blocks_example =
    upload-send_blocks memory counter sealed (λ n. n * 10) opened (board zeros) image refl refl
      opened-unlocked

update_session-send_blocks_example :
    Yields
      (update_session sealed default_key_masks
        (λ n. n * 10)
        (platform memory counter zeroed (board zeros))
        image)
      (λ m. m.globals.world.ota ≡ left)
update_session-send_blocks_example =
    update_session-send_blocks memory counter sealed zeroed (board zeros) image (λ n. n * 10)
      counter-GivesWords (length-mix 16) refl refl refl refl
