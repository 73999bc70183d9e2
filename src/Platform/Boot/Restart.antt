-- ===== src/Platform/Boot/Restart.antt =====
-- src/main.rs: one start of the firmware after another, and after an update request.
use rust_foc.Common.{
  ℕ, zero, suc, ◌+◌, ◌-◌, ◌≤◌, ◌<◌, ◌≡◌, ltb, if◌then◌else◌, subst, true, ◌⊎◌, arith, inl, inr,
  false, Option, none, List, [], ◌∷◌, get_or, replicate, sym, ap, ◌∙◌, refl,
}
use native.Mathlib.Decide.{dec_lt}
use rust_foc.Ota.Device.{Behaves, erase_pages-Erased, write_u64-Wrote, read_bytes-IsBlank}
use rust_foc.Ota.Flash.{FlashDevice, read_bytes, erase_region, write_u64, erase_size, erase_pages}
use rust_foc.Ota.Handlers.{Ota, state_addr, handle_request_download, start_transfer}
use rust_foc.Platform.Boot.{boot, boot_magic, mark_booted}
use rust_foc.Platform.Keys.{
  all_erased, first_boot, init, key_store_addr, key_store_size, generate_keys,
}
use rust_foc.Platform.Keys.Laws.{join}
use rust_foc.Platform.Keys.Reload.{GivesWords, Loaded, Loaded-ext, init-Loaded, init_lem}
use rust_foc.Platform.Tables.{Board}
use rust_foc.Uds.State.{Globals}

read_bytes-at :
    {F : Type 0} (dev : FlashDevice F) (f : F) (a n i : ℕ)
    → i < n
    → get_or (read_bytes dev f a n) i 0 ≡ dev.read f (a + i)
read_bytes-at dev f a zero i h = absurd (omega arith)
read_bytes-at dev f a (suc n) zero h = ap (dev.read f) (omega arith)
read_bytes-at dev f a (suc n) (suc i) h =
    read_bytes-at dev f (a + 1) n i (omega arith) ∙ ap (dev.read f) (omega arith)

get_or-replicate : (n i a d : ℕ) → i < n → get_or (replicate n a) i d ≡ a
get_or-replicate zero i a d h = absurd (omega arith)
get_or-replicate (suc n) zero a d h = refl
get_or-replicate (suc n) (suc i) a d h = get_or-replicate n i a d (omega arith)

-- The address is in the page of the state word.
abbrev InStatePage : ℕ → Type 0
InStatePage x = (state_addr ≤ x) × (x < state_addr + erase_size)

-- What the page of the state word holds after a confirmed boot.
abbrev marked_byte : ℕ → ℕ
marked_byte x = if ltb x (state_addr + 8) then 0xD0 else 0xFF

module _ {F : Type 0} (dev : FlashDevice F) (behaves : Behaves dev) where
  record Marked (f f' : F) : Type 0 where
    word : read_bytes dev f' state_addr 8 ≡ boot_magic
    page : (x : ℕ) → InStatePage x → dev.read f' x ≡ marked_byte x
    others :
        (x : ℕ) → (x < state_addr) ⊎ (state_addr + erase_size ≤ x) → dev.read f' x ≡ dev.read f x

  mark_booted-Marked : (f : F) → Marked f (mark_booted dev f)
  unfolding mark_booted erase_region
  mark_booted-Marked f =
      let (f1, e1, erased) = erase_pages-Erased dev behaves f 12 1 (omega arith) in
      let (f2, e2, wrote) =
        write_u64-Wrote dev behaves f1 state_addr state_addr (state_addr + 2048) boot_magic refl
          (omega arith) (omega arith) (omega arith) refl
          (λ x lo hi. erased.blank x (omega arith) (omega arith)) in
      let same : mark_booted dev f ≡ f2 =
        ap (λ o. (write_u64 dev o.0 state_addr state_addr (state_addr + 2048) boot_magic).0) e1
        ∙ ap (λ o. o.0) e2 in
      subst (Marked f) (sym same) (record {
        word = wrote.word;
        page = λ x (lo, hi). elim (dec_lt x (state_addr + 8)) [
          | yes here ↦
              let i = x - state_addr in
              let at = read_bytes-at dev f2 state_addr 8 i (omega arith) in
              let magic = get_or-replicate 8 i 0xD0 0 (omega arith) in
              let is_x : dev.read f2 (state_addr + i) ≡ dev.read f2 x =
                ap (dev.read f2) (omega arith) in
              sym is_x ∙ (sym at ∙ (ap (λ w. get_or w i 0) wrote.word ∙ magic)) ∙ ground arith
          | no there ↦
              wrote.others x (inr (omega arith))
              ∙ erased.blank x (omega arith) (omega arith)
              ∙ ground arith
        ];
        others = λ x out. wrote.others x (ground arith) ∙ erased.others x (ground arith);
      })

module _ {F R : Type 0} (dev : FlashDevice F) (random_word : R → Option (List ℕ) × R) where
  -- What a boot leaves from what `init` returns.
  abbrev settled : Globals (Board F R) → List (List ℕ) → F → R → Globals (Board F R)
  settled g keys f r = record g {
    key_masks = keys;
    world = record { ota = record g.world.ota { flash = mark_booted dev f }; rng = r };
  }

  boot-settled :
      (g : Globals (Board F R)) (keys : List (List ℕ)) (f : F) (r : R)
      → init dev random_word g.world.ota.flash g.world.rng ≡ (keys, f, r)
      → boot dev random_word g ≡ settled g keys f r
  unfolding boot
  boot-settled g keys f r e = ap (λ x. settled g x.0 x.1 x.2) e

  first_boot-keys :
      (f : F) (r : R) → (first_boot dev random_word f r).0 ≡ (generate_keys random_word 3 r).0
  unfolding first_boot
  first_boot-keys f r = ground arith

  all_erased-replicate : (n : ℕ) → all_erased (replicate n 0xFF) ≡ true
  all_erased-replicate zero = refl
  all_erased-replicate (suc n) = all_erased-replicate n

  -- An accepted request has erased the partition.
  accepted-flash :
      (o o' : Ota F) (payload : List ℕ) (f : F)
      → handle_request_download dev o payload ≡ (o', 0x74 ∷ 0x00 ∷ 0x00 ∷ 0x02 ∷ [])
      → erase_pages dev o.flash 40 24 ≡ (f, none)
      → o'.flash ≡ f
  unfolding handle_request_download start_transfer erase_region
  accepted-flash o o' payload f accepted e = ground (arith, e, accepted)

  boot-erased :
      (g : Globals (Board F R))
      → all_erased (read_bytes dev g.world.ota.flash key_store_addr key_store_size) ≡ true
      → (boot dev random_word g).key_masks ≡ (generate_keys random_word 3 g.world.rng).0
  unfolding boot init
  boot-erased g none_set = rw none_set (first_boot-keys g.world.ota.flash g.world.rng)

  module _ (behaves : Behaves dev) where
    mark_booted-Loaded :
        (f : F) (keys : List (List ℕ)) → Loaded dev f keys → Loaded dev (mark_booted dev f) keys
    mark_booted-Loaded f keys l =
        let marked = mark_booted-Marked dev behaves f in
        Loaded-ext dev f (mark_booted dev f) keys (λ x lo hi. marked.others x (inr (omega arith))) l

    mark_booted_twice :
        (f : F) (x : ℕ)
        → dev.read (mark_booted dev (mark_booted dev f)) x ≡ dev.read (mark_booted dev f) x
    mark_booted_twice f x =
        let once = mark_booted-Marked dev behaves f in
        let twice = mark_booted-Marked dev behaves (mark_booted dev f) in
        elim (dec_lt x state_addr) [
          | yes below ↦ twice.others x (inl below)
          | no from ↦ elim (dec_lt x (state_addr + erase_size)) [
            | yes to ↦ twice.page x (omega arith, to) ∙ sym (once.page x (omega arith, to))
            | no above ↦ twice.others x (inr (omega arith))
          ]
        ]

    -- What a boot that finds the keys does.
    boot-found :
        (g : Globals (Board F R)) (keys : List (List ℕ))
        → Loaded dev g.world.ota.flash keys
        → boot dev random_word g ≡ settled g keys g.world.ota.flash g.world.rng
    boot-found g keys l =
        boot-settled g keys g.world.ota.flash g.world.rng
          (init-Loaded dev random_word g.world.ota.flash g.world.rng keys l)

    -- On hardware that behaves, and with a generator of words of 32 bits: after a boot whose keys are
    -- not all 0xFF, the next boot, whatever the memory and the generator then hold, puts the same keys
    -- in force without asking the generator, leaves every byte of the flash as it was, and the state
    -- word holds the magic of a confirmed boot.
    pub boot-boot :
        (g g' : Globals (Board F R))
        → GivesWords random_word
        → all_erased (join (boot dev random_word g).key_masks) ≡ false
        → g'.world.ota.flash ≡ (boot dev random_word g).world.ota.flash
        → let again = boot dev random_word g' in
          (again.key_masks ≡ (boot dev random_word g).key_masks)
          × (again.world.rng ≡ g'.world.rng)
          × ((x : ℕ) → dev.read again.world.ota.flash x ≡ dev.read g'.world.ota.flash x)
          × (read_bytes dev again.world.ota.flash state_addr 8 ≡ boot_magic)
    boot-boot g g' words some_set kept =
        let (keys, f, r, e, loaded, _) =
          init_lem dev behaves random_word g.world.ota.flash g.world.rng words in
        let first = boot-settled g keys f r e in
        let flash : g'.world.ota.flash ≡ mark_booted dev f =
          kept ∙ ap (λ x. x.world.ota.flash) first in
        let l : Loaded dev f keys =
          loaded (ap (λ x. all_erased (join x.key_masks)) (sym first) ∙ some_set) in
        let l' : Loaded dev g'.world.ota.flash keys =
          subst (λ x. Loaded dev x keys) (sym flash) (mark_booted-Loaded f keys l) in
        let next = boot-found g' keys l' in
        (
          ap (λ x. x.key_masks) next ∙ ap (λ x. x.key_masks) (sym first),
          ap (λ x. x.world.rng) next,
          (λ x.
              ap (λ b. dev.read b.world.ota.flash x) next
              ∙ (ap (λ h. dev.read (mark_booted dev h) x) flash
                  ∙ (mark_booted_twice f x ∙ ap (λ h. dev.read h x) (sym flash)))),
          ap (λ b. read_bytes dev b.world.ota.flash state_addr 8) next
              ∙ (mark_booted-Marked dev behaves g'.world.ota.flash).word,
        )

    -- On hardware that behaves: after a RequestDownload that is accepted, whatever its size, the next
    -- boot finds no keys, and puts new ones from the generator in force.
    pub boot-download :
        (o o' : Ota F) (payload : List ℕ) (g' : Globals (Board F R))
        → handle_request_download dev o payload ≡ (o', 0x74 ∷ 0x00 ∷ 0x00 ∷ 0x02 ∷ [])
        → g'.world.ota.flash ≡ o'.flash
        → (boot dev random_word g').key_masks ≡ (generate_keys random_word 3 g'.world.rng).0
    boot-download o o' payload g' accepted kept =
        let (f, e, erased) = erase_pages-Erased dev behaves o.flash 40 24 (omega arith) in
        let flash : g'.world.ota.flash ≡ f = kept ∙ accepted-flash o o' payload f accepted e in
        let blank =
          read_bytes-IsBlank dev f key_store_addr key_store_size
            (λ x lo hi. erased.blank x (omega arith) (omega arith)) in
        boot-erased g' (
          ap (λ h. all_erased (read_bytes dev h key_store_addr key_store_size)) flash
          ∙ (ap all_erased blank ∙ all_erased-replicate key_store_size))
