-- ===== src/Ota/Commit.antt =====
-- src/ota/mod.rs: the end of a transfer.
use mathlib.Core.List.{append-nil}
use rust_foc.Ota.Device.{
  read_bytes-ext, write_u64-Wrote, erase_pages-Erased, Behaves, read_bytes-add,
}
use rust_foc.Ota.Crc.{crc_bytes-append, crc_bytes}
use rust_foc.Ota.Flash.{erase_region, read_bytes, FlashDevice}
use rust_foc.Ota.Handlers.{
  dfu_end, finish_transfer, receiving, handle_transfer_exit, blank, done, dfu_start, state_addr,
  Ota, write_swap_magic, flush_rest, commit, verify_crc,
}
use native.Mathlib.Decide.{dec_lt}
use native.Mathlib.Nat.{add-zero, sub-zero}
use rust_foc.Ota.Transfer.{
  IsTail, Receiving, Progress, none_left, two_left, four_left, six_left, progress,
}
use rust_foc.Common.{
  ap₂, inl, subst, ◌++◌, length-append, length-replicate, take-append_left, take-length, ◌/◌, [],
  inr, false, true, length, replicate, List, none, refl, sym, ◌∙◌, min, ◌∷◌, ap, ◌+◌, arith, ◌≡◌,
  ◌<◌, ◌*◌, ◌-◌, take, ◌≤◌, ℕ, zero, suc,
}

module _ {F : Type 0} (dev : FlashDevice F) where
  take-read_bytes :
      (f : F) (a n k : ℕ) → k ≤ n → take k (read_bytes dev f a n) ≡ read_bytes dev f a k
  take-read_bytes f a n zero h = refl
  take-read_bytes f a zero (suc k) h = absurd (omega arith)
  take-read_bytes f a (suc n) (suc k) h =
      ap (λ r. dev.read f a ∷ r) (take-read_bytes f (a + 1) n k (omega arith))

  -- The verification loop computes the CRC of the bytes that are left to read.
  verify_crc_lem :
      (f : F) (start size offset crc n : ℕ)
      → size - offset ≤ 4 * n
      → 4 * n < size - offset + 4
      → verify_crc dev f start size offset crc n
        ≡ crc_bytes crc (read_bytes dev f (start + offset) (size - offset))
  unfolding verify_crc
  verify_crc_lem f start size offset crc zero lo hi =
      let e : size - offset ≡ 0 = omega arith in rw e refl
  verify_crc_lem f start size offset crc (suc n) lo hi = elim (dec_lt (size - offset) 4) [
    | yes last ↦
        let k : min (size - offset) 4 ≡ size - offset = omega arith in
        let z : n ≡ 0 = omega arith in
        rw (z, k)
          (ap (crc_bytes crc) (take-read_bytes f (start + offset) 4 (size - offset) (omega arith)))
    | no more ↦
        let k : min (size - offset) 4 ≡ 4 = omega arith in
        let rest = size - (offset + 4) in
        let count : size - offset ≡ 4 + rest = omega arith in
        let next : start + (offset + 4) ≡ start + offset + 4 = omega arith in
        let chunk = read_bytes dev f (start + offset) 4 in
        rw k (
          verify_crc_lem f start size (offset + 4) (crc_bytes crc (take 4 chunk)) n (omega arith)
            (omega arith)
          ∙ (rw next refl
              ∙ (sym (crc_bytes-append crc chunk (read_bytes dev f (start + offset + 4) rest))
                  ∙ ap (crc_bytes crc) (
                      sym (read_bytes-add dev f (start + offset) 4 rest)
                      ∙ ap (read_bytes dev f (start + offset)) (sym count)))))
  ]

  module _ (behaves : Behaves dev) where
    -- The swap magic is written over a freshly erased state page, and no other page changes.
    write_swap_magic_lem :
        (f : F)
        → (f' : F) × (write_swap_magic dev f ≡ (f', none))
          × (read_bytes dev f' state_addr 8 ≡ replicate 8 0xF0)
          × ((x : ℕ) → dfu_start ≤ x → dev.read f' x ≡ dev.read f x)
    unfolding write_swap_magic erase_region
    write_swap_magic_lem f =
        let (f₁, e₁, erased) = erase_pages-Erased dev behaves f 12 1 (omega arith) in
        let (f₂, e₂, wrote) =
          write_u64-Wrote dev behaves f₁ state_addr state_addr (state_addr + 2048)
            (replicate 8 0xF0) refl (omega arith) (omega arith) (omega arith) refl
            (λ x lo hi. erased.blank x (omega arith) (omega arith)) in
        (
          f₂,
          ground (arith, e₁, e₂, wrote.word),
          wrote.word,
          λ x far. wrote.others x (inr (omega arith)) ∙ erased.others x (inr (omega arith)),
        )

    -- With the image in flash and its CRC in the running sum, the commit succeeds.
    commit_lem :
        (o : Ota F) (image : List ℕ)
        → o.target_start ≡ dfu_start
        → o.total_size ≡ length image
        → o.crc32 ≡ crc_bytes 0xFFFFFFFF image
        → read_bytes dev o.flash dfu_start (length image) ≡ image
        → (f' : F) × (commit dev o
            ≡ (record o { flash = f'; state = done; reset_requested = true }, 0x77 ∷ []))
          × (read_bytes dev f' dfu_start (length image) ≡ image)
          × (read_bytes dev f' state_addr 8 ≡ replicate 8 0xF0)
    unfolding commit
    commit_lem o image at size crc held =
        let (f', e, magic, same) = write_swap_magic_lem o.flash in
        let n = length image in
        let verified : verify_crc dev o.flash o.target_start o.total_size 0 0xFFFFFFFF
              ((o.total_size + 3) / 4)
            ≡ o.crc32 =
          rw (at, size)
            (verify_crc_lem o.flash dfu_start n 0 0xFFFFFFFF ((n + 3) / 4) (omega arith)
                (omega arith)
              ∙ (rw (add-zero, sub-zero) (ap (crc_bytes 0xFFFFFFFF) held) ∙ sym crc)) in
        (
          f',
          ground (arith, verified, e),
          read_bytes-ext dev o.flash f' dfu_start n (λ x lo hi. same x lo) ∙ held,
          magic,
        )

    -- A tail that is not empty is written as one word, padded with 0xFF.
    flush_tail :
        (o : Ota F) (size : ℕ) (flushed tail : List ℕ)
        → Receiving dev o size flushed tail
        → 0 < length tail
        → length tail < 8
        → (f' : F) × (flush_rest dev o
            ≡ (record o { flash = f'; buffer = blank; buffer_len = 0 }, false))
          × (read_bytes dev f' dfu_start (length (flushed ++ tail)) ≡ flushed ++ tail)
    unfolding flush_rest
    flush_tail o size flushed tail r some_left short =
        let k = length tail in
        let w = tail ++ replicate (8 - k) 0xFF in
        let a = dfu_start + length flushed in
        let n : length w ≡ 8 = omega (
          arith,
          length-append tail (replicate (8 - k) 0xFF),
          length-replicate {A = ℕ} (8 - k) 0xFF,
        ) in
        let room : length flushed + 8 ≤ dfu_end - dfu_start =
          omega (arith, r.left, r.fits, r.words) in
        let (f', e, wrote) =
          write_u64-Wrote dev behaves o.flash a dfu_start dfu_end w (omega (arith, r.words))
            (omega arith) (omega arith) (omega arith) n (λ x lo hi. r.rest x lo (omega arith)) in
        let kept : read_bytes dev f' dfu_start (length flushed) ≡ flushed =
          read_bytes-ext dev o.flash f' dfu_start (length flushed)
            (λ x lo hi. wrote.others x (inl hi))
          ∙ r.stored in
        let added : read_bytes dev f' a k ≡ tail =
          sym (take-read_bytes f' a 8 k (omega arith))
          ∙ (ap (take k) wrote.word
              ∙ (take-append_left k tail (replicate (8 - k) 0xFF) (omega arith)
                  ∙ take-length k tail (omega arith))) in
        (
          f',
          ground (arith, e, r.buffer, r.buffer_len, r.offset, r.start, r.end),
          ap (read_bytes dev f' dfu_start) (length-append flushed tail)
              ∙ (read_bytes-add dev f' dfu_start (length flushed) k ∙ ap₂ ◌++◌ kept added),
        )

    -- What the flush of a complete transfer leaves: the image in flash, and the statics that `commit`
    -- reads.
    flush_rest_lem :
        (o : Ota F) (size : ℕ) (image : List ℕ)
        → Progress dev o size image
        → (f' : F) × (flush_rest dev o
            ≡ (record o { flash = f'; buffer = blank; buffer_len = 0 }, false))
          × (read_bytes dev f' dfu_start (length image) ≡ image)
          × (o.state ≡ receiving)
          × (o.target_start ≡ dfu_start)
          × (o.total_size ≡ size)
          × (o.crc32 ≡ crc_bytes 0xFFFFFFFF image)
          × (o.remaining + length image ≡ size)
    unfolding flush_rest
    flush_rest_lem o size image (progress flushed tail t e r) =
        let total : length flushed + length tail ≡ length image =
          sym (length-append flushed tail) ∙ ap length e in
        let (f', ran, held) = flushed_by t r in
        (
          f',
          ran,
          subst (λ xs. read_bytes dev f' dfu_start (length xs) ≡ xs) e held,
          r.state,
          r.start,
          r.total,
          r.crc ∙ ap (crc_bytes 0xFFFFFFFF) e,
          omega (arith, r.left),
        )
      where
        flushed_by :
            {flushed tail : List ℕ}
            → IsTail tail
            → Receiving dev o size flushed tail
            → (f' : F) × (flush_rest dev o
                ≡ (record o { flash = f'; buffer = blank; buffer_len = 0 }, false))
              × (read_bytes dev f' dfu_start (length (flushed ++ tail)) ≡ flushed ++ tail)
        flushed_by {flushed = fl} none_left r = (
          o.flash,
          ground (arith, r.buffer_len),
          subst (λ xs. read_bytes dev o.flash dfu_start (length xs) ≡ xs) (sym (append-nil fl))
              r.stored,
        )
        flushed_by {flushed = fl} (two_left a b) r =
            flush_tail o size fl (a ∷ b ∷ []) r (omega arith) (omega arith)
        flushed_by {flushed = fl} (four_left a b c d) r =
            flush_tail o size fl (a ∷ b ∷ c ∷ d ∷ []) r (omega arith) (omega arith)
        flushed_by {flushed = fl} (six_left a b c d u v) r =
            flush_tail o size fl (a ∷ b ∷ c ∷ d ∷ u ∷ v ∷ []) r (omega arith) (omega arith)

    -- A TransferExit after the whole image has arrived is acknowledged: the partition holds the image,
    -- the state word the swap magic, and the reset is armed.
    pub handle_transfer_exit_complete :
        (o : Ota F) (size : ℕ) (image : List ℕ)
        → Progress dev o size image
        → size ≡ length image
        → let (o', resp) = handle_transfer_exit dev o [] in
          (resp ≡ 0x77 ∷ [])
          × (o'.state ≡ done)
          × (o'.reset_requested ≡ true)
          × (read_bytes dev o'.flash dfu_start (length image) ≡ image)
          × (read_bytes dev o'.flash state_addr 8 ≡ replicate 8 0xF0)
    unfolding handle_transfer_exit finish_transfer
    handle_transfer_exit_complete o size image p n =
        let (f', e, held, st, start, total, crc, left) = flush_rest_lem o size image p in
        let flushed = record o { flash = f'; buffer = blank; buffer_len = 0 } in
        let (f'', e', held', magic) = commit_lem flushed image start (total ∙ n) crc held in
        let final = record flushed { flash = f''; state = done; reset_requested = true } in
        let ended : handle_transfer_exit dev o [] ≡ (final, 0x77 ∷ []) =
          ground (arith, e, e', st) in
        rw ended (refl, refl, refl, held', magic)
