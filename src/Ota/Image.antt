-- ===== src/Ota/Image.antt =====
-- src/ota/mod.rs: a whole update, from RequestDownload to TransferExit.
use rust_foc.Ota.Commit.{handle_transfer_exit_complete}
use rust_foc.Ota.Device.{erase_pages-Erased, Behaves}
use rust_foc.Ota.Flash.{read_bytes, erase_region, FlashDevice}
use rust_foc.Ota.Handlers.{
  receiving, state_addr, started, dfu_start, le32, dfu_end, handle_transfer_exit, start_transfer,
  handle_request_download, handle_transfer_data, Ota, done, idle,
}
use rust_foc.Ota.Transfer.{
  length-IsTail, handle_transfer_data-Progress, Progress, none_left, progress,
}
use mathlib.Core.List.{append-nil, append_assoc}
use rust_foc.Common.{
  take-append_left, take-length, take, replicate, true, length-append, ◌-◌, subst, sym, ◌++◌,
  get_or, ap, ◌∙◌, ◌≤◌, arith, ◌/◌, ◌%◌, wrapping_add8, ◌<◌, ◌+◌, length, ◌≡◌, List, ℕ, [], ◌∷◌,
  refl,
}

-- The bytes of the blocks that a client sends.
abbrev pub image_of : List (ℕ × ℕ) → List ℕ
image_of [] = []
image_of ((a, b) ∷ blocks) = a ∷ b ∷ image_of blocks

-- The client that the header of the source describes: one TransferData for each two bytes, numbered
-- from `seq` and wrapping at 256, whatever the answers.
unfoldable pub send_blocks : {F : Type 0} → FlashDevice F → Ota F → ℕ → List (ℕ × ℕ) → Ota F
send_blocks dev o seq [] = o
send_blocks dev o seq ((a, b) ∷ blocks) =
    let next = (handle_transfer_data dev o (seq ∷ a ∷ b ∷ [])).0 in
    send_blocks dev next (wrapping_add8 seq 1) blocks

-- The client's whole update: the payload of RequestDownload with the size as four bytes, the blocks,
-- and TransferExit.
pub update : {F : Type 0} → FlashDevice F → Ota F → List (ℕ × ℕ) → Ota F × List ℕ
update dev o blocks =
    let n = length (image_of blocks) in
    let size = n % 256 ∷ n / 256 % 256 ∷ n / 65536 % 256 ∷ n / 16777216 % 256 ∷ [] in
    let started = (handle_request_download dev o (0x00 ∷ size)).0 in
    handle_transfer_exit dev (send_blocks dev started 1 blocks) []

module _ {F : Type 0} (dev : FlashDevice F) (behaves : Behaves dev) where
  -- An accepted RequestDownload starts the transfer over an erased partition.
  handle_request_download-Progress :
      (o : Ota F) (payload : List ℕ) (size : ℕ)
      → length payload ≡ 5
      → get_or payload 0 0 ≡ 0
      → le32 (get_or payload 1 0) (get_or payload 2 0) (get_or payload 3 0) (get_or payload 4 0)
        ≡ size
      → 0 < size
      → size ≤ dfu_end - dfu_start
      → o.state ≡ idle
      → (o' : Ota F) × (handle_request_download dev o payload
          ≡ (o', 0x74 ∷ 0x00 ∷ 0x00 ∷ 0x02 ∷ []))
        × Progress dev o' size []
        × (o'.remaining ≡ size)
        × (o'.next_block_seq ≡ 1)
  unfolding handle_request_download start_transfer erase_region
  handle_request_download-Progress o payload size n zero_id le pos fits st =
      let (f', e, erased) = erase_pages-Erased dev behaves o.flash 40 24 (omega arith) in
      (
        started o f' size,
        ground (arith, e),
        progress [] [] none_left refl (record {
          state = refl;
          total = refl;
          left = omega arith;
          offset = refl;
          words = refl;
          buffer = refl;
          buffer_len = refl;
          crc = refl;
          seq = refl;
          start = refl;
          end = refl;
          stored = refl;
          rest = λ x lo hi. erased.blank x (omega arith) (omega arith);
          fits = fits;
        }),
        refl,
        refl,
      )

  remaining-Progress :
      (o : Ota F) (size : ℕ) (sent : List ℕ)
      → Progress dev o size sent
      → o.remaining + length sent ≡ size
  remaining-Progress o size sent (progress flushed tail t e r) =
      omega (arith, r.left, ap length e, length-append flushed tail)

  seq-Progress :
      (o : Ota F) (size : ℕ) (sent : List ℕ)
      → Progress dev o size sent
      → o.next_block_seq ≡ (1 + length sent / 2) % 256
  seq-Progress o size sent (progress flushed tail t e r) =
      r.seq ∙ ap (λ k. (1 + k / 2) % 256) (sym (length-append flushed tail) ∙ ap length e)

  send_blocks-Progress :
      (o : Ota F) (size seq : ℕ) (sent : List ℕ) (blocks : List (ℕ × ℕ))
      → Progress dev o size sent
      → seq ≡ (1 + length sent / 2) % 256
      → length sent + length (image_of blocks) ≤ size
      → Progress dev (send_blocks dev o seq blocks) size (sent ++ image_of blocks)
  unfolding send_blocks
  send_blocks-Progress o size seq sent [] p number fits =
      subst (Progress dev o size) (sym (append-nil sent)) p
  send_blocks-Progress o size seq sent ((a, b) ∷ blocks) p number fits =
      let more : 2 ≤ o.remaining = omega (arith, remaining-Progress o size sent p) in
      let (o', e, p') = handle_transfer_data-Progress dev behaves o size sent a b p more in
      let agreed : seq ≡ o.next_block_seq = number ∙ sym (seq-Progress o size sent p) in
      let ran : (handle_transfer_data dev o (seq ∷ a ∷ b ∷ [])).0 ≡ o' =
        ap (λ k. (handle_transfer_data dev o (k ∷ a ∷ b ∷ [])).0) agreed ∙ ap (λ r. r.0) e in
      let n : length (sent ++ a ∷ b ∷ []) ≡ length sent + 2 = length-append sent (a ∷ b ∷ []) in
      rw ran (
        subst (Progress dev (send_blocks dev o' (wrapping_add8 seq 1) blocks) size)
          (append_assoc sent (a ∷ b ∷ []) (image_of blocks))
          (send_blocks-Progress o' size (wrapping_add8 seq 1) (sent ++ a ∷ b ∷ []) blocks p'
            (omega arith) (omega arith)))

  nonempty : (blocks : List (ℕ × ℕ)) → 0 < length blocks → 0 < length (image_of blocks)
  nonempty [] h = absurd (omega arith)
  nonempty ((a, b) ∷ blocks) h = omega arith

  -- The statics after RequestDownload for an image.
  abbrev pub accepted : Ota F → List (ℕ × ℕ) → Ota F
  accepted o blocks =
      let n = length (image_of blocks) in
      (handle_request_download dev o
        (0x00 ∷ n % 256 ∷ n / 256 % 256 ∷ n / 65536 % 256 ∷ n / 16777216 % 256 ∷ [])).0

  -- After the last block the whole words of the image stand at the start of the partition.
  pub send_blocks-stored :
      (o : Ota F) (blocks : List (ℕ × ℕ))
      → o.state ≡ idle
      → 0 < length blocks
      → length (image_of blocks) ≤ dfu_end - dfu_start
      → let image = image_of blocks in
        let n = length image in
        let o' = send_blocks dev (accepted o blocks) 1 blocks in
        (o'.state ≡ receiving)
        × (o'.remaining ≡ 0)
        × (read_bytes dev o'.flash dfu_start (n - n % 8) ≡ take (n - n % 8) image)
  send_blocks-stored o blocks st pos fits =
      let image = image_of blocks in
      let n = length image in
      let payload = 0x00 ∷ n % 256 ∷ n / 256 % 256 ∷ n / 65536 % 256 ∷ n / 16777216 % 256 ∷ [] in
      let (o₁, e, p, left, seq) =
        handle_request_download-Progress o payload n refl refl (omega arith) (nonempty blocks pos)
          fits st in
      let ran : (handle_request_download dev o payload).0 ≡ o₁ = ap (λ r. r.0) e in
      rw ran (
        stored_words (send_blocks dev o₁ 1 blocks) image
          (send_blocks-Progress o₁ n 1 [] blocks p refl (omega arith)))
    where
      stored_words :
          (o' : Ota F) (image : List ℕ)
          → Progress dev o' (length image) image
          → (o'.state ≡ receiving)
            × (o'.remaining ≡ 0)
            × (read_bytes dev o'.flash dfu_start (length image - length image % 8)
                ≡ take (length image - length image % 8) image)
      stored_words o' image (progress flushed tail t e r) =
          let n : length flushed + length tail ≡ length image =
            sym (length-append flushed tail) ∙ ap length e in
          let words : length image - length image % 8 ≡ length flushed =
            omega (arith, n, r.words, length-IsTail tail t) in
          let kept : flushed ≡ take (length flushed) (flushed ++ tail) = sym (
            take-append_left (length flushed) flushed tail (omega arith)
            ∙ take-length (length flushed) flushed (omega arith)) in
          (
            r.state,
            omega (arith, r.left, n),
            rw words (r.stored ∙ kept ∙ ap (take (length flushed)) e),
          )

  -- On flash hardware that behaves as documented, an update of an image of an even number of bytes
  -- that fits the partition, sent to an idle device, ends acknowledged, with the image at the start of
  -- the partition, the swap magic in the state word and the reset armed.
  pub update_installs :
      (o : Ota F) (blocks : List (ℕ × ℕ))
      → o.state ≡ idle
      → 0 < length blocks
      → length (image_of blocks) ≤ dfu_end - dfu_start
      → let image = image_of blocks in
        let (o', resp) = update dev o blocks in
        (resp ≡ 0x77 ∷ [])
        × (o'.state ≡ done)
        × (o'.reset_requested ≡ true)
        × (read_bytes dev o'.flash dfu_start (length image) ≡ image)
        × (read_bytes dev o'.flash state_addr 8 ≡ replicate 8 0xF0)
  unfolding update
  update_installs o blocks st pos fits =
      let image = image_of blocks in
      let n = length image in
      let payload = 0x00 ∷ n % 256 ∷ n / 256 % 256 ∷ n / 65536 % 256 ∷ n / 16777216 % 256 ∷ [] in
      let (o₁, e, p, left, seq) =
        handle_request_download-Progress o payload n refl refl (omega arith) (nonempty blocks pos)
          fits st in
      let ran : (handle_request_download dev o payload).0 ≡ o₁ = ap (λ r. r.0) e in
      rw ran (
        handle_transfer_exit_complete dev behaves (send_blocks dev o₁ 1 blocks) n image
          (send_blocks-Progress o₁ n 1 [] blocks p refl (omega arith)) refl)
