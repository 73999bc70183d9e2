-- ===== src/Ota/Transfer.antt =====
-- src/ota/mod.rs: a transfer in progress, and the image that it leaves in the DFU partition.
use rust_foc.Ota.Crc.{crc_bytes-append, crc_bytes}
use rust_foc.Ota.Device.{read_bytes-ext, read_bytes-add, write_u64-Wrote, Wrote, IsBlank, Behaves}
use rust_foc.Ota.Flash.{read_bytes, FlashDevice}
use rust_foc.Ota.Handlers.{
  handle_transfer_data, blank, dfu_end, dfu_start, accept_block, Ota, receiving,
}
use mathlib.Core.List.{append-nil, append_assoc}
use rust_foc.Common.{
  set, length-append, ap₂, sym, ◌∙◌, ap, ◌==◌, wrapping_add8, ◌/◌, ◌-◌, replicate, ◌%◌, ◌<◌, length,
  ◌≤◌, ◌+◌, ◌++◌, List, ℕ, ◌≡◌, ◌∷◌, [], refl, arith, inl, inr, false,
}

-- The buffer holds an even number of bytes, at most six.
pub data IsTail : List ℕ → Type 0 where
  none_left : IsTail []
  two_left : (a b : ℕ) → IsTail (a ∷ b ∷ [])
  four_left : (a b c d : ℕ) → IsTail (a ∷ b ∷ c ∷ d ∷ [])
  six_left : (a b c d e f : ℕ) → IsTail (a ∷ b ∷ c ∷ d ∷ e ∷ f ∷ [])

pub length-IsTail : (tail : List ℕ) → IsTail tail → length tail ≤ 6
length-IsTail _ none_left = omega arith
length-IsTail _ (two_left a b) = omega arith
length-IsTail _ (four_left a b c d) = omega arith
length-IsTail _ (six_left a b c d e f) = omega arith

module _ {F : Type 0} (dev : FlashDevice F) where
  -- A transfer of `size` bytes of which `flushed` stand in flash and `tail` in the buffer.
  pub record Receiving (o : Ota F) (size : ℕ) (flushed tail : List ℕ) : Type 0 where
    pub state : o.state ≡ receiving
    pub total : o.total_size ≡ size
    pub left : o.remaining + (length flushed + length tail) ≡ size
    pub offset : o.next_offset ≡ dfu_start + length flushed
    pub words : length flushed % 8 ≡ 0
    pub buffer : o.buffer ≡ tail ++ replicate (8 - length tail) 0xFF
    pub buffer_len : o.buffer_len ≡ length tail
    pub crc : o.crc32 ≡ crc_bytes 0xFFFFFFFF (flushed ++ tail)
    pub seq : o.next_block_seq ≡ (1 + (length flushed + length tail) / 2) % 256
    pub start : o.target_start ≡ dfu_start
    pub end : o.target_end ≡ dfu_end
    pub stored : read_bytes dev o.flash dfu_start (length flushed) ≡ flushed
    pub rest : IsBlank dev o.flash (dfu_start + length flushed) dfu_end
    pub fits : size ≤ dfu_end - dfu_start

  -- So far `sent` was received.
  pub data Progress (o : Ota F) (size : ℕ) (sent : List ℕ) : Type 0 where
    progress :
        (flushed tail : List ℕ)
        → IsTail tail
        → flushed ++ tail ≡ sent
        → Receiving o size flushed tail
        → Progress o size sent

-- The statics after two bytes are appended to the buffer, before a flush.
abbrev grown : {F : Type 0} → Ota F → ℕ → ℕ → Ota F
grown o a b = record o {
  next_block_seq = wrapping_add8 o.next_block_seq 1;
  crc32 = crc_bytes o.crc32 (a ∷ b ∷ []);
  buffer = set (set o.buffer o.buffer_len a) (o.buffer_len + 1) b;
  buffer_len = o.buffer_len + 1 + 1;
  remaining = o.remaining - 2;
}

-- The statics after a flush of the full buffer.
abbrev emptied : {F : Type 0} → Ota F → F → Ota F
emptied o f = record o {
  flash = f;
  next_offset = o.next_offset + 8;
  buffer = blank;
  buffer_len = 0;
}

module _ {F : Type 0} (dev : FlashDevice F) where
  grown-Receiving :
      (o : Ota F) (size : ℕ) (flushed tail : List ℕ) (a b : ℕ)
      → Receiving dev o size flushed tail
      → 2 ≤ o.remaining
      → set (set o.buffer o.buffer_len a) (o.buffer_len + 1) b
        ≡ (tail ++ a ∷ b ∷ []) ++ replicate (8 - length (tail ++ a ∷ b ∷ [])) 0xFF
      → Receiving dev (grown o a b) size flushed (tail ++ a ∷ b ∷ [])
  grown-Receiving o size flushed tail a b r more placed =
      let n : length (tail ++ a ∷ b ∷ []) ≡ length tail + 2 = length-append tail (a ∷ b ∷ []) in
      record {
        state = r.state;
        total = r.total;
        left = omega (arith, r.left);
        offset = r.offset;
        words = r.words;
        buffer = placed;
        buffer_len = omega (arith, r.buffer_len);
        crc =
            ap (λ c. crc_bytes c (a ∷ b ∷ [])) r.crc
            ∙ (sym (crc_bytes-append 0xFFFFFFFF (flushed ++ tail) (a ∷ b ∷ []))
                ∙ ap (crc_bytes 0xFFFFFFFF) (append_assoc flushed tail (a ∷ b ∷ [])));
        seq = omega (arith, r.seq);
        start = r.start;
        end = r.end;
        stored = r.stored;
        rest = r.rest;
        fits = r.fits;
      }

  emptied-Receiving :
      (behaves : Behaves dev) (o : Ota F) (f' : F) (size : ℕ) (flushed w : List ℕ)
      → Receiving dev o size flushed w
      → length w ≡ 8
      → Wrote dev behaves o.flash f' (dfu_start + length flushed) w
      → Receiving dev (emptied o f') size (flushed ++ w) []
  emptied-Receiving behaves o f' size flushed w r n wrote =
      let m : length (flushed ++ w) ≡ length flushed + 8 = omega (arith, length-append flushed w) in
      record {
        state = r.state;
        total = r.total;
        left = omega (arith, r.left);
        offset = omega (arith, r.offset);
        words = omega (arith, r.words);
        buffer = refl;
        buffer_len = refl;
        crc = r.crc ∙ ap (crc_bytes 0xFFFFFFFF) (sym (append-nil (flushed ++ w)));
        seq = r.seq ∙ ap (λ k. (1 + k / 2) % 256) (omega arith);
        start = r.start;
        end = r.end;
        stored =
            ap (read_bytes dev f' dfu_start) m
            ∙ (read_bytes-add dev f' dfu_start (length flushed) 8
                ∙ ap₂ ◌++◌
                    (read_bytes-ext dev o.flash f' dfu_start (length flushed)
                        (λ x lo hi. wrote.others x (inl hi))
                      ∙ r.stored)
                    wrote.word);
        rest = λ x lo hi. wrote.others x (inr (omega arith)) ∙ r.rest x (omega arith) hi;
        fits = r.fits;
      }

  accept_short :
      (o : Ota F) (size : ℕ) (flushed tail : List ℕ) (a b : ℕ)
      → Receiving dev o size flushed tail
      → length tail < 6
      → accept_block dev o o.next_block_seq (a ∷ b ∷ [])
        ≡ (grown o a b, 0x76 ∷ o.next_block_seq ∷ [])
  unfolding accept_block
  accept_short o size flushed tail a b r short =
      let open_ : (o.buffer_len + 1 + 1 == 8) ≡ false = ground (arith, r.buffer_len) in ground arith

  accept_full :
      (behaves : Behaves dev) (o : Ota F) (size : ℕ) (flushed w : List ℕ) (a b : ℕ)
      → Receiving dev (grown o a b) size flushed w
      → length w ≡ 8
      → (f' : F) × (accept_block dev o o.next_block_seq (a ∷ b ∷ [])
          ≡ (emptied (grown o a b) f', 0x76 ∷ o.next_block_seq ∷ []))
        × Wrote dev behaves o.flash f' (dfu_start + length flushed) w
  unfolding accept_block
  accept_full behaves o size flushed w a b r n =
      let room : length flushed + 8 ≤ dfu_end - dfu_start = omega (arith, r.left, r.fits) in
      let (f', e, wrote) =
        write_u64-Wrote dev behaves o.flash (dfu_start + length flushed) dfu_start dfu_end w
          (omega (arith, r.words)) (omega arith) (omega arith) (omega arith) n
          (λ x lo hi. r.rest x lo (omega arith)) in
      let full : o.buffer_len + 1 + 1 ≡ 8 = r.buffer_len ∙ n in
      let word : set (set o.buffer o.buffer_len a) (o.buffer_len + 1) b ≡ w =
        r.buffer ∙ rw n (append-nil w) in
      (f', ground (arith, e, full, word, r.offset, r.start, r.end), wrote)

  block_full :
      (behaves : Behaves dev) (o : Ota F) (size : ℕ) (sent flushed tail : List ℕ) (a b : ℕ)
      → IsTail tail
      → length (tail ++ a ∷ b ∷ []) ≡ 8
      → flushed ++ tail ≡ sent
      → Receiving dev (grown o a b) size flushed (tail ++ a ∷ b ∷ [])
      → (o' : Ota F) × (accept_block dev o o.next_block_seq (a ∷ b ∷ [])
          ≡ (o', 0x76 ∷ o.next_block_seq ∷ []))
        × Progress dev o' size (sent ++ a ∷ b ∷ [])
  block_full behaves o size sent flushed tail a b t n e r =
      let w = tail ++ a ∷ b ∷ [] in
      let (f', done, wrote) = accept_full behaves o size flushed w a b r n in
      (
        emptied (grown o a b) f',
        done,
        progress (flushed ++ w) [] none_left
            (append-nil (flushed ++ w)
              ∙ (sym (append_assoc flushed tail (a ∷ b ∷ [])) ∙ ap (λ s. s ++ a ∷ b ∷ []) e))
            (emptied-Receiving behaves (grown o a b) f' size flushed w r n wrote),
      )

  block_short :
      (o : Ota F) (size : ℕ) (sent flushed tail : List ℕ) (a b : ℕ)
      → IsTail (tail ++ a ∷ b ∷ [])
      → length tail < 6
      → flushed ++ tail ≡ sent
      → Receiving dev o size flushed tail
      → Receiving dev (grown o a b) size flushed (tail ++ a ∷ b ∷ [])
      → (o' : Ota F) × (accept_block dev o o.next_block_seq (a ∷ b ∷ [])
          ≡ (o', 0x76 ∷ o.next_block_seq ∷ []))
        × Progress dev o' size (sent ++ a ∷ b ∷ [])
  block_short o size sent flushed tail a b t short e r r' = (
    grown o a b,
    accept_short o size flushed tail a b r short,
    progress flushed (tail ++ a ∷ b ∷ []) t
        (sym (append_assoc flushed tail (a ∷ b ∷ [])) ∙ ap (λ s. s ++ a ∷ b ∷ []) e) r',
  )

  accept-Progress :
      (behaves : Behaves dev) (o : Ota F) (size : ℕ) (sent : List ℕ) (a b : ℕ)
      → Progress dev o size sent
      → 2 ≤ o.remaining
      → (o' : Ota F) × (accept_block dev o o.next_block_seq (a ∷ b ∷ [])
          ≡ (o', 0x76 ∷ o.next_block_seq ∷ []))
        × Progress dev o' size (sent ++ a ∷ b ∷ [])
  accept-Progress behaves o size sent a b (progress flushed _ none_left e r) more =
      block_short o size sent flushed [] a b (two_left a b) (omega arith) e r
        (grown-Receiving o size flushed [] a b r more (rw (r.buffer, r.buffer_len)))
  accept-Progress behaves o size sent a b (progress flushed _ (two_left p q) e r) more =
      block_short o size sent flushed (p ∷ q ∷ []) a b (four_left p q a b) (omega arith) e r
        (grown-Receiving o size flushed (p ∷ q ∷ []) a b r more (rw (r.buffer, r.buffer_len)))
  accept-Progress behaves o size sent a b (progress flushed _ (four_left p q s t) e r) more =
      block_short o size sent flushed (p ∷ q ∷ s ∷ t ∷ []) a b (six_left p q s t a b) (omega arith)
        e r
        (grown-Receiving o size flushed (p ∷ q ∷ s ∷ t ∷ []) a b r more
          (rw (r.buffer, r.buffer_len)))
  accept-Progress behaves o size sent a b (progress flushed _ (six_left p q s t u v) e r) more =
      let tail = p ∷ q ∷ s ∷ t ∷ u ∷ v ∷ [] in
      block_full behaves o size sent flushed tail a b (six_left p q s t u v) refl e
        (grown-Receiving o size flushed tail a b r more (rw (r.buffer, r.buffer_len)))

  -- In a transfer that has two bytes or more to come, the block with the expected sequence number is
  -- acknowledged, and the flash and the buffer then hold the bytes received so far and the block's.
  pub handle_transfer_data-Progress :
      (behaves : Behaves dev) (o : Ota F) (size : ℕ) (sent : List ℕ) (a b : ℕ)
      → Progress dev o size sent
      → 2 ≤ o.remaining
      → (o' : Ota F) × (handle_transfer_data dev o (o.next_block_seq ∷ a ∷ b ∷ [])
          ≡ (o', 0x76 ∷ o.next_block_seq ∷ []))
        × Progress dev o' size (sent ++ a ∷ b ∷ [])
  unfolding handle_transfer_data
  handle_transfer_data-Progress behaves o size sent a b (progress flushed tail t e r) more =
      let (o', done, next) =
        accept-Progress behaves o size sent a b (progress flushed tail t e r) more in
      (o', ground (arith, r.state, done), next)
