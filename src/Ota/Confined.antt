-- ===== src/Ota/Confined.antt =====
-- src/ota/mod.rs: which flash the transfer handlers touch, on hardware that may fail at any time.
use rust_foc.Ota.Crc.{crc_bytes}
use rust_foc.Ota.Flash.{
  flash_base, erase_size, program_checked, erase_region, write_u64, erase_pages, FlashDevice,
}
use rust_foc.Ota.Handlers.{
  append_bytes, commit, dfu_end, flush_full, flush_rest, dfu_start, finish_transfer, start_transfer,
  accept_block, handle_transfer_data, state_addr, write_swap_magic, handle_transfer_exit,
  is_receiving, handle_request_download, Ota, idle,
}
use rust_foc.Common.{
  get_or, ◌==◌, ltb, wrapping_add8, replicate, ◌∙◌, Bool-cases, ◌%◌, ◌*◌, ◌≤◌, Option-cases, ◌+◌,
  ◌≡◌, ◌⊎◌, ◌<◌, List, ℕ, refl, inl, inr, [], ◌∷◌, false, arith, zero, suc,
}

-- A command changes no byte outside the word or the page that it names, whether it fails or not.
pub record Local {F : Type 0} (dev : FlashDevice F) : Type 0 where
  pub program_local :
      (f : F) (a : ℕ) (w : List ℕ) (x : ℕ)
      → (x < a) ⊎ (a + 8 ≤ x)
      → dev.read (dev.program f a w).0 x ≡ dev.read f x
  pub erase_local :
      (f : F) (page x : ℕ)
      → (x < flash_base + page * erase_size) ⊎ (flash_base + page * erase_size + erase_size ≤ x)
      → dev.read (dev.erase_page f page).0 x ≡ dev.read f x

-- An address outside the DFU partition and the page of the state word.
abbrev pub Outside : ℕ → Type 0
Outside x = ((x < state_addr) ⊎ (state_addr + erase_size ≤ x)) × ((x < dfu_start) ⊎ (dfu_end ≤ x))

-- A transfer in progress writes to the DFU partition.
abbrev pub Targeted : {F : Type 0} → Ota F → Type 0
Targeted o =
    (is_receiving o.state ≡ false) ⊎ ((o.target_start ≡ dfu_start) × (o.target_end ≡ dfu_end))

pub data Call : Type 0 where
  call_download call_transfer call_exit : List ℕ → Call

module _ {F : Type 0} (dev : FlashDevice F) where
  call : Ota F → Call → Ota F
  call o (call_download payload) = (handle_request_download dev o payload).0
  call o (call_transfer payload) = (handle_transfer_data dev o payload).0
  call o (call_exit payload) = (handle_transfer_exit dev o payload).0

  pub calls : Ota F → List Call → Ota F
  calls o [] = o
  calls o (c ∷ cs) = calls (call o c) cs

module _ {F : Type 0} (dev : FlashDevice F) (local : Local dev) where
  write_u64-local :
      (f : F) (a start end : ℕ) (w : List ℕ) (x : ℕ)
      → (x < start) ⊎ (end ≤ x)
      → dev.read (write_u64 dev f a start end w).0 x ≡ dev.read f x
  unfolding write_u64 program_checked
  write_u64-local f a start end w x out = ground (arith, local.program_local f a w x)

  erase_pages-local :
      (f : F) (page n x : ℕ)
      → page + n ≤ 256
      → (x < flash_base + page * erase_size) ⊎ (flash_base + (page + n) * erase_size ≤ x)
      → dev.read (erase_pages dev f page n).0 x ≡ dev.read f x
  unfolding erase_pages
  erase_pages-local f page zero x h out = refl
  erase_pages-local f page (suc n) x h out =
      let f₁ = (dev.erase_page f (page % 256)).0 in
      let small : page % 256 ≡ page = omega arith in
      let here : dev.read f₁ x ≡ dev.read f x = local.erase_local f (page % 256) x (ground arith) in
      elim (Bool-cases (dev.erase_page f (page % 256)).1) [
        | inl failed' ↦ ground (arith, here)
        | inr fine ↦
            let later = erase_pages-local f₁ (page + 1) n x (omega arith) (ground arith) in
            ground (arith, here, later)
      ]

  -- The byte at an address and the target are kept.
  abbrev Kept : ℕ → Ota F → Ota F → Type 0
  Kept x o o' = (dev.read o'.flash x ≡ dev.read o.flash x) × Targeted o'

  handle_request_download-Kept :
      (o : Ota F) (payload : List ℕ) (x : ℕ)
      → Outside x
      → Targeted o
      → Kept x o (handle_request_download dev o payload).0
  unfolding handle_request_download start_transfer erase_region
  handle_request_download-Kept o payload x out t =
      let erased = erase_pages-local o.flash 40 24 x (omega arith) (omega (arith, out)) in
      elim (Option-cases (erase_pages dev o.flash 40 24).1) [
        | inl fine ↦ (ground (arith, erased), ground arith)
        | inr (e, bad) ↦ (ground (arith, erased), ground arith)
      ]

  -- The byte is kept, and so is a target in the partition.
  abbrev Flushed : ℕ → Ota F → Ota F → Type 0
  Flushed x o o' =
      (dev.read o'.flash x ≡ dev.read o.flash x)
      × (o'.target_start ≡ dfu_start)
      × (o'.target_end ≡ dfu_end)

  flush_full-Flushed :
      (o : Ota F) (x : ℕ)
      → Outside x
      → o.target_start ≡ dfu_start
      → o.target_end ≡ dfu_end
      → Flushed x o (flush_full dev o).0
  unfolding flush_full
  flush_full-Flushed o x out start end =
      let written =
        write_u64-local o.flash o.next_offset o.target_start o.target_end o.buffer x
          (rw (start, end) out.1) in
      elim (Bool-cases (o.buffer_len == 8)) [
        | inr few ↦ rw few (refl, start, end)
        | inl full ↦
            elim (Option-cases
              (write_u64 dev o.flash o.next_offset o.target_start o.target_end o.buffer).1) [
                | inl fine ↦ rw (full, fine) (written, start, end)
                | inr (e, bad) ↦ rw (full, bad) (written, start, end)
              ]
      ]

  flush_rest-Flushed :
      (o : Ota F) (x : ℕ)
      → Outside x
      → o.target_start ≡ dfu_start
      → o.target_end ≡ dfu_end
      → Flushed x o (flush_rest dev o).0
  unfolding flush_rest
  flush_rest-Flushed o x out start end =
      let written =
        write_u64-local o.flash o.next_offset o.target_start o.target_end o.buffer x
          (rw (start, end) out.1) in
      elim (Bool-cases (ltb 0 o.buffer_len)) [
        | inr empty ↦ rw empty (refl, start, end)
        | inl some_left ↦
            elim (Option-cases
              (write_u64 dev o.flash o.next_offset o.target_start o.target_end o.buffer).1) [
                | inl fine ↦ rw (some_left, fine) (written, start, end)
                | inr (e, bad) ↦ rw (some_left, bad) (written, start, end)
              ]
      ]

  accept_block-Kept :
      (o : Ota F) (seq a b x : ℕ)
      → Outside x
      → o.target_start ≡ dfu_start
      → o.target_end ≡ dfu_end
      → Kept x o (accept_block dev o seq (a ∷ b ∷ [])).0
  unfolding accept_block
  accept_block-Kept o seq a b x out start end =
      let noted = record o {
        next_block_seq = wrapping_add8 seq 1;
        crc32 = crc_bytes o.crc32 (a ∷ b ∷ []);
      } in
      let grown = append_bytes dev noted (a ∷ b ∷ []) in
      let (same, start', end') = flush_full-Flushed grown x out start end in
      elim (Bool-cases (flush_full dev grown).1) [
        | inl bad ↦ rw bad (same, inl refl)
        | inr fine ↦ rw fine (same, inr (start', end'))
      ]

  handle_transfer_data-Kept :
      (o : Ota F) (payload : List ℕ) (x : ℕ)
      → Outside x
      → Targeted o
      → Kept x o (handle_transfer_data dev o payload).0
  unfolding handle_transfer_data
  handle_transfer_data-Kept o payload x out (inl idle') = (ground arith, ground arith)
  handle_transfer_data-Kept o payload x out (inr (start, end)) =
      let accepted =
        accept_block-Kept o (get_or payload 0 0) (get_or payload 1 0) (get_or payload 2 0) x out
          start end in
      (ground (arith, accepted), ground (arith, accepted))

  write_swap_magic-local :
      (f : F) (x : ℕ) → Outside x → dev.read (write_swap_magic dev f).0 x ≡ dev.read f x
  unfolding write_swap_magic erase_region
  write_swap_magic-local f x out =
      let erased = erase_pages-local f 12 1 x (omega arith) (omega (arith, out)) in
      let f₁ = (erase_pages dev f 12 1).0 in
      let written =
        write_u64-local f₁ state_addr state_addr (state_addr + 2048) (replicate 8 0xF0) x out.0 in
      ground (arith, erased, written)

  commit-Kept :
      (o : Ota F) (x : ℕ)
      → Outside x
      → o.target_start ≡ dfu_start
      → o.target_end ≡ dfu_end
      → Kept x o (commit dev o).0
  unfolding commit
  commit-Kept o x out start end =
      let same = write_swap_magic-local o.flash x out in
      (ground (arith, same), ground (arith, same))

  handle_transfer_exit-Kept :
      (o : Ota F) (payload : List ℕ) (x : ℕ)
      → Outside x
      → Targeted o
      → Kept x o (handle_transfer_exit dev o payload).0
  unfolding handle_transfer_exit finish_transfer
  handle_transfer_exit-Kept o payload x out (inl idle') = (ground arith, ground arith)
  handle_transfer_exit-Kept o payload x out (inr (start, end)) =
      let (same, start', end') = flush_rest-Flushed o x out start end in
      let committed = commit-Kept (flush_rest dev o).0 x out start' end' in
      (ground (arith, same, committed), ground (arith, same, committed))

  call-Kept : (o : Ota F) (c : Call) (x : ℕ) → Outside x → Targeted o → Kept x o (call dev o c)
  unfolding call
  call-Kept o (call_download payload) x out t = handle_request_download-Kept o payload x out t
  call-Kept o (call_transfer payload) x out t = handle_transfer_data-Kept o payload x out t
  call-Kept o (call_exit payload) x out t = handle_transfer_exit-Kept o payload x out t

  calls-Kept :
      (o : Ota F) (cs : List Call) (x : ℕ) → Outside x → Targeted o → Kept x o (calls dev o cs)
  unfolding calls
  calls-Kept o [] x out t = (refl, t)
  calls-Kept o (c ∷ cs) x out t =
      let (same, t') = call-Kept o c x out t in
      let (later, t'') = calls-Kept (call dev o c) cs x out t' in (later ∙ same, t'')

  -- From an idle device, no sequence of calls of the handlers, with any payloads, changes a byte
  -- outside the DFU partition and the page of the state word; on any hardware whose commands are
  -- confined to what they name, failing ones too.
  pub calls_confined :
      (o : Ota F) (cs : List Call) (x : ℕ)
      → o.state ≡ idle
      → Outside x
      → dev.read (calls dev o cs).flash x ≡ dev.read o.flash x
  calls_confined o cs x st out = (calls-Kept o cs x out (inl (ground arith))).0
