-- ===== src/Ota/Flag.antt =====
-- src/ota/mod.rs: what RequestDownload and TransferData leave of the flag of a reset.
use rust_foc.Common.{ℕ, ◌≡◌, refl, arith, List, [], ◌∷◌, set, ◌+◌, wrapping_add8, get_or}
use rust_foc.Ota.Crc.{crc_bytes}
use rust_foc.Ota.Flash.{FlashDevice}
use rust_foc.Ota.Handlers.{
  Ota, accept_block, append_bytes, flush_full, handle_request_download, handle_transfer_data,
  start_transfer,
}

module _ {F : Type 0} (dev : FlashDevice F) where
  append_bytes-reset_requested :
      (bytes : List ℕ) (o : Ota F) → (append_bytes dev o bytes).reset_requested ≡ o.reset_requested
  append_bytes-reset_requested [] o = refl
  append_bytes-reset_requested (b ∷ bytes) o =
      append_bytes-reset_requested bytes
        (record o { buffer = set o.buffer o.buffer_len b; buffer_len = o.buffer_len + 1 })

  pub handle_request_download-reset_requested :
      (o : Ota F) (payload : List ℕ)
      → (handle_request_download dev o payload).0.reset_requested ≡ o.reset_requested
  unfolding handle_request_download start_transfer
  handle_request_download-reset_requested o payload = ground arith

  flush_full-reset_requested :
      (o : Ota F) → (flush_full dev o).0.reset_requested ≡ o.reset_requested
  unfolding flush_full
  flush_full-reset_requested o = ground arith

  accept_block-reset_requested :
      (o : Ota F) (seq : ℕ) (bytes : List ℕ)
      → (accept_block dev o seq bytes).0.reset_requested ≡ o.reset_requested
  unfolding accept_block
  accept_block-reset_requested o seq bytes =
      let noted = record o {
        next_block_seq = wrapping_add8 seq 1;
        crc32 = crc_bytes o.crc32 bytes;
      } in
      ground (
        arith,
        append_bytes-reset_requested bytes noted,
        flush_full-reset_requested (append_bytes dev noted bytes),
      )

  pub handle_transfer_data-reset_requested :
      (o : Ota F) (payload : List ℕ)
      → (handle_transfer_data dev o payload).0.reset_requested ≡ o.reset_requested
  unfolding handle_transfer_data
  handle_transfer_data-reset_requested o payload =
      let bytes = get_or payload 1 0 ∷ get_or payload 2 0 ∷ [] in
      ground (arith, accept_block-reset_requested o (get_or payload 0 0) bytes)
