-- ===== src/Ota/Handlers.antt =====
-- src/ota/mod.rs: the transfer state machine. Each handler returns the state that it leaves and the
-- response that it hands to `store_response`. Logging is left out. `buffer` is indexed below its
-- eight bytes: `buffer_len` is even and at most 6 between two calls.
use rust_foc.Common.{
  ℕ, ◌+◌, ◌-◌, ◌*◌, ◌/◌, ◌%◌, Bool, true, false, not, ◌||◌, List, [], ◌∷◌, Option, none, some, zero,
  suc, ◌==◌, ltb, if◌then◌else◌, length, get_or, set, take, replicate, min, bit_xor, wrapping_add8,
}
use rust_foc.Ota.Flash.{
  FlashDevice, FlashError, program_error, read_bytes, write_u64, erase_region, bytes_eq,
}
use rust_foc.Ota.Crc.{crc_bytes}

abbrev pub dfu_start : ℕ
dfu_start = 0x08014000

abbrev pub dfu_end : ℕ
dfu_end = 0x08020000

abbrev pub state_addr : ℕ
state_addr = 0x08006000

pub data OtaState : Type 0 where
  idle receiving done : OtaState

pub data Nrc : Type 0 where
  incorrect_message_length conditions_not_correct request_out_of_range : Nrc
  general_programming_failure wrong_block_sequence_number : Nrc

abbrev pub nrc_code : Nrc → ℕ
nrc_code incorrect_message_length = 0x13
nrc_code conditions_not_correct = 0x22
nrc_code request_out_of_range = 0x31
nrc_code general_programming_failure = 0x72
nrc_code wrong_block_sequence_number = 0x73

-- The statics of the module, and the flash.
pub record Ota (F : Type 0) : Type 0 where
  pub state : OtaState
  pub remaining : ℕ
  pub total_size : ℕ
  pub next_offset : ℕ
  pub crc32 : ℕ
  pub reset_requested : Bool
  pub next_block_seq : ℕ
  pub buffer : List ℕ
  pub buffer_len : ℕ
  pub target_start : ℕ
  pub target_end : ℕ
  pub flash : F

abbrev pub is_idle : OtaState → Bool
is_idle idle = true
is_idle receiving = false
is_idle done = false

abbrev pub is_receiving : OtaState → Bool
is_receiving idle = false
is_receiving receiving = true
is_receiving done = false

abbrev pub negative : ℕ → Nrc → List ℕ
negative sid nrc = 0x7F ∷ sid ∷ nrc_code nrc ∷ []

abbrev pub blank : List ℕ
blank = replicate 8 0xFF

-- `u32::from_le_bytes`
abbrev pub le32 : ℕ → ℕ → ℕ → ℕ → ℕ
le32 a b c d = a + b * 256 + c * 65536 + d * 16777216

module _ {F : Type 0} where
  abbrev pub failed : Ota F → ℕ → Nrc → Ota F × List ℕ
  failed o sid nrc = (record o { state = idle }, negative sid nrc)

  -- The state at the start of a transfer of `size` bytes.
  abbrev pub started : Ota F → F → ℕ → Ota F
  started o f size = record o {
    state = receiving;
    total_size = size;
    remaining = size;
    next_offset = dfu_start;
    target_start = dfu_start;
    target_end = dfu_end;
    crc32 = 0xFFFFFFFF;
    next_block_seq = 1;
    buffer = blank;
    buffer_len = 0;
    flash = f;
  }

  -- `RESET_REQUESTED.swap(false)`
  unfoldable pub take_reset_request : Ota F → Bool × Ota F
  take_reset_request o = (o.reset_requested, record o { reset_requested = false })

module _ {F : Type 0} (dev : FlashDevice F) where
  unfoldable pub start_transfer : Ota F → ℕ → Ota F × List ℕ
  start_transfer o size =
      let (f, outcome) = erase_region dev o.flash dfu_start dfu_end in
      elim outcome [
        | some _ ↦ (record o { flash = f }, negative 0x34 general_programming_failure)
        | none ↦ (started o f size, 0x74 ∷ 0x00 ∷ 0x00 ∷ 0x02 ∷ [])
      ]

  unfoldable pub handle_request_download : Ota F → List ℕ → Ota F × List ℕ
  handle_request_download o payload =
      if not (length payload == 5) || not (get_or payload 0 0 == 0x00)
      then (o, negative 0x34 incorrect_message_length)
      else let size =
          le32 (get_or payload 1 0) (get_or payload 2 0) (get_or payload 3 0)
            (get_or payload 4 0) in
        if size == 0 || ltb (dfu_end - dfu_start) size
        then (o, negative 0x34 request_out_of_range)
        else if not (is_idle o.state)
        then (o, negative 0x34 conditions_not_correct)
        else start_transfer o size

  -- The loop that appends the two bytes to the alignment buffer.
  abbrev pub append_bytes : Ota F → List ℕ → Ota F
  append_bytes o [] = o
  append_bytes o (b ∷ bytes) =
      append_bytes
        (record o { buffer = set o.buffer o.buffer_len b; buffer_len = o.buffer_len + 1 }) bytes

  -- The write of a full buffer at `next_offset`; the flag tells a failure.
  unfoldable pub flush_full : Ota F → Ota F × Bool
  flush_full o =
      if o.buffer_len == 8
      then (let (f, outcome) =
            write_u64 dev o.flash o.next_offset o.target_start o.target_end o.buffer in
          elim outcome [
            | some _ ↦ (record o { flash = f; buffer = blank; buffer_len = 0 }, true)
            | none ↦ (
              record o {
                flash = f;
                next_offset = o.next_offset + 8;
                buffer = blank;
                buffer_len = 0;
              },
              false,
            )
          ])
      else (o, false)

  -- The part of 0x36 after its checks.
  unfoldable pub accept_block : Ota F → ℕ → List ℕ → Ota F × List ℕ
  unfolding flush_full
  accept_block o seq bytes =
      let noted = record o {
        next_block_seq = wrapping_add8 seq 1;
        crc32 = crc_bytes o.crc32 bytes;
      } in
      let (flushed, error) = flush_full (append_bytes noted bytes) in
      let left = record flushed { remaining = flushed.remaining - 2 } in
      if error then failed left 0x36 general_programming_failure else (left, 0x76 ∷ seq ∷ [])

  unfoldable pub handle_transfer_data : Ota F → List ℕ → Ota F × List ℕ
  handle_transfer_data o payload =
      if not (is_receiving o.state)
      then (o, negative 0x36 conditions_not_correct)
      else if not (length payload == 3)
      then (o, negative 0x36 incorrect_message_length)
      else if o.remaining == 0
      then failed o 0x36 request_out_of_range
      else let seq = get_or payload 0 0 in
        if not (seq == o.next_block_seq)
        then (o, negative 0x36 wrong_block_sequence_number)
        else accept_block o seq (get_or payload 1 0 ∷ get_or payload 2 0 ∷ [])

  -- The write of the bytes that are left in the buffer, padded with 0xFF.
  unfoldable pub flush_rest : Ota F → Ota F × Bool
  flush_rest o =
      if ltb 0 o.buffer_len
      then (let (f, outcome) =
            write_u64 dev o.flash o.next_offset o.target_start o.target_end o.buffer in
          elim outcome [
            | some _ ↦ (record o { flash = f; buffer = blank; buffer_len = 0 }, true)
            | none ↦ (record o { flash = f; buffer = blank; buffer_len = 0 }, false)
          ])
      else (record o { buffer = blank; buffer_len = 0 }, false)

  -- The loop that reads the image back, four bytes a turn, with `n` turns left.
  unfoldable pub verify_crc : F → ℕ → ℕ → ℕ → ℕ → ℕ → ℕ
  verify_crc f start size offset crc zero = crc
  verify_crc f start size offset crc (suc n) =
      verify_crc f start size (offset + 4)
        (crc_bytes crc (take (min (size - offset) 4) (read_bytes dev f (start + offset) 4))) n

  abbrev pub swap_magic : List ℕ
  swap_magic = replicate 8 0xF0

  -- The page of the state word is erased, the word written, and read back.
  unfoldable pub write_swap_magic : F → F × Option FlashError
  write_swap_magic f =
      let page = state_addr - state_addr % 2048 in
      let (erased, outcome) = erase_region dev f page (page + 2048) in
      elim outcome [
        | some e ↦ (erased, some e)
        | none ↦
            let (written, outcome') =
              write_u64 dev erased state_addr page (page + 2048) swap_magic in
            elim outcome' [
              | some e ↦ (written, some e)
              | none ↦
                  if bytes_eq (read_bytes dev written state_addr 8) swap_magic
                  then (written, none)
                  else (written, some program_error)
            ]
      ]

  -- The part of 0x37 after the size check: verify, set the swap magic, arm the reset.
  unfoldable pub commit : Ota F → Ota F × List ℕ
  commit o =
      let crc = bit_xor o.crc32 0xFFFFFFFF in
      let image_size = o.total_size in
      let verified =
        verify_crc o.flash o.target_start image_size 0 0xFFFFFFFF ((image_size + 3) / 4) in
      if not (bit_xor verified 0xFFFFFFFF == crc)
      then failed o 0x37 general_programming_failure
      else let (f, outcome) = write_swap_magic o.flash in
        elim outcome [
          | some _ ↦ failed (record o { flash = f }) 0x37 general_programming_failure
          | none ↦ (record o { flash = f; state = done; reset_requested = true }, 0x77 ∷ [])
        ]

  unfoldable pub finish_transfer : Ota F → Ota F × List ℕ
  finish_transfer o =
      let delivered = o.total_size - o.remaining in
      let (flushed, error) = flush_rest o in
      if error
      then failed flushed 0x37 general_programming_failure
      else if ltb o.total_size delivered
      then failed flushed 0x37 request_out_of_range
      else if ltb delivered (o.total_size - 7)
      then failed flushed 0x37 general_programming_failure
      else commit flushed

  unfoldable pub handle_transfer_exit : Ota F → List ℕ → Ota F × List ℕ
  handle_transfer_exit o payload =
      if not (is_receiving o.state)
      then (o, negative 0x37 conditions_not_correct)
      else if not (length payload == 0)
      then (o, negative 0x37 incorrect_message_length)
      else finish_transfer o
