-- ===== src/Tests/Updates.antt =====
-- The theorems on updates at a concrete flash: a function from addresses to bytes.

use rust_foc.Ota.Crc.{crc_bytes}
use rust_foc.Ota.Image.{update_installs, update}
use rust_foc.Ota.Device.{Behaves}
use rust_foc.Ota.Flash.{erase_size, flash_base, read_bytes, FlashDevice}
use rust_foc.Ota.Confined.{
  calls_confined, calls, Local, Call, call_download, call_transfer, call_exit,
}
use rust_foc.Common.{
  inl, ◌*◌, ◌-◌, get_or, ◌+◌, ltb, replicate, ◌&&◌, true, leb, ◌++◌, arith, false, if◌then◌else◌,
  ◌≡◌, List, ℕ, refl, [], ◌∷◌,
}
use rust_foc.Ota.Handlers.{state_addr, blank, started, dfu_start, Ota, idle, done}
use rust_foc.Ota.Transfer.{Progress, progress, none_left, two_left}

abbrev pub memory : FlashDevice (ℕ → ℕ)
memory = record {
  read = λ f x. f x;
  program = λ f a w. (λ x. if leb a x && ltb x (a + 8) then get_or w (x - a) 0 else f x, false);
  erase_page = λ f page.
      let first = flash_base + page * erase_size in
      (λ x. if leb first x && ltb x (first + erase_size) then 0xFF else f x, false);
}

pub behaves : Behaves memory
behaves = record {
  program_flag = λ f a w h. refl;
  program_read = λ f a w x h. refl;
  erase_flag = λ f page. refl;
  erase_read = λ f page x. refl;
}

abbrev pub erased : ℕ → ℕ
erased _ = 0xFF

abbrev pub zeros : ℕ → ℕ
zeros _ = 0

abbrev pub at_rest : Ota (ℕ → ℕ)
at_rest = record {
  state = idle;
  remaining = 0;
  total_size = 0;
  next_offset = 0;
  crc32 = 0;
  reset_requested = false;
  next_block_seq = 0;
  buffer = blank;
  buffer_len = 0;
  target_start = 0;
  target_end = 0;
  flash = zeros;
}

abbrev two_bytes : List ℕ
two_bytes = 5 ∷ 6 ∷ []

abbrev two_received : Ota (ℕ → ℕ)
two_received = record (started at_rest erased 2) {
  remaining = 0;
  next_block_seq = 2;
  buffer = two_bytes ++ replicate 6 0xFF;
  buffer_len = 2;
  crc32 = crc_bytes 0xFFFFFFFF two_bytes;
}

none_received-Progress : Progress memory (started at_rest erased 4) 4 []
none_received-Progress = progress [] [] none_left refl (record {
  state = refl;
  total = refl;
  left = refl;
  offset = refl;
  words = refl;
  buffer = refl;
  buffer_len = refl;
  crc = refl;
  seq = refl;
  start = refl;
  end = refl;
  stored = refl;
  rest = λ x lo hi. refl;
  fits = omega arith;
})

two_received-Progress : Progress memory two_received 2 two_bytes
two_received-Progress = progress [] two_bytes (two_left 5 6) refl (record {
  state = refl;
  total = refl;
  left = refl;
  offset = refl;
  words = refl;
  buffer = refl;
  buffer_len = refl;
  crc = refl;
  seq = refl;
  start = refl;
  end = refl;
  stored = refl;
  rest = λ x lo hi. refl;
  fits = omega arith;
})

update_installs_example :
    let (o', resp) = update memory at_rest ((1, 2) ∷ (3, 4) ∷ []) in
    (resp ≡ 0x77 ∷ [])
    × (o'.state ≡ done)
    × (o'.reset_requested ≡ true)
    × (read_bytes memory o'.flash dfu_start 4 ≡ 1 ∷ 2 ∷ 3 ∷ 4 ∷ [])
    × (read_bytes memory o'.flash state_addr 8 ≡ replicate 8 0xF0)
update_installs_example =
    update_installs memory behaves at_rest ((1, 2) ∷ (3, 4) ∷ []) refl (omega arith) (omega arith)

memory-Local : Local memory
memory-Local = record {
  program_local = λ f a w x out. ground arith;
  erase_local = λ f page x out. ground arith;
}

-- An update that is broken off in the middle by an early TransferExit.
abbrev broken_off : List Call
broken_off =
    call_download (0 ∷ 4 ∷ 0 ∷ 0 ∷ 0 ∷ []) ∷ call_transfer (1 ∷ 7 ∷ 8 ∷ []) ∷ call_exit [] ∷ []

calls_confined_example :
    memory.read (calls memory at_rest broken_off).flash 0x08000000
    ≡ memory.read at_rest.flash 0x08000000
calls_confined_example =
    calls_confined memory memory-Local at_rest broken_off 0x08000000 refl
      (inl (omega arith), inl (omega arith))
