-- ===== src/Ota/Flash.antt =====
-- src/drivers/flash.rs: checked writes and erases. The FLASH peripheral is `FlashDevice`: what the
-- hardware holds, and what a program or erase command makes of it, with the error flags it raises.
-- A `u64` is the list of its eight bytes in memory order (little-endian); unlock and lock frames, the
-- busy wait and the critical section have no effect that a caller can see and are left out.
use rust_foc.Common.{
  ℕ, ◌+◌, ◌-◌, ◌/◌, ◌%◌, Bool, true, false, not, ◌&&◌, ◌||◌, List, [], ◌∷◌, Option, none, some,
  zero, suc, ◌==◌, ltb, if◌then◌else◌,
}

pub record FlashDevice (F : Type 0) : Type 0 where
  -- The byte at an address.
  pub read : F → ℕ → ℕ
  -- Program eight bytes at an address; the flag tells an error in the status register.
  pub program : F → ℕ → List ℕ → F × Bool
  -- Erase the page of a number; likewise.
  pub erase_page : F → ℕ → F × Bool

abbrev pub flash_base : ℕ
flash_base = 0x08000000

abbrev pub erase_size : ℕ
erase_size = 2048

pub data FlashError : Type 0 where
  unaligned out_of_bounds cross_page program_error verify_failed : FlashError

abbrev pub page_of : ℕ → ℕ
page_of offset = (offset - flash_base) / erase_size

module _ {F : Type 0} (dev : FlashDevice F) where
  -- `n` bytes from an address.
  abbrev pub read_bytes : F → ℕ → ℕ → List ℕ
  read_bytes f a zero = []
  read_bytes f a (suc n) = dev.read f a ∷ read_bytes f (a + 1) n

abbrev pub bytes_eq : List ℕ → List ℕ → Bool
bytes_eq [] [] = true
bytes_eq [] (_ ∷ _) = false
bytes_eq (_ ∷ _) [] = false
bytes_eq (a ∷ xs) (b ∷ ys) = (a == b) && bytes_eq xs ys

module _ {F : Type 0} (dev : FlashDevice F) where
  -- The part of `write_u64` after its checks: program, look at the flags, read back.
  unfoldable pub program_checked : F → ℕ → List ℕ → F × Option FlashError
  program_checked f offset value =
      let (f', error) = dev.program f offset value in
      if error
      then (f', some program_error)
      else if bytes_eq (read_bytes dev f' offset 8) value
      then (f', none)
      else (f', some verify_failed)

  unfoldable pub write_u64 : F → ℕ → ℕ → ℕ → List ℕ → F × Option FlashError
  write_u64 f offset start end value =
      if not (offset % 8 == 0)
      then (f, some unaligned)
      else if ltb offset start || ltb end (offset + 8)
      then (f, some out_of_bounds)
      else if not (page_of offset == page_of (offset + 7))
      then (f, some cross_page)
      else program_checked f offset value

  -- The loop of `erase_region` with `n` pages left; the page number goes through `as u8`.
  unfoldable pub erase_pages : F → ℕ → ℕ → F × Option FlashError
  erase_pages f page zero = (f, none)
  erase_pages f page (suc n) =
      let (f', error) = dev.erase_page f (page % 256) in
      elim error [ true ↦ (f', some program_error) | false ↦ erase_pages f' (page + 1) n ]

  unfoldable pub erase_region : F → ℕ → ℕ → F × Option FlashError
  erase_region f start end = erase_pages f (page_of start) (page_of end - page_of start)
