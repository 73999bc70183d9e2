-- ===== src/Ota/Crc.antt =====
-- src/ota/mod.rs: CRC-32/ISO-HDLC, one byte at a time.
use rust_foc.Common.{
  ℕ, ◌/◌, ◌%◌, zero, suc, List, [], ◌∷◌, ◌++◌, ◌≡◌, refl, ◌==◌, if◌then◌else◌, bit_xor,
}

-- One turn of the loop over the bits.
abbrev pub crc_bit : ℕ → ℕ
crc_bit c = if c % 2 == 0 then c / 2 else bit_xor (c / 2) 0xEDB88320

abbrev pub crc_bits : ℕ → ℕ → ℕ
crc_bits zero c = c
crc_bits (suc n) c = crc_bits n (crc_bit c)

unfoldable pub crc32_update : ℕ → ℕ → ℕ
crc32_update crc byte = crc_bits 8 (bit_xor crc byte)

-- `for &b in bytes { crc = crc32_update(crc, b) }`
abbrev pub crc_bytes : ℕ → List ℕ → ℕ
crc_bytes crc [] = crc
crc_bytes crc (b ∷ bytes) = crc_bytes (crc32_update crc b) bytes

pub crc_bytes-append :
    (crc : ℕ) (xs ys : List ℕ) → crc_bytes crc (xs ++ ys) ≡ crc_bytes (crc_bytes crc xs) ys
crc_bytes-append crc [] ys = refl
crc_bytes-append crc (x ∷ xs) ys = crc_bytes-append (crc32_update crc x) xs ys
