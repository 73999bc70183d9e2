-- ===== src/Platform/Keys.antt =====
-- src/key_store.rs: the keys of the device in flash.
pub mod Laws
pub mod Reload
use rust_foc.Common.{
  ℕ, zero, suc, ◌+◌, ◌*◌, Bool, true, false, List, [], ◌∷◌, ◌++◌, Option, none, some, ◌==◌, ◌&&◌,
  if◌then◌else◌, take, drop, replicate,
}
use rust_foc.Ota.Flash.{FlashDevice, FlashError, erase_region, write_u64, read_bytes}

abbrev pub key_store_addr : ℕ
key_store_addr = 0x0801F800

abbrev pub key_store_size : ℕ
key_store_size = 48

-- `KEY_STORE_ADDR & !2047`, which is the address itself.
abbrev pub key_page : ℕ
key_page = 0x0801F800

abbrev pub key_page_end : ℕ
key_page_end = 0x08020000

abbrev pub all_erased : List ℕ → Bool
all_erased [] = true
all_erased (b ∷ bytes) = b == 0xFF && all_erased bytes

-- So many keys of 16 bytes.
unfoldable pub decode_keys : ℕ → List ℕ → List (List ℕ)
decode_keys zero raw = []
decode_keys (suc n) raw = take 16 raw ∷ decode_keys n (drop 16 raw)

-- The operator `?`.
abbrev pub or_fail :
    {F : Type 0} → F × Option FlashError → (F → F × Option FlashError) → F × Option FlashError
or_fail (f, some e) k = (f, some e)
or_fail (f, none) k = k f

module _ {F : Type 0} (dev : FlashDevice F) where
  -- The two writes of each key, where a failure ends the loop.
  unfoldable pub store_keys : F → ℕ → List (List ℕ) → F × Option FlashError
  store_keys f base [] = (f, none)
  store_keys f base (key ∷ keys) =
      or_fail (write_u64 dev f base key_store_addr key_page_end (take 8 key)) λ f'.
        or_fail (write_u64 dev f' (base + 8) key_store_addr key_page_end (drop 8 key))
          λ f''. store_keys f'' (base + 16) keys

  unfoldable pub store : F → List (List ℕ) → F × Option FlashError
  store f keys =
      or_fail (erase_region dev f key_page key_page_end) λ f'. store_keys f' key_store_addr keys

  -- The writes of `init`, whose failures are only logged.
  unfoldable pub write_keys : F → ℕ → List (List ℕ) → F
  write_keys f base [] = f
  write_keys f base (key ∷ keys) =
      let f' = (write_u64 dev f base key_store_addr key_page_end (take 8 key)).0 in
      let f'' = (write_u64 dev f' (base + 8) key_store_addr key_page_end (drop 8 key)).0 in
      write_keys f'' (base + 16) keys

module _ {R : Type 0} (random_word : R → Option (List ℕ) × R) where
  -- The words of a key; zeros in place of the whole key when one does not come in time.
  unfoldable pub key_words : ℕ → List ℕ → R → List ℕ × R
  key_words zero key r = (key, r)
  key_words (suc n) key r =
      let (word, r') = random_word r in
      elim word [ none ↦ (replicate 16 0, r') | some bytes ↦ key_words n (key ++ bytes) r' ]

  unfoldable pub generate_key_from_rng : R → List ℕ × R
  generate_key_from_rng r = key_words 4 [] r

  unfoldable pub generate_keys : ℕ → R → List (List ℕ) × R
  generate_keys zero r = ([], r)
  generate_keys (suc n) r =
      let (key, r') = generate_key_from_rng r in
      let (keys, r'') = generate_keys n r' in (key ∷ keys, r'')

module _ {F R : Type 0} (dev : FlashDevice F) (random_word : R → Option (List ℕ) × R) where
  unfoldable pub first_boot : F → R → List (List ℕ) × F × R
  first_boot f r =
      let (new_keys, r') = generate_keys random_word 3 r in
      let (f', outcome) = erase_region dev f key_page key_page_end in
      elim outcome [
        | some _ ↦ (new_keys, f', r')
        | none ↦ (new_keys, write_keys dev f' key_store_addr new_keys, r')
      ]

  unfoldable pub init : F → R → List (List ℕ) × F × R
  init f r =
      let raw = read_bytes dev f key_store_addr key_store_size in
      let fresh = first_boot f r in if all_erased raw then fresh else (decode_keys 3 raw, f, r)
