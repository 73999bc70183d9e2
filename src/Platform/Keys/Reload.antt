-- ===== src/Platform/Keys/Reload.antt =====
-- src/key_store.rs: the keys that one start of the firmware leaves for the next.
use rust_foc.Ota.Device.{Behaves, erase_pages-Erased, read_bytes-ext}
use rust_foc.Ota.Flash.{FlashDevice, erase_pages, erase_region, read_bytes, write_u64}
use rust_foc.Platform.Keys.{
  all_erased, decode_keys, first_boot, generate_key_from_rng, generate_keys, init, key_page_end,
  key_store_addr, key_store_size, key_words, store_keys, write_keys,
}
use rust_foc.Platform.Keys.Laws.{AreKeys, join, decode_keys-join, store_keys-IsStored}
use rust_foc.Common.{
  ℕ, zero, suc, ◌+◌, ◌*◌, ◌≤◌, ◌<◌, ◌⊎◌, ◌≡◌, arith, refl, inl, inr, false, Bool-cases,
  Option-cases, Option, none, some, List, [], ◌∷◌, ◌++◌, length, length-append, take, drop, sym, ap,
  ◌∙◌,
}

-- What `init` returns when a start finds keys: they are in flash.
module _ {F : Type 0} (dev : FlashDevice F) where
  pub record Loaded (f : F) (keys : List (List ℕ)) : Type 0 where
    pub some_set : all_erased (read_bytes dev f key_store_addr key_store_size) ≡ false
    pub decoded : decode_keys 3 (read_bytes dev f key_store_addr key_store_size) ≡ keys

  pub init-Loaded :
      {R : Type 0} (random_word : R → Option (List ℕ) × R) (f : F) (r : R) (keys : List (List ℕ))
      → Loaded f keys
      → init dev random_word f r ≡ (keys, f, r)
  unfolding init
  init-Loaded random_word f r keys l = rw (l.some_set, l.decoded) refl

  pub Loaded-ext :
      (f f' : F) (keys : List (List ℕ))
      → ((x : ℕ)
          → key_store_addr ≤ x
          → x < key_store_addr + key_store_size
          → dev.read f' x ≡ dev.read f x)
      → Loaded f keys
      → Loaded f' keys
  Loaded-ext f f' keys same l =
      let bytes = read_bytes-ext dev f f' key_store_addr key_store_size same in
      record {
        some_set = ap all_erased bytes ∙ l.some_set;
        decoded = ap (decode_keys 3) bytes ∙ l.decoded;
      }

-- The documented width of a word of the generator.
abbrev pub GivesWords : {R : Type 0} → (R → Option (List ℕ) × R) → Type 0
GivesWords random_word = (r : _) (w : List ℕ) → (random_word r).0 ≡ some w → length w ≡ 4

module _ {R : Type 0} (random_word : R → Option (List ℕ) × R) (words : GivesWords random_word) where
  length-key_words :
      (n : ℕ) (key : List ℕ) (r : R)
      → length key + n * 4 ≡ 16
      → length (key_words random_word n key r).0 ≡ 16
  unfolding key_words
  length-key_words zero key r h = omega arith
  length-key_words (suc n) key r h = elim (Option-cases (random_word r).0) [
    | inl none_came ↦ ground (arith, none_came)
    | inr (w, came) ↦
        let rest =
          length-key_words n (key ++ w) (random_word r).1
            (omega (arith, length-append key w, words r w came)) in
        ground (arith, came, rest)
  ]

  pub generate_keys-AreKeys :
      (n : ℕ) (r : R)
      → AreKeys (generate_keys random_word n r).0 × (length (generate_keys random_word n r).0 ≡ n)
  unfolding generate_keys generate_key_from_rng
  generate_keys-AreKeys zero r = (tt, refl)
  generate_keys-AreKeys (suc n) r =
      let (more, size) = generate_keys-AreKeys n (key_words random_word 4 [] r).1 in
      ((length-key_words 4 [] r refl, more), ap suc size)

module _ {F : Type 0} (dev : FlashDevice F) (behaves : Behaves dev) where
  -- Where no write fails, the writes of `init` are those of `store`.
  write_keys-store_keys :
      (f f' : F) (a : ℕ) (keys : List (List ℕ))
      → store_keys dev f a keys ≡ (f', none)
      → write_keys dev f a keys ≡ f'
  unfolding write_keys store_keys
  write_keys-store_keys f f' a [] h = ap (λ x. x.0) h
  write_keys-store_keys f f' a (key ∷ keys) h =
      let w1 = write_u64 dev f a key_store_addr key_page_end (take 8 key) in
      let w2 = write_u64 dev w1.0 (a + 8) key_store_addr key_page_end (drop 8 key) in
      ground (arith, write_keys-store_keys w2.0 f' (a + 16) keys)

  first_boot-fine :
      {R : Type 0} (random_word : R → Option (List ℕ) × R) (f f1 f2 : F) (r : R)
      → let (keys, r') = generate_keys random_word 3 r in
        erase_pages dev f 63 1 ≡ (f1, none)
        → store_keys dev f1 key_store_addr keys ≡ (f2, none)
        → first_boot dev random_word f r ≡ (keys, f2, r')
  unfolding first_boot erase_region
  first_boot-fine random_word f f1 f2 r e1 e2 =
      ground
        (arith, e1, write_keys-store_keys f1 f2 key_store_addr (generate_keys random_word 3 r).0 e2)

  -- The keys of a first start, and the flash that holds them.
  pub first_boot_lem :
      {R : Type 0} (random_word : R → Option (List ℕ) × R) (f : F) (r : R)
      → GivesWords random_word
      → let (keys, r') = generate_keys random_word 3 r in
        (f' : F) × (first_boot dev random_word f r ≡ (keys, f', r'))
        × (all_erased (join keys) ≡ false → Loaded dev f' keys)
        × ((x : ℕ) → (x < key_store_addr) ⊎ (key_page_end ≤ x) → dev.read f' x ≡ dev.read f x)
  first_boot_lem random_word f r words =
      let keys = (generate_keys random_word 3 r).0 in
      let (ks, three) = generate_keys-AreKeys random_word words 3 r in
      let (f1, e1, erased) = erase_pages-Erased dev behaves f 63 1 (omega arith) in
      let (f2, e2, s) =
        store_keys-IsStored dev behaves f1 key_store_addr keys ks refl (omega arith)
          (omega (arith, three)) (λ x lo hi. erased.blank x (omega arith) (omega (arith, three))) in
      let size : key_store_size ≡ length keys * 16 = omega (arith, three) in
      let raw : read_bytes dev f2 key_store_addr key_store_size ≡ join keys =
        ap (read_bytes dev f2 key_store_addr) size ∙ s.bytes in
      (
        f2,
        first_boot-fine random_word f f1 f2 r e1 e2,
        (λ some_set. record {
          some_set = ap all_erased raw ∙ some_set;
          decoded =
              ap (decode_keys 3) raw
              ∙ (ap (λ n. decode_keys n (join keys)) (sym three) ∙ decode_keys-join keys ks);
        }),
        λ x out. s.others x (ground arith) ∙ erased.others x (ground arith),
      )

  -- What a start finds or makes; the flash outside the page of the keys is kept.
  pub init_lem :
      {R : Type 0} (random_word : R → Option (List ℕ) × R) (f : F) (r : R)
      → GivesWords random_word
      → (keys : List (List ℕ)) × (f' : F) × (r' : R) × (init dev random_word f r ≡ (keys, f', r'))
        × (all_erased (join keys) ≡ false → Loaded dev f' keys)
        × ((x : ℕ) → (x < key_store_addr) ⊎ (key_page_end ≤ x) → dev.read f' x ≡ dev.read f x)
  unfolding init
  init_lem random_word f r words =
      let raw = read_bytes dev f key_store_addr key_store_size in
      elim (Bool-cases (all_erased raw)) [
        | inl erased ↦
            let (f', e, loaded, others) = first_boot_lem random_word f r words in
            (
              (generate_keys random_word 3 r).0,
              f',
              (generate_keys random_word 3 r).1,
              rw erased e,
              loaded,
              others,
            )
        | inr found ↦ (
          decode_keys 3 raw,
          f,
          r,
          rw found refl,
          (λ some_set. record { some_set = found; decoded = refl }),
          λ x out. refl,
        )
      ]
