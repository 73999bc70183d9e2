-- ===== src/Platform/Keys/Laws.antt =====
-- src/key_store.rs: the keys come back as they were stored.
use rust_foc.Ota.Device.{
  erase_pages-Erased, read_bytes-ext, Wrote, read_bytes-add, write_u64-Wrote, IsBlank, Behaves,
}
use rust_foc.Ota.Flash.{erase_region, write_u64, read_bytes, FlashDevice}
use rust_foc.Platform.Keys.{
  first_boot, key_store_size, all_erased, init, store, or_fail, key_page_end, key_store_addr,
  store_keys, decode_keys,
}
use mathlib.Core.List.{append_assoc}
use rust_foc.Common.{
  if◌then◌else◌, length-drop, length-take, Option, ℕ, zero, suc, ◌+◌, ◌*◌, ◌%◌, ◌≤◌, ◌<◌, ◌≡◌, refl,
  arith, false, List, [], ◌∷◌, ◌++◌, none, inl, inr, ◌⊎◌, take, drop, length, All, sym, ap, ap₂,
  ◌∙◌,
}

take-append : {A : Type 0} (n : ℕ) (xs ys : List A) → length xs ≡ n → take n (xs ++ ys) ≡ xs
take-append zero [] ys h = refl
take-append zero (x ∷ xs) ys h = absurd (omega arith)
take-append (suc n) [] ys h = absurd (omega arith)
take-append (suc n) (x ∷ xs) ys h = ap (λ r. x ∷ r) (take-append n xs ys (omega arith))

drop-append : {A : Type 0} (n : ℕ) (xs ys : List A) → length xs ≡ n → drop n (xs ++ ys) ≡ ys
drop-append zero [] ys h = refl
drop-append zero (x ∷ xs) ys h = absurd (omega arith)
drop-append (suc n) [] ys h = absurd (omega arith)
drop-append (suc n) (x ∷ xs) ys h = drop-append n xs ys (omega arith)

take-drop : {A : Type 0} (n : ℕ) (xs : List A) → take n xs ++ drop n xs ≡ xs
take-drop zero xs = refl
take-drop (suc n) [] = refl
take-drop (suc n) (x ∷ xs) = ap (λ r. x ∷ r) (take-drop n xs)

-- The bytes of keys.
abbrev pub join : List (List ℕ) → List ℕ
join [] = []
join (key ∷ keys) = key ++ join keys

-- Each key has 16 bytes.
abbrev pub AreKeys : List (List ℕ) → Type 0
AreKeys keys = All (λ key. length key ≡ 16) keys

pub decode_keys-join :
    (keys : List (List ℕ)) → AreKeys keys → decode_keys (length keys) (join keys) ≡ keys
unfolding decode_keys
decode_keys-join [] h = refl
decode_keys-join (key ∷ keys) (n, h) =
    ap₂ (λ k r. k ∷ decode_keys (length keys) r) (take-append 16 key (join keys) n)
      (drop-append 16 key (join keys) n)
    ∙ ap (λ r. key ∷ r) (decode_keys-join keys h)

module _ {F : Type 0} (dev : FlashDevice F) where
  store_keys-step :
      (f f1 f2 : F) (a : ℕ) (key : List ℕ) (keys : List (List ℕ))
      → write_u64 dev f a key_store_addr key_page_end (take 8 key) ≡ (f1, none)
      → write_u64 dev f1 (a + 8) key_store_addr key_page_end (drop 8 key) ≡ (f2, none)
      → store_keys dev f a (key ∷ keys) ≡ store_keys dev f2 (a + 16) keys
  unfolding store_keys
  store_keys-step f f1 f2 a key keys e1 e2 =
      ap
        (λ o. or_fail o λ f'.
          or_fail (write_u64 dev f' (a + 8) key_store_addr key_page_end (drop 8 key))
            λ f''. store_keys dev f'' (a + 16) keys)
        e1
      ∙ ap (λ o. or_fail o λ f''. store_keys dev f'' (a + 16) keys) e2

  read_bytes-key :
      (f : F) (a m : ℕ) (key rest : List ℕ)
      → read_bytes dev f a 8 ≡ take 8 key
      → read_bytes dev f (a + 8) 8 ≡ drop 8 key
      → read_bytes dev f (a + 16) m ≡ rest
      → read_bytes dev f a (8 + (8 + m)) ≡ key ++ rest
  read_bytes-key f a m key rest lo hi more =
      read_bytes-add dev f a 8 (8 + m)
      ∙ ap₂ ◌++◌ lo (
          read_bytes-add dev f (a + 8) 8 m
          ∙ ap₂ ◌++◌ hi (ap (λ x. read_bytes dev f x m) (omega arith) ∙ more))
      ∙ sym (append_assoc (take 8 key) (drop 8 key) rest)
      ∙ ap (λ k. k ++ rest) (take-drop 8 key)

  -- Keys in flash from an address, and the rest as before.
  pub record IsStored (f f' : F) (a : ℕ) (keys : List (List ℕ)) : Type 0 where
    pub bytes : read_bytes dev f' a (length keys * 16) ≡ join keys
    pub others : (x : ℕ) → (x < a) ⊎ (a + length keys * 16 ≤ x) → dev.read f' x ≡ dev.read f x

module _ {F : Type 0} (dev : FlashDevice F) (behaves : Behaves dev) where
  more-IsStored :
      (f f1 f2 f3 : F) (a : ℕ) (key : List ℕ) (keys : List (List ℕ))
      → Wrote dev behaves f f1 a (take 8 key)
      → Wrote dev behaves f1 f2 (a + 8) (drop 8 key)
      → IsStored dev f2 f3 (a + 16) keys
      → IsStored dev f f3 a (key ∷ keys)
  more-IsStored f f1 f2 f3 a key keys w1 w2 s = record {
    bytes =
        ap (read_bytes dev f3 a) (omega arith)
        ∙ read_bytes-key dev f3 a (length keys * 16) key (join keys)
            (read_bytes-ext dev f1 f3 a 8
                (λ x lo hi. s.others x (inl (omega arith)) ∙ w2.others x (inl (omega arith)))
              ∙ w1.word)
            (read_bytes-ext dev f2 f3 (a + 8) 8 (λ x lo hi. s.others x (inl (omega arith)))
              ∙ w2.word)
            s.bytes;
    others = λ x out. elim out [
      | inl below ↦
          s.others x (inl (omega arith))
          ∙ w2.others x (inl (omega arith))
          ∙ w1.others x (inl (omega arith))
      | inr above ↦
          s.others x (inr (omega arith))
          ∙ w2.others x (inr (omega arith))
          ∙ w1.others x (inr (omega arith))
    ];
  }

  pub store_keys-IsStored :
      (f : F) (a : ℕ) (keys : List (List ℕ))
      → AreKeys keys
      → a % 8 ≡ 0
      → key_store_addr ≤ a
      → a + length keys * 16 ≤ key_page_end
      → IsBlank dev f a (a + length keys * 16)
      → (f' : F) × (store_keys dev f a keys ≡ (f', none)) × IsStored dev f f' a keys
  unfolding store_keys
  store_keys-IsStored f a [] ks al lo hi e =
      (f, refl, record { bytes = refl; others = λ x out. refl })
  store_keys-IsStored f a (key ∷ keys) (n, ks) al lo hi e =
      let (f1, e1, w1) =
        write_u64-Wrote dev behaves f a key_store_addr key_page_end (take 8 key) al (omega arith) lo
          (omega arith) (omega (arith, length-take 8 key)) (λ x l h. e x l (omega arith)) in
      let (f2, e2, w2) =
        write_u64-Wrote dev behaves f1 (a + 8) key_store_addr key_page_end (drop 8 key)
          (omega arith) (omega arith) (omega arith) (omega arith) (omega (arith, length-drop 8 key))
          (λ x l h. w1.others x (inr (omega arith)) ∙ e x (omega arith) (omega arith)) in
      let (f3, e3, s) =
        store_keys-IsStored f2 (a + 16) keys ks (omega arith) (omega arith) (omega arith) (λ x l h.
          w2.others x (inr (omega arith))
          ∙ w1.others x (inr (omega arith))
          ∙ e x (omega arith) (omega arith)) in
      (
        f3,
        store_keys-step dev f f1 f2 a key keys e1 e2 ∙ e3,
        more-IsStored f f1 f2 f3 a key keys w1 w2 s,
      )

  -- On hardware that behaves, storing three keys of 16 bytes that are not all 0xFF succeeds, whatever
  -- the flash held, and from then on the start of the firmware finds these keys: `init` returns them
  -- and changes neither the flash nor the generator.
  pub init-store :
      {R : Type 0} (random_word : R → Option (List ℕ) × R) (f : F) (r : R) (keys : List (List ℕ))
      → length keys ≡ 3
      → AreKeys keys
      → all_erased (join keys) ≡ false
      → (f' : F) × (store dev f keys ≡ (f', none)) × (init dev random_word f' r ≡ (keys, f', r))
  unfolding store init erase_region
  init-store random_word f r keys three ks some_set =
      let (f1, e1, erased) = erase_pages-Erased dev behaves f 63 1 (omega arith) in
      let (f2, e2, s) =
        store_keys-IsStored f1 key_store_addr keys ks refl (omega arith) (omega arith)
          (λ x lo hi. erased.blank x (omega arith) (omega arith)) in
      let size : key_store_size ≡ length keys * 16 = omega arith in
      let raw : read_bytes dev f2 key_store_addr key_store_size ≡ join keys =
        ap (read_bytes dev f2 key_store_addr) size ∙ s.bytes in
      let decoded : decode_keys 3 (join keys) ≡ keys =
        ap (λ n. decode_keys n (join keys)) (sym three) ∙ decode_keys-join keys ks in
      (
        f2,
        ap (λ o. or_fail o λ f'. store_keys dev f' key_store_addr keys) e1 ∙ e2,
        ap
              (λ bytes.
                if all_erased bytes
                then first_boot dev random_word f2 r
                else (decode_keys 3 bytes, f2, r))
              raw
            ∙ rw (some_set, decoded) refl,
      )
