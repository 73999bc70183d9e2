-- ===== src/Ota/Device.antt =====
-- The documented behaviour of the flash hardware, and what src/drivers/flash.rs makes of it.
use native.Mathlib.Nat.{add-zero, zero-add, suc-add}
use native.Mathlib.Decide.{dec_lt}
use rust_foc.Common.{inl, ◌⊎◌, subst}
use native.Mathlib.Decide.{dec_lt}
use rust_foc.Common.{
  ℕ, ◌+◌, ◌-◌, ◌*◌, ◌%◌, ◌≤◌, ◌<◌, ◌≡◌, refl, sym, ap, ap₂, ◌∙◌, true, false, ◌&&◌, List, [], ◌∷◌,
  ◌++◌, none, zero, suc, ltb, leb, if◌then◌else◌, length, get_or, replicate, arith,
}
use rust_foc.Ota.Flash.{
  erase_pages, FlashDevice, flash_base, erase_size, page_of, read_bytes, program_checked, write_u64,
  bytes_eq,
}

-- Programming erased bytes succeeds and sets just those; erasing a page succeeds and sets just its
-- bytes to 0xFF.
pub record Behaves {F : Type 0} (dev : FlashDevice F) : Type 0 where
  pub program_flag :
      (f : F) (a : ℕ) (w : List ℕ)
      → read_bytes dev f a 8 ≡ replicate 8 0xFF
      → (dev.program f a w).1 ≡ false
  pub program_read :
      (f : F) (a : ℕ) (w : List ℕ) (x : ℕ)
      → read_bytes dev f a 8 ≡ replicate 8 0xFF
      → dev.read (dev.program f a w).0 x
        ≡ (if leb a x && ltb x (a + 8) then get_or w (x - a) 0 else dev.read f x)
  pub erase_flag : (f : F) (page : ℕ) → (dev.erase_page f page).1 ≡ false
  pub erase_read :
      (f : F) (page x : ℕ)
      → let first = flash_base + page * erase_size in
        dev.read (dev.erase_page f page).0 x
        ≡ (if leb first x && ltb x (first + erase_size) then 0xFF else dev.read f x)

bytes_eq_refl : (xs : List ℕ) → bytes_eq xs xs ≡ true
bytes_eq_refl [] = refl
bytes_eq_refl (x ∷ xs) = ground (arith, bytes_eq_refl xs)

module _ {F : Type 0} (dev : FlashDevice F) where
  -- All bytes from `a` up to `e` are erased.
  abbrev pub IsBlank : F → ℕ → ℕ → Type 0
  IsBlank f a e = (x : ℕ) → a ≤ x → x < e → dev.read f x ≡ 0xFF

  pub read_bytes-ext :
      (f f' : F) (a n : ℕ)
      → ((x : ℕ) → a ≤ x → x < a + n → dev.read f' x ≡ dev.read f x)
      → read_bytes dev f' a n ≡ read_bytes dev f a n
  read_bytes-ext f f' a zero h = refl
  read_bytes-ext f f' a (suc n) h =
      ap₂ ◌∷◌ (h a (omega arith) (omega arith))
        (read_bytes-ext f f' (a + 1) n (λ x lo hi. h x (omega arith) (omega arith)))

  pub read_bytes-get_or :
      (f : F) (a : ℕ) (w : List ℕ)
      → ((i : ℕ) → i < length w → dev.read f (a + i) ≡ get_or w i 0)
      → read_bytes dev f a (length w) ≡ w
  read_bytes-get_or f a [] h = refl
  read_bytes-get_or f a (b ∷ w) h =
      ap₂ ◌∷◌ (subst (λ x. dev.read f x ≡ b) (omega arith) (h 0 (omega arith))) (
        read_bytes-get_or f (a + 1) w (λ i lt.
          subst (λ x. dev.read f x ≡ get_or w i 0) (omega arith) (h (suc i) (omega arith))))

  pub read_bytes-add :
      (f : F) (a n m : ℕ)
      → read_bytes dev f a (n + m) ≡ read_bytes dev f a n ++ read_bytes dev f (a + n) m
  read_bytes-add f a zero m = rw (add-zero, zero-add) refl
  read_bytes-add f a (suc n) m = rw suc-add (
      ap (λ r. dev.read f a ∷ r)
        (read_bytes-add f (a + 1) n m
          ∙ ap (λ x. read_bytes dev f (a + 1) n ++ read_bytes dev f x m) (omega arith)))

  pub read_bytes-IsBlank :
      (f : F) (a n : ℕ) → IsBlank f a (a + n) → read_bytes dev f a n ≡ replicate n 0xFF
  read_bytes-IsBlank f a zero h = refl
  read_bytes-IsBlank f a (suc n) h =
      ap₂ ◌∷◌ (h a (omega arith) (omega arith))
        (read_bytes-IsBlank f (a + 1) n (λ x lo hi. h x (omega arith) (omega arith)))

module _ {F : Type 0} (dev : FlashDevice F) (behaves : Behaves dev) where
  -- A word that was programmed over erased bytes.
  pub record Wrote (f f' : F) (a : ℕ) (w : List ℕ) : Type 0 where
    pub word : read_bytes dev f' a 8 ≡ w
    pub others : (x : ℕ) → (x < a) ⊎ (a + 8 ≤ x) → dev.read f' x ≡ dev.read f x

  program-Wrote :
      (f : F) (a : ℕ) (w : List ℕ)
      → length w ≡ 8
      → IsBlank dev f a (a + 8)
      → Wrote f (dev.program f a w).0 a w
  program-Wrote f a w n e =
      let blank = read_bytes-IsBlank dev f a 8 e in
      record {
        word =
            ap (read_bytes dev (dev.program f a w).0 a) (sym n)
            ∙ read_bytes-get_or dev (dev.program f a w).0 a w
                (λ i lt. ground (arith, behaves.program_read f a w (a + i) blank));
        others = λ x out. ground (arith, behaves.program_read f a w x blank);
      }

  -- On hardware that behaves, `write_u64` of eight bytes at an aligned address within bounds, over
  -- erased bytes, succeeds, sets its word and keeps the rest of the flash.
  pub write_u64-Wrote :
      (f : F) (a start end : ℕ) (w : List ℕ)
      → a % 8 ≡ 0
      → flash_base ≤ a
      → start ≤ a
      → a + 8 ≤ end
      → length w ≡ 8
      → IsBlank dev f a (a + 8)
      → (f' : F) × (write_u64 dev f a start end w ≡ (f', none)) × Wrote f f' a w
  unfolding write_u64 program_checked
  write_u64-Wrote f a start end w al base lo hi n e =
      let blank = read_bytes-IsBlank dev f a 8 e in
      let wrote = program-Wrote f a w n e in
      let same : page_of a ≡ page_of (a + 7) = omega arith in
      (
        (dev.program f a w).0,
        ground (arith, behaves.program_flag f a w blank, wrote.word, bytes_eq_refl w, same),
        wrote,
      )

  -- The pages that were erased are blank, and the rest of the flash is as before.
  pub record Erased (f f' : F) (a e : ℕ) : Type 0 where
    pub blank : IsBlank dev f' a e
    pub others : (x : ℕ) → (x < a) ⊎ (e ≤ x) → dev.read f' x ≡ dev.read f x

  abbrev pub page_addr : ℕ → ℕ
  page_addr page = flash_base + page * erase_size

  -- On hardware that behaves, erasing `n` pages with numbers below 256 succeeds, blanks them and keeps
  -- the rest of the flash.
  pub erase_pages-Erased :
      (f : F) (page n : ℕ)
      → page + n ≤ 256
      → (f' : F) × (erase_pages dev f page n ≡ (f', none))
        × Erased f f' (page_addr page) (page_addr (page + n))
  unfolding erase_pages
  erase_pages-Erased f page zero h =
      (f, refl, record { blank = λ x lo hi. absurd (omega arith); others = λ x out. refl })
  erase_pages-Erased f page (suc n) h =
      let f₁ = (dev.erase_page f (page % 256)).0 in
      let (f', e, later) = erase_pages-Erased f₁ (page + 1) n (omega arith) in
      let small : page % 256 ≡ page = omega arith in
      (
        f',
        ground (arith, behaves.erase_flag f (page % 256), e),
        record {
          blank = λ x lo hi. elim (dec_lt x (page_addr (page + 1))) [
            | yes here ↦
                later.others x (inl here) ∙ ground (arith, behaves.erase_read f (page % 256) x)
            | no there ↦ later.blank x (omega arith) (omega arith)
          ];
          others = λ x out.
              later.others x (ground arith) ∙ ground (arith, behaves.erase_read f (page % 256) x);
        },
      )
