-- ===== src/Shell/Editor.antt =====
-- src/shell/task.rs: the editor over whole inputs.
use rust_foc.Shell.Shift.{open_gap-IsOpened, IsOpened, write-Yields}
use rust_foc.Shell.Zipper.{zipper, type_char}
use rust_foc.Shell.Refine.{
  quiet-Shows, slice-ext, left_of-ext, line_eq, length-slice, length-left_of, left_of, line_of,
  Shows, line_at, shown,
}
use rust_foc.Shell.Line.{open_gap, write, slice, insert}
use rust_foc.Common.{
  ℕ, zero, suc, ◌+◌, ◌-◌, ◌≤◌, ◌<◌, ◌≡◌, refl, arith, none, true, false, Bool-cases, inl, inr, ltb,
  [], ◌∷◌, ◌++◌, List, sym, ap, ap₂, ◌∙◌, length, replicate,
}
use rust_foc.Foc.Total.{Yields, Yields->>=}

-- A line with one more character at the cursor.
inserted-Shows :
    (f g : ℕ → ℕ) (pos n b len cursor : ℕ) (out : List ℕ)
    → pos + n < 64
    → len ≡ pos + n + 1
    → cursor ≡ pos + 1
    → ((j : ℕ) → j < pos → g j ≡ f j)
    → g pos ≡ b
    → ((j : ℕ) → j < n → g (suc pos + j) ≡ f (pos + j))
    → out ≡ b ∷ (slice f pos n ++ replicate n 8)
    → Shows
        (record { line = line_of g len cursor; out = out; entered = none })
        (type_char (left_of f pos) (slice f pos n) b)
unfolding shown
inserted-Shows f g pos n b len cursor out h e d before here after echoed =
    let lengths : length (left_of f pos) + length (slice f pos n) ≡ pos + n =
      ap₂ (λ a b. a + b) (length-left_of pos f) (length-slice n pos f) in
    let room : ltb (length (left_of f pos) + length (slice f pos n)) 64 ≡ true =
      ap (λ k. ltb k 64) lengths ∙ ground arith in
    rw room (record {
      buf = g;
      pos = suc pos;
      rest = n;
      fits = omega arith;
      line = line_eq g _ _ _ _ (omega arith) (omega arith);
      view =
          ap₂ zipper (ap₂ (λ x l. x ∷ l) (sym here) (sym (left_of-ext pos f g before)))
            (sym (slice-ext n pos (suc pos) f g after));
      out = echoed ∙ ap (λ m. b ∷ (slice f pos n ++ replicate m 8)) (sym (length-slice n pos f));
      entered = refl;
    })

append-Shows :
    (f : ℕ → ℕ) (pos b : ℕ)
    → pos < 64
    → Yields
        (insert (line_at f pos 0) b)
        (λ t. Shows t (type_char (left_of f pos) (slice f pos 0) b))
unfolding insert slice
append-Shows f pos b h =
    let room : ltb (pos + 0) 64 ≡ true = ground arith in
    let at_end : ltb pos (pos + 0) ≡ false = ground arith in
    rw (room, at_end)
      (Yields->>= (write f (pos + 0) b) _ _ _ (write-Yields f (pos + 0) b (omega arith))
        (λ g (at_pos, others). (
          _,
          refl,
          inserted-Shows f g pos 0 b (pos + 0 + 1) (pos + 0 + 1) (b ∷ []) (omega arith)
              (omega arith) (omega arith) (λ j low. others j (ground arith))
              (ap g (omega arith) ∙ at_pos) (λ j low. absurd (omega arith)) refl,
        )))

echoed-middle :
    (f k : ℕ → ℕ) (pos m b : ℕ)
    → k pos ≡ b
    → ((j : ℕ) → j < suc m → k (suc pos + j) ≡ f (pos + j))
    → slice k pos (pos + suc m + 1 - pos) ++ replicate (pos + suc m + 1 - (pos + 1)) 8
      ≡ b ∷ (slice f pos (suc m) ++ replicate (suc m) 8)
unfolding slice
echoed-middle f k pos m b here after =
    let written : pos + suc m + 1 - pos ≡ suc (suc m) = omega arith in
    let back : pos + suc m + 1 - (pos + 1) ≡ suc m = omega arith in
    ap₂ (λ p q. slice k pos p ++ replicate q 8) written back
    ∙ ap₂ (λ x l. x ∷ (l ++ replicate (suc m) 8)) here (slice-ext (suc m) pos (suc pos) f k after)

middle-Shows :
    (f : ℕ → ℕ) (pos m b : ℕ)
    → pos + suc m < 64
    → Yields
        (insert (line_at f pos (suc m)) b)
        (λ t. Shows t (type_char (left_of f pos) (slice f pos (suc m)) b))
unfolding insert
middle-Shows f pos m b h =
    let room : ltb (pos + suc m) 64 ≡ true = ground arith in
    let inside : ltb pos (pos + suc m) ≡ true = ground arith in
    let shift : pos + suc m - pos ≡ suc m = omega arith in
    rw (room, inside)
      (Yields->>= (open_gap (pos + suc m - pos) pos f) (IsOpened (suc m) pos f) _ _
        (rw shift (open_gap-IsOpened (suc m) pos f h))
        (λ g opened.
          Yields->>= (write g pos b) _ _ _ (write-Yields g pos b (omega arith)) (λ k (here, others).
            let before : (j : ℕ) → j < pos → k j ≡ f j =
              λ j low. others j (ground arith) ∙ opened.before j low in
            let after : (j : ℕ) → j < suc m → k (suc pos + j) ≡ f (pos + j) = λ j low.
              others (suc pos + j) (ground arith)
              ∙ ap g (omega arith)
              ∙ opened.moved (pos + j) (omega arith) (omega arith) in
            (
              _,
              refl,
              inserted-Shows f k pos (suc m) b (pos + suc m + 1) (pos + 1) _ h refl refl before here
                  after (echoed-middle f k pos m b here after),
            ))))

with_room-Shows :
    (f : ℕ → ℕ) (pos n b : ℕ)
    → pos + n < 64
    → Yields
        (insert (line_at f pos n) b)
        (λ t. Shows t (type_char (left_of f pos) (slice f pos n) b))
with_room-Shows f pos zero b h = append-Shows f pos b (omega arith)
with_room-Shows f pos (suc m) b h = middle-Shows f pos m b h

pub insert-Shows :
    (f : ℕ → ℕ) (pos n b : ℕ)
    → pos + n ≤ 64
    → Yields
        (insert (line_at f pos n) b)
        (λ t. Shows t (type_char (left_of f pos) (slice f pos n) b))
unfolding insert shown
insert-Shows f pos n b h = elim (Bool-cases (ltb (pos + n) 64)) [
  | inl room ↦ with_room-Shows f pos n b (ground arith)
  | inr full ↦
      let lengths : length (left_of f pos) + length (slice f pos n) ≡ pos + n =
        ap₂ (λ a b. a + b) (length-left_of pos f) (length-slice n pos f) in
      let refused : ltb (length (left_of f pos) + length (slice f pos n)) 64 ≡ false =
        ap (λ k. ltb k 64) lengths ∙ full in
      rw (full, refused) (_, refl, quiet-Shows f pos n h)
]
