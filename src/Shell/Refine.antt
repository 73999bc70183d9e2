-- ===== src/Shell/Refine.antt =====
-- src/shell/task.rs: the array, length and position of the code implement the editor of Zipper.
use rust_foc.Shell.Shift.{close_gap-IsClosed, IsClosed}
use rust_foc.Shell.Zipper.{
  zipper, go_right, enter_text, go_left, Reaction, text_from, erase, Zipper,
}
use rust_foc.Shell.Line.{
  close_gap, prompt, Line, quiet, backspace, enter, arrow_left, Turn, arrow_right, slice,
}
use rust_foc.Common.{
  ℕ, zero, suc, ◌+◌, ◌-◌, ◌≤◌, ◌<◌, ◌≡◌, refl, arith, some, none, true, false, ltb, [], ◌∷◌, ◌++◌,
  List, sym, ap, ap₂, ◌∙◌, length, replicate,
}
use rust_foc.Foc.Total.{Yields, Yields->>=}

-- The characters before an index, the nearest one first.
abbrev pub left_of : (ℕ → ℕ) → ℕ → List ℕ
left_of buf zero = []
left_of buf (suc n) = buf n ∷ left_of buf n

abbrev pub line_at : (ℕ → ℕ) → ℕ → ℕ → Line
line_at buf pos n = record { buf = buf; len = pos + n; pos = pos }

unfoldable pub shown : (ℕ → ℕ) → ℕ → ℕ → Zipper
shown buf pos n = zipper (left_of buf pos) (slice buf pos n)

-- What the code left shows what the editor shows, and it wrote and entered the same.
pub record Shows (t : Turn) (r : Reaction) : Type 0 where
  pub buf : ℕ → ℕ
  pub pos : ℕ
  pub rest : ℕ
  pub fits : pos + rest ≤ 64
  pub line : t.line ≡ line_at buf pos rest
  pub view : r.0 ≡ shown buf pos rest
  pub out : t.out ≡ r.1
  pub entered : t.entered ≡ r.2

pub left_of-ext : (n : ℕ) (f g : ℕ → ℕ) → ((j : ℕ) → j < n → g j ≡ f j) → left_of g n ≡ left_of f n
left_of-ext zero f g h = refl
left_of-ext (suc n) f g h =
    ap₂ (λ x l. x ∷ l) (h n (omega arith)) (left_of-ext n f g (λ j low. h j (omega arith)))

pub slice-ext :
    (n i k : ℕ) (f g : ℕ → ℕ)
    → ((j : ℕ) → j < n → g (k + j) ≡ f (i + j))
    → slice g k n ≡ slice f i n
unfolding slice
slice-ext zero i k f g h = refl
slice-ext (suc n) i k f g h =
    let head : g k ≡ f i = ap g (omega arith) ∙ h 0 (omega arith) ∙ ap f (omega arith) in
    ap₂ (λ x l. x ∷ l) head
      (slice-ext n (suc i) (suc k) f g
        (λ j low. ap g (omega arith) ∙ h (suc j) (omega arith) ∙ ap f (omega arith)))

pub length-left_of : (n : ℕ) (f : ℕ → ℕ) → length (left_of f n) ≡ n
length-left_of zero f = refl
length-left_of (suc n) f = ap suc (length-left_of n f)

pub length-slice : (n i : ℕ) (f : ℕ → ℕ) → length (slice f i n) ≡ n
unfolding slice
length-slice zero i f = refl
length-slice (suc n) i f = ap suc (length-slice n (suc i) f)

text_from-shown : (p n : ℕ) (f : ℕ → ℕ) → text_from (left_of f p) (slice f p n) ≡ slice f 0 (p + n)
unfolding slice
text_from-shown zero n f = ap (slice f 0) (omega arith)
text_from-shown (suc p) n f = text_from-shown p (suc n) f ∙ ap (slice f 0) (omega arith)

-- A turn that does nothing.
pub quiet-Shows :
    (f : ℕ → ℕ) (pos n : ℕ)
    → pos + n ≤ 64
    → Shows (quiet (line_at f pos n)) (shown f pos n, [], none)
quiet-Shows f pos n h = record {
  buf = f;
  pos = pos;
  rest = n;
  fits = h;
  line = refl;
  view = refl;
  out = refl;
  entered = refl;
}

abbrev pub line_of : (ℕ → ℕ) → ℕ → ℕ → Line
line_of f len pos = record { buf = f; len = len; pos = pos }

pub line_eq :
    (f : ℕ → ℕ) (len len' pos pos' : ℕ)
    → len ≡ len'
    → pos ≡ pos'
    → line_of f len pos ≡ line_of f len' pos'
line_eq f len len' pos pos' e d = ap₂ (λ l p. line_of f l p) e d

enter_text-some :
    (l r : List ℕ)
    → ltb 0 (length l + length r) ≡ true
    → enter_text l r ≡ (zipper [] [], 13 ∷ 10 ∷ prompt, some (text_from l r))
enter_text-some [] [] h = cc
enter_text-some [] (x ∷ r) h = refl
enter_text-some (x ∷ l) r h = refl

entered-Shows :
    (f : ℕ → ℕ) (pos n : ℕ)
    → ltb 0 (pos + n) ≡ true
    → Shows (enter (line_at f pos n)) (enter_text (left_of f pos) (slice f pos n))
unfolding enter shown slice
entered-Shows f pos n h =
    let lengths : length (left_of f pos) + length (slice f pos n) ≡ pos + n =
      ap₂ (λ a b. a + b) (length-left_of pos f) (length-slice n pos f) in
    let e = enter_text-some (left_of f pos) (slice f pos n) (ap (ltb 0) lengths ∙ h) in
    rw h (record {
      buf = f;
      pos = 0;
      rest = 0;
      fits = omega arith;
      line = refl;
      view = ap (λ r. r.0) e;
      out = sym (ap (λ r. r.1) e);
      entered = ap some (sym (text_from-shown pos n f)) ∙ sym (ap (λ r. r.2) e);
    })

pub enter-Shows :
    (f : ℕ → ℕ) (pos n : ℕ)
    → Shows (enter (line_at f pos n)) (enter_text (left_of f pos) (slice f pos n))
unfolding enter shown slice
enter-Shows f zero zero = record {
  buf = f;
  pos = 0;
  rest = 0;
  fits = omega arith;
  line = refl;
  view = refl;
  out = refl;
  entered = refl;
}
enter-Shows f zero (suc n) = entered-Shows f zero (suc n) (ground arith)
enter-Shows f (suc p) n = entered-Shows f (suc p) n (ground arith)

pub backspace-Shows :
    (f : ℕ → ℕ) (pos n : ℕ)
    → pos + n ≤ 64
    → Yields (backspace (line_at f pos n)) (λ t. Shows t (erase (left_of f pos) (slice f pos n)))
unfolding backspace shown slice
backspace-Shows f zero n h = (_, refl, quiet-Shows f zero n h)
backspace-Shows f (suc p) n h =
    let some_left : ltb 0 (suc p) ≡ true = ground arith in
    let moved : suc p + n - 1 - (suc p - 1) ≡ n = omega arith in
    let back : suc p - 1 ≡ p = omega arith in
    let rest : suc p + n - 1 - (suc p - 1) ≡ n = omega arith in
    rw some_left (
      Yields->>= (close_gap (suc p + n - 1 - (suc p - 1)) (suc p - 1) f) (IsClosed n p f) _ _
        (rw (moved, back) (close_gap-IsClosed n p f (omega arith)))
        (λ g closed.
          let same : slice g p n ≡ slice f (suc p) n =
            slice-ext n (suc p) p f g
              (λ j low. closed.moved (p + j) (omega arith) (omega arith) ∙ ap f (omega arith)) in
          (
            _,
            refl,
            record {
              buf = g;
              pos = p;
              rest = n;
              fits = omega arith;
              line = line_eq g _ _ _ _ (omega arith) back;
              view = ap₂ zipper (sym (left_of-ext p f g (λ j low. closed.before j low))) (sym same);
              out =
                  ap₂ (λ q m. slice g q m ++ 32 ∷ replicate (m + 1) 8) back rest
                  ∙ ap₂ (λ r m. r ++ 32 ∷ replicate (m + 1) 8) same
                      (sym (length-slice n (suc p) f));
              entered = refl;
            },
          )))

pub arrow_left-Shows :
    (f : ℕ → ℕ) (pos n : ℕ)
    → pos + n ≤ 64
    → Shows (arrow_left (line_at f pos n)) (go_left (left_of f pos) (slice f pos n))
unfolding arrow_left shown slice
arrow_left-Shows f zero n h = quiet-Shows f zero n h
arrow_left-Shows f (suc p) n h =
    let some_left : ltb 0 (suc p) ≡ true = ground arith in
    rw some_left (record {
      buf = f;
      pos = p;
      rest = suc n;
      fits = omega arith;
      line = line_eq f _ _ _ _ (omega arith) (omega arith);
      view = refl;
      out = refl;
      entered = refl;
    })

pub arrow_right-Shows :
    (f : ℕ → ℕ) (pos n : ℕ)
    → pos + n ≤ 64
    → Shows (arrow_right (line_at f pos n)) (go_right (left_of f pos) (slice f pos n))
unfolding arrow_right shown slice
arrow_right-Shows f pos zero h =
    let at_end : ltb pos (pos + 0) ≡ false = ground arith in rw at_end (quiet-Shows f pos zero h)
arrow_right-Shows f pos (suc m) h =
    let before_end : ltb pos (pos + suc m) ≡ true = ground arith in
    rw before_end (record {
      buf = f;
      pos = suc pos;
      rest = m;
      fits = omega arith;
      line = line_eq f _ _ _ _ (omega arith) (omega arith);
      view = refl;
      out = refl;
      entered = refl;
    })
