-- ===== src/Shell/Session.antt =====
-- src/shell/task.rs: what comes of a whole sequence of bytes.
use rust_foc.Shell.Editor.{insert-Shows}
use rust_foc.Shell.Zipper.{zipper, on_escape, on_byte, Zipper}
use rust_foc.Shell.Refine.{
  arrow_right-Shows, arrow_left-Shows, quiet-Shows, left_of, backspace-Shows, enter-Shows, Shows,
  line_at, shown,
}
use rust_foc.Shell.Line.{is_printable, empty_line, slice, escape, Line, handle_byte}
use rust_foc.Common.{
  subst, ℕ, ◌+◌, ◌≤◌, ◌≡◌, refl, arith, some, none, Bool-cases, inl, inr, ◌==◌, ◌||◌, [], ◌∷◌, ◌++◌,
  List, sym, ap, ap₂, ◌∙◌, Option, ◌>>=◌,
}
use rust_foc.Foc.Total.{Yields, Yields->>=}

-- A byte, with what a read after it would return.
abbrev pub Key : Type 0
Key = ℕ × List ℕ

abbrev pub keep : Option (List ℕ) → List (List ℕ) → List (List ℕ)
keep none lines = lines
keep (some line) lines = line ∷ lines

-- The line at the end, all that was written, and the lines that were entered.
abbrev pub shell : Line → List Key → Option (Line × List ℕ × List (List ℕ))
shell l [] = some (l, [], [])
shell l ((b, more) ∷ keys) = handle_byte l b more >>= λ t.
    shell t.line keys >>= λ (l', out, entered). some (l', t.out ++ out, keep t.entered entered)

abbrev pub editor : Zipper → List Key → Zipper × List ℕ × List (List ℕ)
editor z [] = (z, [], [])
editor z ((b, more) ∷ keys) =
    let r = on_byte z b more in
    let rest = editor r.0 keys in (rest.0, r.1 ++ rest.1, keep r.2 rest.2)

escape-Shows :
    (f : ℕ → ℕ) (pos n : ℕ) (more : List ℕ)
    → pos + n ≤ 64
    → Shows (escape (line_at f pos n) more) (on_escape (left_of f pos) (slice f pos n) more)
unfolding escape shown
escape-Shows f pos n [] h = quiet-Shows f pos n h
escape-Shows f pos n (x ∷ []) h = quiet-Shows f pos n h
escape-Shows f pos n (x ∷ c ∷ y ∷ more) h = quiet-Shows f pos n h
escape-Shows f pos n (x ∷ c ∷ []) h = elim (Bool-cases (x == 91)) [
  | inl bracket ↦ elim (Bool-cases (c == 68)) [
    | inl left ↦ rw (bracket, left) (arrow_left-Shows f pos n h)
    | inr other ↦ elim (Bool-cases (c == 67)) [
      | inl right ↦ rw (bracket, other, right) (arrow_right-Shows f pos n h)
      | inr neither ↦ rw (bracket, other, neither) (quiet-Shows f pos n h)
    ]
  ]
  | inr none_of ↦ rw none_of (quiet-Shows f pos n h)
]

handle_byte-Shows :
    (f : ℕ → ℕ) (pos n b : ℕ) (more : List ℕ)
    → pos + n ≤ 64
    → Yields (handle_byte (line_at f pos n) b more) (λ t. Shows t (on_byte (shown f pos n) b more))
unfolding handle_byte shown
handle_byte-Shows f pos n b more h = elim (Bool-cases (b == 13 || b == 10)) [
  | inl ends ↦ rw ends (_, refl, enter-Shows f pos n)
  | inr goes_on ↦ elim (Bool-cases (b == 8 || b == 127)) [
    | inl erases ↦ rw (goes_on, erases) (backspace-Shows f pos n h)
    | inr keeps ↦ elim (Bool-cases (b == 27)) [
      | inl escapes ↦ rw (goes_on, keeps, escapes) (_, refl, escape-Shows f pos n more h)
      | inr plain ↦ elim (Bool-cases (is_printable b)) [
        | inl printable ↦ rw (goes_on, keeps, plain, printable) (insert-Shows f pos n b h)
        | inr control ↦ rw (goes_on, keeps, plain, control) (_, refl, quiet-Shows f pos n h)
      ]
    ]
  ]
]

-- The line that the code ends with shows what the editor ends with.
abbrev pub IsShown : Line → Zipper → Type 0
IsShown l z =
    (buf : ℕ → ℕ) × (pos : ℕ) × (rest : ℕ) × (pos + rest ≤ 64)
    × (l ≡ line_at buf pos rest)
    × (z ≡ shown buf pos rest)

shell-Shown :
    (keys : List Key) (f : ℕ → ℕ) (pos n : ℕ)
    → pos + n ≤ 64
    → Yields (shell (line_at f pos n) keys) (λ x.
      IsShown x.0 (editor (shown f pos n) keys).0
      × x.1 ≡ (editor (shown f pos n) keys).1
      × x.2 ≡ (editor (shown f pos n) keys).2)
shell-Shown [] f pos n h = (_, refl, ((f, pos, n, h, refl, refl), refl, refl))
shell-Shown ((b, more) ∷ keys) f pos n h =
    Yields->>= (handle_byte (line_at f pos n) b more) _ _ _ (handle_byte-Shows f pos n b more h)
      (λ t sh.
        let r = on_byte (shown f pos n) b more in
        let (x, e, (view, written, lines)) = shell-Shown keys sh.buf sh.pos sh.rest sh.fits in
        let back = sym sh.view in
        (
          (x.0, t.out ++ x.1, keep t.entered x.2),
          ap (λ o. o >>= λ y. some (y.0, t.out ++ y.1, keep t.entered y.2))
              (ap (λ l. shell l keys) sh.line ∙ e),
          (
            subst (λ z. IsShown x.0 (editor z keys).0) back view,
            ap₂ (λ a b. a ++ b) sh.out (written ∙ ap (λ z. (editor z keys).1) back),
            ap₂ keep sh.entered (lines ∙ ap (λ z. (editor z keys).2) back),
          ),
        ))

-- From an empty line, whatever bytes come, and whatever the reads after an escape return: the code
-- never indexes outside its buffer, writes what the editor writes and enters the lines that it
-- enters, and the line that it ends with, of at most 64 characters, is the editor's.
pub shell-refines :
    (keys : List Key)
    → Yields (shell empty_line keys) (λ (l, out, entered).
      IsShown l (editor (zipper [] []) keys).0
      × out ≡ (editor (zipper [] []) keys).1
      × entered ≡ (editor (zipper [] []) keys).2)
unfolding shown slice
shell-refines keys = shell-Shown keys (λ i. 0) 0 0 (omega arith)
