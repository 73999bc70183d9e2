-- ===== src/Shell/Zipper.antt =====
-- What a line editor does: the characters before the cursor, the nearest one first, and the ones
-- after it.
use rust_foc.Common.{
  ℕ, ◌+◌, Option, none, some, if◌then◌else◌, ltb, ◌==◌, ◌||◌, List, [], ◌∷◌, ◌++◌, replicate,
  length,
}
use rust_foc.Shell.Line.{cmd_buf_size, prompt, is_printable}

pub record Zipper : Type 0 where
  pub left : List ℕ
  pub right : List ℕ

abbrev pub zipper : List ℕ → List ℕ → Zipper
zipper l r = record { left = l; right = r }

-- The characters of a line, in reading order.
abbrev pub text_from : List ℕ → List ℕ → List ℕ
text_from [] r = r
text_from (x ∷ l) r = text_from l (x ∷ r)

-- The line, the bytes for the terminal, and an entered line.
abbrev pub Reaction : Type 0
Reaction = Zipper × List ℕ × Option (List ℕ)

abbrev pub enter_text : List ℕ → List ℕ → Reaction
enter_text [] [] = (zipper [] [], prompt, none)
enter_text l r = (zipper [] [], 13 ∷ 10 ∷ prompt, some (text_from l r))

abbrev pub erase : List ℕ → List ℕ → Reaction
erase [] r = (zipper [] r, [], none)
erase (x ∷ l) r = (zipper l r, r ++ 32 ∷ replicate (length r + 1) 8, none)

abbrev pub go_left : List ℕ → List ℕ → Reaction
go_left [] r = (zipper [] r, [], none)
go_left (x ∷ l) r = (zipper l (x ∷ r), 27 ∷ 91 ∷ 68 ∷ [], none)

abbrev pub go_right : List ℕ → List ℕ → Reaction
go_right l [] = (zipper l [], [], none)
go_right l (x ∷ r) = (zipper (x ∷ l) r, 27 ∷ 91 ∷ 67 ∷ [], none)

-- A character at the cursor, while there is room.
abbrev pub type_char : List ℕ → List ℕ → ℕ → Reaction
type_char l r b =
    if ltb (length l + length r) cmd_buf_size
    then (zipper (b ∷ l) r, b ∷ (r ++ replicate (length r) 8), none)
    else (zipper l r, [], none)

abbrev pub on_escape : List ℕ → List ℕ → List ℕ → Reaction
on_escape l r (bracket ∷ c ∷ []) =
    if bracket == 91
    then if c == 68 then go_left l r else if c == 67 then go_right l r else (zipper l r, [], none)
    else (zipper l r, [], none)
on_escape l r _ = (zipper l r, [], none)

abbrev pub on_byte : Zipper → ℕ → List ℕ → Reaction
on_byte z b more =
    if b == 13 || b == 10
    then enter_text z.left z.right
    else if b == 8 || b == 127
    then erase z.left z.right
    else if b == 27
    then on_escape z.left z.right more
    else if is_printable b
    then type_char z.left z.right b
    else (z, [], none)
