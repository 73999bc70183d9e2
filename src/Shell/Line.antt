-- ===== src/Shell/Line.antt =====
-- src/shell/task.rs: the line editor, one turn of the task's loop. The buffer is a function on
-- indices; `none` is a panic on an index that is not below its size.
use rust_foc.Common.{
  ℕ, zero, suc, ◌+◌, ◌-◌, Bool, Option, none, some, if◌then◌else◌, ◌>>=◌, ltb, leb, ◌==◌, ◌&&◌,
  ◌||◌, List, [], ◌∷◌, ◌++◌, replicate,
}

abbrev pub cmd_buf_size : ℕ
cmd_buf_size = 64

pub record Line : Type 0 where
  pub buf : ℕ → ℕ
  pub len : ℕ
  pub pos : ℕ

-- What a turn leaves: the line, the bytes it wrote, and the line that was entered, if one was. What
-- the command of an entered line writes comes after the first two bytes.
pub record Turn : Type 0 where
  pub line : Line
  pub out : List ℕ
  pub entered : Option (List ℕ)

abbrev pub empty_line : Line
empty_line = record { buf = λ i. 0; len = 0; pos = 0 }

unfoldable pub read : (ℕ → ℕ) → ℕ → Option ℕ
read buf i = if ltb i cmd_buf_size then some (buf i) else none

unfoldable pub write : (ℕ → ℕ) → ℕ → ℕ → Option (ℕ → ℕ)
write buf i v = if ltb i cmd_buf_size then some (λ j. if j == i then v else buf j) else none

-- `&buf[i..i + n]`
unfoldable pub slice : (ℕ → ℕ) → ℕ → ℕ → List ℕ
slice buf i zero = []
slice buf i (suc n) = buf i ∷ slice buf (suc i) n

-- The loop of backspace, over so many indices from `i`.
unfoldable pub close_gap : ℕ → ℕ → (ℕ → ℕ) → Option (ℕ → ℕ)
close_gap zero i buf = some buf
close_gap (suc n) i buf = do v ← read buf (i + 1); buf' ← write buf i v; close_gap n (i + 1) buf'

-- The loop of an insertion, over so many indices from `i`, the last one first.
unfoldable pub open_gap : ℕ → ℕ → (ℕ → ℕ) → Option (ℕ → ℕ)
open_gap zero i buf = some buf
open_gap (suc n) i buf = do v ← read buf (i + n); buf' ← write buf (i + n + 1) v; open_gap n i buf'

abbrev pub prompt : List ℕ
prompt = 13 ∷ 10 ∷ 62 ∷ 32 ∷ []

abbrev pub quiet : Line → Turn
quiet l = record { line = l; out = []; entered = none }

unfoldable pub enter : Line → Turn
enter l =
    if ltb 0 l.len
    then record {
      line = record l { len = 0; pos = 0 };
      out = 13 ∷ 10 ∷ prompt;
      entered = some (slice l.buf 0 l.len);
    }
    else record { line = l; out = prompt; entered = none }

-- Between the two subtractions of the length the code only reads it.
unfoldable pub backspace : Line → Option Turn
backspace l =
    if ltb 0 l.pos
    then (close_gap (l.len - 1 - (l.pos - 1)) (l.pos - 1) l.buf >>= λ buf.
        let l' : Line = record { buf = buf; len = l.len - 1; pos = l.pos - 1 } in
        some (record {
          line = l';
          out = slice buf l'.pos (l'.len - l'.pos) ++ 32 ∷ replicate (l'.len - l'.pos + 1) 8;
          entered = none;
        }))
    else some (quiet l)

unfoldable pub arrow_left : Line → Turn
arrow_left l =
    if ltb 0 l.pos
    then record { line = record l { pos = l.pos - 1 }; out = 27 ∷ 91 ∷ 68 ∷ []; entered = none }
    else quiet l

unfoldable pub arrow_right : Line → Turn
arrow_right l =
    if ltb l.pos l.len
    then record { line = record l { pos = l.pos + 1 }; out = 27 ∷ 91 ∷ 67 ∷ []; entered = none }
    else quiet l

-- The bytes that the read after an escape returned, two at most.
unfoldable pub escape : Line → List ℕ → Turn
escape l (bracket ∷ c ∷ []) =
    if bracket == 91
    then if c == 68 then arrow_left l else if c == 67 then arrow_right l else quiet l
    else quiet l
escape l _ = quiet l

unfoldable pub insert : Line → ℕ → Option Turn
insert l b =
    if ltb l.len cmd_buf_size
    then if ltb l.pos l.len
      then (open_gap (l.len - l.pos) l.pos l.buf >>= λ shifted. write shifted l.pos b >>= λ buf.
          some (record {
            line = record { buf = buf; len = l.len + 1; pos = l.pos + 1 };
            out = slice buf l.pos (l.len + 1 - l.pos) ++ replicate (l.len + 1 - (l.pos + 1)) 8;
            entered = none;
          }))
      else (write l.buf l.len b >>= λ buf. some (record {
        line = record { buf = buf; len = l.len + 1; pos = l.len + 1 };
        out = b ∷ [];
        entered = none;
      }))
    else some (quiet l)

abbrev pub is_printable : ℕ → Bool
is_printable b = (leb 33 b && leb b 126) || b == 32

-- A byte that was read, with what a further read would return.
unfoldable pub handle_byte : Line → ℕ → List ℕ → Option Turn
handle_byte l b more =
    if b == 13 || b == 10
    then some (enter l)
    else if b == 8 || b == 127
    then backspace l
    else if b == 27
    then some (escape l more)
    else if is_printable b
    then insert l b
    else some (quiet l)
