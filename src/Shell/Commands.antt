-- ===== src/Shell/Commands.antt =====
-- src/shell/commands.rs: parsing and execution, on lines of ASCII characters, which the editor's
-- are. The texts that a command writes are left out.
use rust_foc.Common.{
  ℕ, zero, suc, ◌+◌, ◌-◌, ◌*◌, ◌/◌, ◌%◌, ◌^◌, min, Bool, true, false, Option, none, some,
  if◌then◌else◌, ◌>>=◌, leb, ◌==◌, ◌&&◌, ◌||◌, List, [], ◌∷◌,
}
use rust_foc.Foc.Float.{Float, ◌⊕◌, ◌⊗◌, ◌⊘◌, zero_f}
use rust_foc.Motor.Task.{Motor, run_spin, run_stop_inner}

pub data Cmd (W : Type 0) : Type 0 where
  help version info reboot : Cmd W
  spin : W → W → Cmd W
  stop unknown : Cmd W

-- ASCII white space.
abbrev pub is_white : ℕ → Bool
is_white c = c == 32 || (leb 9 c && leb c 13)

abbrev pub is_digit : ℕ → Bool
is_digit c = leb 48 c && leb c 57

abbrev pub trim_start : List ℕ → List ℕ
trim_start [] = []
trim_start (c ∷ s) = let rest = trim_start s in if is_white c then rest else c ∷ s

-- A character before what is left of the ones after it.
abbrev pub trim_last : ℕ → List ℕ → List ℕ
trim_last c [] = if is_white c then [] else c ∷ []
trim_last c (d ∷ rest) = c ∷ d ∷ rest

abbrev pub trim_end : List ℕ → List ℕ
trim_end [] = []
trim_end (c ∷ s) = trim_last c (trim_end s)

unfoldable pub trim : List ℕ → List ℕ
trim s = trim_end (trim_start s)

-- The characters before the first space, and the ones after it.
unfoldable pub split_space : List ℕ → List ℕ × List ℕ
split_space [] = ([], [])
split_space (c ∷ s) = let rest = split_space s in if c == 32 then ([], s) else (c ∷ rest.0, rest.1)

-- The characters before the first white space, and the others.
abbrev pub span_word : List ℕ → List ℕ × List ℕ
span_word [] = ([], [])
span_word (c ∷ s) =
    let rest = span_word s in if is_white c then ([], c ∷ s) else (c ∷ rest.0, rest.1)

-- `next` of `split_whitespace`, with what is left.
abbrev pub next_word : List ℕ → Option (List ℕ × List ℕ)
next_word s = elim (trim_start s) [ [] ↦ none | c ∷ rest ↦ some (span_word (c ∷ rest)) ]

unfoldable pub same_text : List ℕ → List ℕ → Bool
same_text [] [] = true
same_text (a ∷ s) (b ∷ t) = a == b && same_text s t
same_text _ _ = false

-- `saturating_mul(10).saturating_add(d)` on 32 bits.
abbrev pub push_digit : ℕ → ℕ → ℕ
push_digit n d = min (min (n * 10) (2 ^ 32 - 1) + d) (2 ^ 32 - 1)

-- The integer part, and the characters after it.
unfoldable pub int_part : ℕ → List ℕ → ℕ × List ℕ
int_part n [] = (n, [])
int_part n (c ∷ s) =
    let rest = int_part (push_digit n (c - 48)) s in if is_digit c then rest else (n, c ∷ s)

module _ {W : Type 0} ⦃fl : Float W⦄ where
  -- The digits after the point.
  unfoldable pub frac_part : W → W → List ℕ → W × List ℕ
  frac_part frac div [] = (frac, [])
  frac_part frac div (c ∷ s) =
      let rest = frac_part (frac ⊕ fl.from (c - 48) ⊘ div) (div ⊗ fl.literal 100 1) s in
      if is_digit c then rest else (frac, c ∷ s)

  abbrev pub after_int : List ℕ → W × List ℕ
  after_int [] = (zero_f, [])
  after_int (c ∷ s) = if c == 46 then frac_part zero_f (fl.literal 100 1) s else (zero_f, c ∷ s)

  -- The sign is read before.
  unfoldable pub parse_unsigned : List ℕ → Option W
  parse_unsigned s =
      let (n, rest) = int_part 0 s in
      let (frac, left) = after_int rest in elim left [ [] ↦ some (fl.from n ⊕ frac) | _ ∷ _ ↦ none ]

  unfoldable pub fast_parse_f32 : List ℕ → Option W
  fast_parse_f32 [] = none
  fast_parse_f32 (c ∷ s) =
      if c == 45 then (parse_unsigned s >>= λ v. some (fl.neg v)) else parse_unsigned (c ∷ s)

  unfoldable pub parse_spin : List ℕ → Cmd W
  parse_spin args =
      let parsed : Option (W × W) = do
        (first, rest) ← next_word args
        freq ← fast_parse_f32 first
        (second, _) ← next_word rest
        voltage ← fast_parse_f32 second
        some (freq, voltage)
      in elim parsed [ none ↦ unknown | some (freq, voltage) ↦ spin freq voltage ]

  -- "help" or "?", "version" or "ver", "info", "reboot", "stop", "spin".
  unfoldable pub parse_word : List ℕ → List ℕ → Cmd W
  parse_word cmd args =
      if same_text cmd (104 ∷ 101 ∷ 108 ∷ 112 ∷ []) || same_text cmd (63 ∷ [])
      then help
      else if same_text cmd (118 ∷ 101 ∷ 114 ∷ 115 ∷ 105 ∷ 111 ∷ 110 ∷ [])
          || same_text cmd (118 ∷ 101 ∷ 114 ∷ [])
      then version
      else if same_text cmd (105 ∷ 110 ∷ 102 ∷ 111 ∷ [])
      then info
      else if same_text cmd (114 ∷ 101 ∷ 98 ∷ 111 ∷ 111 ∷ 116 ∷ [])
      then reboot
      else if same_text cmd (115 ∷ 116 ∷ 111 ∷ 112 ∷ [])
      then stop
      else if same_text cmd (115 ∷ 112 ∷ 105 ∷ 110 ∷ [])
      then parse_spin args
      else unknown

  unfoldable pub parse_trimmed : List ℕ → Cmd W
  parse_trimmed [] = unknown
  parse_trimmed (c ∷ s) = let (cmd, args) = split_space (c ∷ s) in parse_word cmd (trim args)

  unfoldable pub parse_cmd : List ℕ → Cmd W
  parse_cmd line = parse_trimmed (trim line)

  -- The motor, and whether a reboot was asked for.
  unfoldable pub exec_cmd : Motor W × Bool → Cmd W → Motor W × Bool
  exec_cmd (m, asked) help = (m, asked)
  exec_cmd (m, asked) version = (m, asked)
  exec_cmd (m, asked) info = (m, asked)
  exec_cmd (m, asked) unknown = (m, asked)
  exec_cmd (m, asked) reboot = (run_stop_inner m, true)
  exec_cmd (m, asked) (spin freq_hz voltage) = ((run_spin m freq_hz voltage).0, asked)
  exec_cmd (m, asked) stop = (run_stop_inner m, asked)

-- The digits of a number before the ones that are written; `none` where the array of ten is full.
unfoldable pub write_digits : ℕ → ℕ → List ℕ → Option (List ℕ)
write_digits zero n digits = if n == 0 then some digits else none
write_digits (suc i) n digits =
    let rest = write_digits i (n / 10) ((48 + n % 10) ∷ digits) in
    if n == 0 then some digits else rest

unfoldable pub write_u32 : ℕ → Option (List ℕ)
write_u32 n = if n == 0 then some (48 ∷ []) else write_digits 10 n []
