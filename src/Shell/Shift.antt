-- ===== src/Shell/Shift.antt =====
-- src/shell/task.rs: the loops that shift the buffer, index by index.
use rust_foc.Shell.Line.{open_gap, close_gap, read, write}
use rust_foc.Common.{
  ap, ◌∙◌, ℕ, zero, suc, ◌+◌, ◌≤◌, ◌<◌, ◌≡◌, refl, arith, false, Bool-cases, inl, inr,
  if◌then◌else◌, ◌==◌,
}
use rust_foc.Foc.Total.{Yields, Yields->>=}

pub read-Yields : (buf : ℕ → ℕ) (i : ℕ) → i < 64 → Yields (read buf i) (λ v. v ≡ buf i)
unfolding read
read-Yields buf i h = (buf i, ground arith, refl)

pub write-Yields :
    (buf : ℕ → ℕ) (i v : ℕ)
    → i < 64
    → Yields (write buf i v) (λ buf'. (buf' i ≡ v) × ((j : ℕ) → (j == i) ≡ false → buf' j ≡ buf j))
unfolding write
write-Yields buf i v h =
    ((λ j. if j == i then v else buf j), ground arith, (ground arith, λ j ne. ground arith))

-- Closed from `i`, over `n` indices.
pub record IsClosed (n i : ℕ) (f g : ℕ → ℕ) : Type 0 where
  pub before : (j : ℕ) → j < i → g j ≡ f j
  pub moved : (j : ℕ) → i ≤ j → j < i + n → g j ≡ f (suc j)

pub close_gap-IsClosed :
    (n i : ℕ) (f : ℕ → ℕ) → i + n < 64 → Yields (close_gap n i f) (IsClosed n i f)
unfolding close_gap
close_gap-IsClosed zero i f h =
    (f, refl, record { before = λ j _. refl; moved = λ j low high. absurd (omega arith) })
close_gap-IsClosed (suc n) i f h =
    Yields->>= (read f (i + 1)) _ _ _ (read-Yields f (i + 1) (omega arith)) (λ v same.
      Yields->>= (write f i v) _ _ _ (write-Yields f i v (omega arith)) (λ f' (at_i, others).
        let (g, e, closed) = close_gap-IsClosed n (i + 1) f' (omega arith) in
        (
          g,
          e,
          record {
            before = λ j low. closed.before j (omega arith) ∙ others j (ground arith);
            moved = λ j low high. elim (Bool-cases (j == i)) [
              | inl here ↦
                  let at_j : j ≡ i = ground arith in
                  closed.before j (omega arith) ∙ ap f' at_j ∙ at_i ∙ same ∙ ap f (omega arith)
              | inr further ↦
                  closed.moved j (ground arith) (omega arith) ∙ others (suc j) (ground arith)
            ];
          },
        )))

-- Opened at `i`, over `n` indices.
pub record IsOpened (n i : ℕ) (f g : ℕ → ℕ) : Type 0 where
  pub before : (j : ℕ) → j < i → g j ≡ f j
  pub moved : (j : ℕ) → i ≤ j → j < i + n → g (suc j) ≡ f j
  pub beyond : (j : ℕ) → i + n < j → g j ≡ f j

pub open_gap-IsOpened :
    (n i : ℕ) (f : ℕ → ℕ) → i + n < 64 → Yields (open_gap n i f) (IsOpened n i f)
unfolding open_gap
open_gap-IsOpened zero i f h = (
  f,
  refl,
  record { before = λ j _. refl; moved = λ j low high. absurd (omega arith); beyond = λ j _. refl },
)
open_gap-IsOpened (suc n) i f h =
    Yields->>= (read f (i + n)) _ _ _ (read-Yields f (i + n) (omega arith)) (λ v same.
      Yields->>= (write f (i + n + 1) v) _ _ _ (write-Yields f (i + n + 1) v (omega arith))
        (λ f' (at_end, others).
          let (g, e, opened) = open_gap-IsOpened n i f' (omega arith) in
          (
            g,
            e,
            record {
              before = λ j low. opened.before j low ∙ others j (ground arith);
              moved = λ j low high. elim (Bool-cases (j == i + n)) [
                | inl last ↦
                    let at_j : suc j ≡ i + n + 1 = ground arith in
                    let from_j : i + n ≡ j = ground arith in
                    opened.beyond (suc j) (omega arith) ∙ ap f' at_j ∙ at_end ∙ same ∙ ap f from_j
                | inr inside ↦ opened.moved j low (ground arith) ∙ others j (ground arith)
              ];
              beyond = λ j far. opened.beyond j (omega arith) ∙ others j (ground arith);
            },
          )))
