-- ===== src/Uds/Dtc/Clearing.antt =====
-- uds-core/src/dtc.rs: what a removal of trouble codes leaves in the store.
use rust_foc.Uds.State.{DtcRecord}
use rust_foc.Uds.Dtc.{in_group, byte_lo, byte_mid, byte_hi, clear_where, clear_group}
use rust_foc.Uds.Dtc.Laws.{status_of, Distinct}
use rust_foc.Uds.Dtc.{clear_dtc}
use rust_foc.Common.{
  bit_and, ◌||◌, Bool-cases, if◌then◌else◌, ◌&&◌, ◌≡◌, ◌==◌, Option, List, Bool, ℕ, refl, none,
  some, inl, inr, [], ◌∷◌, true, arith,
}

-- Clearing a code removes it and no other, where the codes are distinct.
pub status_of-clear_dtc :
    (slots : List (Option DtcRecord)) (code other : ℕ)
    → Distinct slots
    → status_of (clear_dtc slots code) other
      ≡ (if code == other then none else status_of slots other)
unfolding clear_dtc
status_of-clear_dtc [] code other v = ground arith
status_of-clear_dtc (none ∷ slots) code other v = status_of-clear_dtc slots code other v
status_of-clear_dtc (some rec ∷ slots) code other v = elim (Bool-cases (rec.code == code)) [
  | inl here ↦ elim (Bool-cases (code == other)) [
    | inl same ↦
        let e : rec.code ≡ other = ground arith in
        let gone : status_of slots other ≡ none = rw (← e) v.0 in ground arith
    | inr ne ↦ ground arith
  ]
  | inr there ↦ ground (arith, status_of-clear_dtc slots code other v.1)
]

-- What a predicate on codes selects is removed, and the rest stays.
status_of-clear_where :
    (p : DtcRecord → Bool) (slots : List (Option DtcRecord)) (other : ℕ) (b : Bool)
    → ((rec : DtcRecord) → rec.code ≡ other → p rec ≡ b)
    → status_of (clear_where p slots) other ≡ (if b then none else status_of slots other)
unfolding clear_where
status_of-clear_where p [] other b h = ground arith
status_of-clear_where p (none ∷ slots) other b h = status_of-clear_where p slots other b h
status_of-clear_where p (some rec ∷ slots) other b h =
    ground (arith, status_of-clear_where p slots other b h, h rec)

-- The group that `clear_group` takes: everything, or the codes with the group's high nibble.
abbrev pub selected : ℕ → ℕ → Bool
selected group code =
    (byte_hi group == 0xFF && byte_mid group == 0xFF && byte_lo group == 0xFF)
    || (bit_and (byte_hi code) 0xF0 == bit_and (byte_hi group) 0xF0)

-- Clearing a group removes the codes that the group selects, and the rest stays.
status_of-clear_group :
    (slots : List (Option DtcRecord)) (group other : ℕ)
    → status_of (clear_group slots group) other
      ≡ (if selected group other then none else status_of slots other)
unfolding clear_group
status_of-clear_group slots group other =
    let all = byte_hi group == 0xFF && byte_mid group == 0xFF && byte_lo group == 0xFF in
    elim (Bool-cases all) [
      | inl e ↦ rw e (status_of-clear_where (λ _. true) slots other true (λ _ _. refl))
      | inr e ↦
          rw e (status_of-clear_where (in_group group) slots other _ (λ rec same. rw same refl))
    ]
