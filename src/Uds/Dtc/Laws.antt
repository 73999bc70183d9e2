-- ===== src/Uds/Dtc/Laws.antt =====
-- uds-core/src/dtc.rs: the store as a finite map from trouble codes to status bytes.
use rust_foc.Uds.Dtc.{DtcRecord, claim_free, set_dtc, update_existing}
use rust_foc.Common.{
  Bool-cases, subst, set, Option-cases, ◌==◌, length, ◌⊎◌, Bool, ◌<◌, if◌then◌else◌, ◌≢◌, bit_or,
  Option, List, ℕ, ◌≡◌, ◌∷◌, [], refl, arith, inl, inr, some, none, true, false,
}

-- The abstract view: the status of a code, from the first slot that holds it.
abbrev pub status_of : List (Option DtcRecord) → ℕ → Option ℕ
status_of [] code = none
status_of (none ∷ slots) code = status_of slots code
status_of (some rec ∷ slots) code =
    let rest = status_of slots code in if rec.code == code then some rec.status else rest

-- No code stands in two slots.
abbrev pub Distinct : List (Option DtcRecord) → Type 0
Distinct [] = Unit
Distinct (none ∷ slots) = Distinct slots
Distinct (some rec ∷ slots) = (status_of slots rec.code ≡ none) × Distinct slots

-- Some slot is free.
abbrev pub has_free : List (Option DtcRecord) → Bool
has_free [] = false
has_free (none ∷ slots) = true
has_free (some rec ∷ slots) = has_free slots

-- A status with further bits set.
abbrev pub raised : Option ℕ → ℕ → Option ℕ
raised none bits = some bits
raised (some status) bits = some (bit_or status bits)

update_existing-none :
    (slots : List (Option DtcRecord)) (code bits : ℕ)
    → update_existing slots code bits ≡ none
    → status_of slots code ≡ none
unfolding update_existing
update_existing-none [] code bits h = refl
update_existing-none (none ∷ slots) code bits h =
    ground (arith, update_existing-none slots code bits)
update_existing-none (some rec ∷ slots) code bits h =
    ground (arith, update_existing-none slots code bits)

status_of-update_existing :
    (slots : List (Option DtcRecord)) (code bits other : ℕ) {slots' : List (Option DtcRecord)}
    → update_existing slots code bits ≡ some slots'
    → status_of slots' other
      ≡ (if code == other then raised (status_of slots code) bits else status_of slots other)
unfolding update_existing
status_of-update_existing [] code bits other h = cc
status_of-update_existing (none ∷ slots) code bits other h =
    elim (Option-cases (update_existing slots code bits)) [
      | inl e ↦ absurd (ground arith)
      | inr (s, e) ↦ ground (arith, status_of-update_existing slots code bits other e)
    ]
status_of-update_existing (some rec ∷ slots) code bits other h =
    elim (Option-cases (update_existing slots code bits)) [
      | inl e ↦ ground arith
      | inr (s, e) ↦ ground (arith, status_of-update_existing slots code bits other e)
    ]

status_of-claim_free :
    (slots : List (Option DtcRecord)) (rec : DtcRecord) (other : ℕ)
    {slots' : List (Option DtcRecord)}
    → status_of slots rec.code ≡ none
    → claim_free slots rec ≡ some slots'
    → status_of slots' other
      ≡ (if rec.code == other then some rec.status else status_of slots other)
unfolding claim_free
status_of-claim_free [] rec other absent h = cc
status_of-claim_free (none ∷ slots) rec other absent h = ground arith
status_of-claim_free (some old ∷ slots) rec other absent h =
    elim (Option-cases (claim_free slots rec)) [
      | inl e ↦ absurd (ground arith)
      | inr (s, e) ↦
          let gone : status_of slots rec.code ≡ none = ground arith in
          ground (arith, status_of-claim_free slots rec other gone e)
    ]

claim_free-none :
    (slots : List (Option DtcRecord)) (rec : DtcRecord)
    → claim_free slots rec ≡ none
    → has_free slots ≡ false
unfolding claim_free
claim_free-none [] rec h = refl
claim_free-none (none ∷ slots) rec h = cc
claim_free-none (some old ∷ slots) rec h = ground (arith, claim_free-none slots rec)

-- The three ways in which `set_dtc` records a code.
data Recorded (slots : List (Option DtcRecord)) (code bits : ℕ) : Type 0 where
  updated :
      (slots' : List (Option DtcRecord))
      → update_existing slots code bits ≡ some slots'
      → set_dtc slots code bits ≡ slots'
      → Recorded slots code bits
  claimed :
      (slots' : List (Option DtcRecord))
      → status_of slots code ≡ none
      → claim_free slots (record { code = code; status = bits }) ≡ some slots'
      → set_dtc slots code bits ≡ slots'
      → Recorded slots code bits
  overwritten :
      status_of slots code ≡ none
      → has_free slots ≡ false
      → set_dtc slots code bits ≡ set slots 0 (some (record { code = code; status = bits }))
      → Recorded slots code bits

set_dtc-Recorded : (slots : List (Option DtcRecord)) (code bits : ℕ) → Recorded slots code bits
unfolding set_dtc
set_dtc-Recorded slots code bits =
    let rec : DtcRecord = record { code = code; status = bits } in
    elim (Option-cases (update_existing slots code bits)) [
      | inr (s, e) ↦ updated s e (ground arith)
      | inl absent ↦
          let gone = update_existing-none slots code bits absent in
          elim (Option-cases (claim_free slots rec)) [
            | inr (s, e) ↦ claimed s gone e (ground arith)
            | inl full ↦ overwritten gone (claim_free-none slots rec full) (ground arith)
          ]
    ]

-- Recording a trouble code leaves it with the new bits added to its status, if the store has a slot
-- at all.
pub status_of-set_dtc_self :
    (slots : List (Option DtcRecord)) (code bits : ℕ)
    → 0 < length slots
    → status_of (set_dtc slots code bits) code ≡ raised (status_of slots code) bits
status_of-set_dtc_self slots code bits pos = elim (set_dtc-Recorded slots code bits) [
  | updated s e d ↦ ground (arith, status_of-update_existing slots code bits code e)
  | claimed s gone e d ↦
      let rec : DtcRecord = record { code = code; status = bits } in
      ground (arith, status_of-claim_free slots rec code gone e)
  | overwritten gone full d ↦ by_slots slots pos gone d
]
  where
    by_slots :
        (slots : List (Option DtcRecord))
        → 0 < length slots
        → status_of slots code ≡ none
        → set_dtc slots code bits ≡ set slots 0 (some (record { code = code; status = bits }))
        → status_of (set_dtc slots code bits) code ≡ raised (status_of slots code) bits
    by_slots [] pos gone d = absurd (omega arith)
    by_slots (x ∷ slots) pos gone d = ground arith

-- The other codes keep their status, unless the code is new and no slot is free.
pub status_of-set_dtc_ne :
    (slots : List (Option DtcRecord)) (code bits other : ℕ)
    → code ≢ other
    → (has_free slots ≡ true) ⊎ (status_of slots code ≢ none)
    → status_of (set_dtc slots code bits) other ≡ status_of slots other
status_of-set_dtc_ne slots code bits other ne room = elim (set_dtc-Recorded slots code bits) [
  | updated s e d ↦ ground (arith, status_of-update_existing slots code bits other e)
  | claimed s gone e d ↦
      let rec : DtcRecord = record { code = code; status = bits } in
      ground (arith, status_of-claim_free slots rec other gone e)
  | overwritten gone full d ↦ absurd (ground arith)
]

-- An update keeps the codes, so it keeps them distinct.
update_existing-Distinct :
    (slots : List (Option DtcRecord)) (code bits : ℕ) {slots' : List (Option DtcRecord)}
    → update_existing slots code bits ≡ some slots'
    → Distinct slots
    → Distinct slots'
unfolding update_existing
update_existing-Distinct [] code bits h v = cc
update_existing-Distinct (none ∷ slots) code bits {slots'} h v =
    elim (Option-cases (update_existing slots code bits)) [
      | inl e ↦ absurd (ground arith)
      | inr (s, e) ↦
          let found : none ∷ s ≡ slots' = ground arith in
          subst Distinct found (update_existing-Distinct slots code bits e v)
    ]
update_existing-Distinct (some rec ∷ slots) code bits {slots'} h v =
    elim (Bool-cases (rec.code == code)) [
      | inl here ↦
          let found : some (record rec { status = bit_or rec.status bits }) ∷ slots ≡ slots' =
            ground arith in
          subst Distinct found v
      | inr there ↦ elim (Option-cases (update_existing slots code bits)) [
        | inl e ↦ absurd (ground arith)
        | inr (s, e) ↦
            let found : some rec ∷ s ≡ slots' = ground arith in
            let kept = status_of-update_existing slots code bits rec.code e in
            subst Distinct found
              (ground (arith, kept), update_existing-Distinct slots code bits e v.1)
      ]
    ]

claim_free-Distinct :
    (slots : List (Option DtcRecord)) (rec : DtcRecord) {slots' : List (Option DtcRecord)}
    → status_of slots rec.code ≡ none
    → claim_free slots rec ≡ some slots'
    → Distinct slots
    → Distinct slots'
unfolding claim_free
claim_free-Distinct [] rec gone h v = cc
claim_free-Distinct (none ∷ slots) rec {slots'} gone h v =
    let found : some rec ∷ slots ≡ slots' = ground arith in subst Distinct found (gone, v)
claim_free-Distinct (some old ∷ slots) rec {slots'} gone h v =
    elim (Option-cases (claim_free slots rec)) [
      | inl e ↦ absurd (ground arith)
      | inr (s, e) ↦
          let gone' : status_of slots rec.code ≡ none = ground arith in
          let found : some old ∷ s ≡ slots' = ground arith in
          let fresh = status_of-claim_free slots rec old.code gone' e in
          subst Distinct found (ground (arith, fresh), claim_free-Distinct slots rec gone' e v.1)
    ]

overwrite-Distinct :
    (slots : List (Option DtcRecord)) (rec : DtcRecord)
    → status_of slots rec.code ≡ none
    → Distinct slots
    → Distinct (set slots 0 (some rec))
overwrite-Distinct [] rec gone v = v
overwrite-Distinct (none ∷ slots) rec gone v = (gone, v)
overwrite-Distinct (some old ∷ slots) rec gone v = (ground arith, v.1)

-- Recording a trouble code keeps the codes of the slots distinct.
pub set_dtc-Distinct :
    (slots : List (Option DtcRecord)) (code bits : ℕ)
    → Distinct slots
    → Distinct (set_dtc slots code bits)
set_dtc-Distinct slots code bits v =
    let rec : DtcRecord = record { code = code; status = bits } in
    elim (set_dtc-Recorded slots code bits) [
      | updated s e d ↦ rw d (update_existing-Distinct slots code bits e v)
      | claimed s gone e d ↦ rw d (claim_free-Distinct slots rec gone e v)
      | overwritten gone full d ↦ rw d (overwrite-Distinct slots rec gone v)
    ]
