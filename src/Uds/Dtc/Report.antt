-- ===== src/Uds/Dtc/Report.antt =====
-- uds-core/src/dtc.rs: the report of 0x19 0x02 against its wire format.
use rust_foc.Foc.Total.{Yields}
use rust_foc.Uds.Response.{response-store_response}
use rust_foc.Uds.Dtc.{
  store_response, handle_read, report_by_status_mask, byte_lo, matches, write_record, byte_mid,
  byte_hi, report_loop,
}
use rust_foc.Uds.State.{store_response, response, Globals, DtcRecord}
use native.Mathlib.Nat.{suc-add, add-zero}
use mathlib.Core.List.{replicate, append-nil, append_assoc}
use rust_foc.Common.{
  sym, ◌%◌, ◌/◌, get_or, ◌∙◌, Bool-cases, zero, suc, ap, suc, if◌then◌else◌, ◌≤◌, set, ◌*◌, take,
  ◌<◌, ◌+◌, ◌++◌, Option, length, List, ℕ, ◌≡◌, ◌∷◌, [], refl, arith, inl, inr, some, none,
}

-- One record on the wire: the three bytes of its code, then its status.
abbrev pub encode : DtcRecord → List ℕ
encode rec = byte_hi rec.code ∷ byte_mid rec.code ∷ byte_lo rec.code ∷ rec.status ∷ []

-- The records that match the mask, in the order of the slots.
abbrev pub reported : ℕ → List (Option DtcRecord) → List DtcRecord
reported mask [] = []
reported mask (none ∷ slots) = reported mask slots
reported mask (some rec ∷ slots) =
    let rest = reported mask slots in if matches mask rec then rec ∷ rest else rest

abbrev pub encode_all : List DtcRecord → List ℕ
encode_all [] = []
encode_all (rec ∷ recs) = encode rec ++ encode_all recs

length-set : (xs : List ℕ) (i v : ℕ) → length (set xs i v) ≡ length xs
length-set [] i v = refl
length-set (x ∷ xs) zero v = refl
length-set (x ∷ xs) (suc i) v = ap suc (length-set xs i v)

take-set_self :
    (xs : List ℕ) (i v : ℕ) → i < length xs → take (suc i) (set xs i v) ≡ take i xs ++ (v ∷ [])
take-set_self [] i v h = absurd (omega arith)
take-set_self (x ∷ xs) zero v h = refl
take-set_self (x ∷ xs) (suc i) v h = ap (λ r. x ∷ r) (take-set_self xs i v (omega arith))

-- A write before the end of a prefix is a write in the prefix.
take-set_inside :
    (n : ℕ) (xs : List ℕ) (i v : ℕ) → i < n → take n (set xs i v) ≡ set (take n xs) i v
take-set_inside zero xs i v h = absurd (omega arith)
take-set_inside (suc n) [] i v h = refl
take-set_inside (suc n) (x ∷ xs) zero v h = refl
take-set_inside (suc n) (x ∷ xs) (suc i) v h =
    ap (λ r. x ∷ r) (take-set_inside n xs i v (omega arith))

get_or-take : (n : ℕ) (xs : List ℕ) (i d : ℕ) → i < n → get_or (take n xs) i d ≡ get_or xs i d
get_or-take zero xs i d h = absurd (omega arith)
get_or-take (suc n) [] i d h = refl
get_or-take (suc n) (x ∷ xs) zero d h = refl
get_or-take (suc n) (x ∷ xs) (suc i) d h = get_or-take n xs i d (omega arith)

write_record-cons :
    (x : ℕ) (xs : List ℕ) (o : ℕ) (rec : DtcRecord)
    → write_record (x ∷ xs) (suc o) rec ≡ x ∷ write_record xs o rec
write_record-cons x xs o rec = simp suc-add

take-write_record :
    (out : List ℕ) (o : ℕ) (rec : DtcRecord)
    → o + 4 ≤ length out
    → take (o + 4) (write_record out o rec) ≡ take o out ++ encode rec
take-write_record [] o rec h = absurd (omega arith)
take-write_record (a ∷ []) zero rec h = absurd (omega arith)
take-write_record (a ∷ b ∷ []) zero rec h = absurd (omega arith)
take-write_record (a ∷ b ∷ c ∷ []) zero rec h = absurd (omega arith)
take-write_record (a ∷ b ∷ c ∷ d ∷ xs) zero rec h = refl
take-write_record (x ∷ xs) (suc o) rec h =
    rw (write_record-cons x xs o rec, suc-add)
      (ap (λ r. x ∷ r) (take-write_record xs o rec (omega arith)))

length-write_record :
    (out : List ℕ) (o : ℕ) (rec : DtcRecord) → length (write_record out o rec) ≡ length out
length-write_record out o rec = simp length-set

report_loop_lem :
    (mask : ℕ) (slots : List (Option DtcRecord)) (out : List ℕ) (o n : ℕ)
    → o + 4 * length slots ≤ length out
    → let recs = reported mask slots in
      (take (o + 4 * length recs) (report_loop mask slots out o n).0
        ≡ take o out ++ encode_all recs)
      × ((report_loop mask slots out o n).1 ≡ n + length recs)
unfolding report_loop
report_loop_lem mask [] out o n h = (rw (add-zero, append-nil), omega arith)
report_loop_lem mask (none ∷ slots) out o n h = report_loop_lem mask slots out o n (omega arith)
report_loop_lem mask (some rec ∷ slots) out o n h = elim (Bool-cases (matches mask rec)) [
  | inr miss ↦ rw miss (report_loop_lem mask slots out o n (omega arith))
  | inl hit ↦
      let out' = write_record out o rec in
      let recs = reported mask slots in
      let (bytes, count) =
        report_loop_lem mask slots out' (o + 4) (n + 1)
          (omega (arith, length-write_record out o rec)) in
      let far : o + 4 * suc (length recs) ≡ o + 4 + 4 * length recs = omega arith in
      let prefix = take-write_record out o rec (omega arith) in
      rw hit (rw far (bytes ∙ rw (prefix, append_assoc)), omega (arith, count))
]

header_eq :
    (out : List ℕ) (n : ℕ) (rest : List ℕ) (hi lo : ℕ)
    → 5 ≤ n
    → take n out ≡ 0x59 ∷ 0x02 ∷ 0xFE ∷ 0 ∷ 0 ∷ rest
    → take n (set (set out 3 hi) 4 lo) ≡ 0x59 ∷ 0x02 ∷ 0xFE ∷ hi ∷ lo ∷ rest
header_eq out n rest hi lo h e = rw (
  take-set_inside n (set out 3 hi) 4 lo (omega arith),
  take-set_inside n out 3 hi (omega arith),
  e,
)

-- The report of at most fourteen slots is the header with the count, then the matching records in
-- order, within the buffer.
pub report_by_status_mask_lem :
    (slots : List (Option DtcRecord)) (mask : ℕ)
    → length slots ≤ 14
    → let recs = reported mask slots in
      take (5 + 4 * length recs) (report_by_status_mask slots mask)
      ≡ 0x59 ∷ 0x02 ∷ 0xFE ∷ length recs / 256 ∷ length recs % 256 ∷ encode_all recs
unfolding report_by_status_mask
report_by_status_mask_lem slots mask h =
    let header = set (set (set (replicate 64 0) 0 0x59) 1 0x02) 2 0xFE in
    let recs = reported mask slots in
    let out = (report_loop mask slots header 5 0).0 in
    let (bytes, count) = report_loop_lem mask slots header 5 0 (omega arith) in
    let n : (report_loop mask slots header 5 0).1 ≡ length recs = omega (arith, count) in
    rw n (header_eq out (5 + 4 * length recs) (encode_all recs) _ _ (omega arith) bytes)

length-reported :
    (mask : ℕ) (slots : List (Option DtcRecord)) → length (reported mask slots) ≤ length slots
length-reported mask [] = omega arith
length-reported mask (none ∷ slots) = omega (arith, length-reported mask slots)
length-reported mask (some rec ∷ slots) = ground (arith, length-reported mask slots)

length-encode_all : (recs : List DtcRecord) → length (encode_all recs) ≡ 4 * length recs
length-encode_all [] = refl
length-encode_all (rec ∷ recs) = omega (arith, length-encode_all recs)

dtcs-store_response : {W : Type 0} (p : List ℕ) (g : Globals W) → (store_response p g).dtcs ≡ g.dtcs
unfolding store_response
dtcs-store_response p g = refl

handled :
    {W : Type 0} (g : Globals W) (mask : ℕ) (more : List ℕ)
    → let out = report_by_status_mask g.dtcs mask in
      handle_read g (0x19 ∷ 0x02 ∷ mask ∷ more)
      ≡ some (store_response (take (5 + (get_or out 3 0 * 256 + get_or out 4 0) * 4) out) g)
unfolding handle_read
handled g mask more = ground arith

-- What is stored of the report.
payload :
    (slots : List (Option DtcRecord)) (mask : ℕ)
    → length slots ≤ 14
    → let out = report_by_status_mask slots mask in
      let recs = reported mask slots in
      take (5 + (get_or out 3 0 * 256 + get_or out 4 0) * 4) out
      ≡ 0x59 ∷ 0x02 ∷ 0xFE ∷ 0 ∷ length recs ∷ encode_all recs
payload slots mask h =
    let recs = reported mask slots in
    let out = report_by_status_mask slots mask in
    let k = length recs in
    let few : k ≤ 14 = omega (arith, length-reported mask slots) in
    let bytes = report_by_status_mask_lem slots mask h in
    let hi : get_or out 3 0 ≡ k / 256 =
      sym (get_or-take (5 + 4 * k) out 3 0 (omega arith)) ∙ ap (λ xs. get_or xs 3 0) bytes in
    let lo : get_or out 4 0 ≡ k % 256 =
      sym (get_or-take (5 + 4 * k) out 4 0 (omega arith)) ∙ ap (λ xs. get_or xs 4 0) bytes in
    let size : 5 + (get_or out 3 0 * 256 + get_or out 4 0) * 4 ≡ 5 + 4 * k = omega arith in
    let zero_hi : k / 256 ≡ 0 = omega arith in
    let same_lo : k % 256 ≡ k = omega arith in
    ap (λ n. take n out) size ∙ (bytes ∙ rw (zero_hi, same_lo) refl)

-- With at most fourteen slots, reportDTCByStatusMask answers with its header, the number of the
-- records that match the mask as two bytes, and those records in the order of the slots; and it
-- keeps the trouble codes.
pub handle_read_lem :
    {W : Type 0} (g : Globals W) (mask : ℕ) (more : List ℕ)
    → length g.dtcs ≤ 14
    → let recs = reported mask g.dtcs in
      Yields (handle_read g (0x19 ∷ 0x02 ∷ mask ∷ more)) (λ g'.
        (response g' ≡ 0x59 ∷ 0x02 ∷ 0xFE ∷ 0 ∷ length recs ∷ encode_all recs) × (g'.dtcs ≡ g.dtcs))
handle_read_lem g mask more h =
    let recs = reported mask g.dtcs in
    let bytes = 0x59 ∷ 0x02 ∷ 0xFE ∷ 0 ∷ length recs ∷ encode_all recs in
    let fits : length bytes ≤ 64 =
      omega (arith, length-encode_all recs, length-reported mask g.dtcs) in
    let stored : handle_read g (0x19 ∷ 0x02 ∷ mask ∷ more) ≡ some (store_response bytes g) =
      handled g mask more ∙ ap (λ p. some (store_response p g)) (payload g.dtcs mask h) in
    (
      store_response bytes g,
      stored,
      (response-store_response bytes g fits, dtcs-store_response bytes g),
    )
