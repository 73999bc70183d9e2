-- ===== src/Uds/Dtc.antt =====
-- uds-core/src/dtc.rs: the store of diagnostic trouble codes (DTCS, eight slots) and the services
-- 0x14 and 0x19 that clear and report it. Slices out of range do not occur with eight slots.
pub mod Laws
pub mod Clearing
pub mod Report
use rust_foc.Common.{
  indexed, Option, none, some, ℕ, ◌+◌, ◌*◌, ◌/◌, ◌%◌, Bool, true, false, not, ◌&&◌, List, [], ◌∷◌,
  Option, none, some, ◌==◌, ltb, if◌then◌else◌, bit_and, bit_or, length, get_or, set, take,
  replicate,
}
use rust_foc.Uds.Types.{
  negative_response, incorrect_message_length_or_invalid_format, sub_function_not_supported,
}
use rust_foc.Uds.State.{Globals, DtcRecord, store_response}

abbrev pub max_dtcs : ℕ
max_dtcs = 8

-- The first loop of `set_dtc`: the record of the code, if there is one, takes the new bits.
unfoldable pub update_existing : List (Option DtcRecord) → ℕ → ℕ → Option (List (Option DtcRecord))
update_existing [] code bits = none
update_existing (none ∷ slots) code bits = elim (update_existing slots code bits) [
  | none ↦ none
  | some slots' ↦ some (none ∷ slots')
]
update_existing (some rec ∷ slots) code bits =
    let rest = update_existing slots code bits in
    if rec.code == code
    then some (some (record rec { status = bit_or rec.status bits }) ∷ slots)
    else elim rest [ none ↦ none | some slots' ↦ some (some rec ∷ slots') ]

-- The second loop: the first free slot.
unfoldable pub claim_free : List (Option DtcRecord) → DtcRecord → Option (List (Option DtcRecord))
claim_free [] rec = none
claim_free (none ∷ slots) rec = some (some rec ∷ slots)
claim_free (some old ∷ slots) rec = elim (claim_free slots rec) [
  | none ↦ none
  | some slots' ↦ some (some old ∷ slots')
]

unfoldable pub set_dtc : List (Option DtcRecord) → ℕ → ℕ → List (Option DtcRecord)
set_dtc storage code bits =
    let rec : DtcRecord = record { code = code; status = bits } in
    elim (update_existing storage code bits) [
      | some storage' ↦ storage'
      | none ↦ elim (claim_free storage rec) [
        | some storage' ↦ storage'
        | none ↦ set storage 0 (some rec)
      ]
    ]

unfoldable pub clear_dtc : List (Option DtcRecord) → ℕ → List (Option DtcRecord)
clear_dtc [] code = []
clear_dtc (none ∷ slots) code = none ∷ clear_dtc slots code
clear_dtc (some rec ∷ slots) code =
    if rec.code == code then none ∷ slots else some rec ∷ clear_dtc slots code

abbrev pub byte_hi : ℕ → ℕ
byte_hi code = code / 65536 % 256

abbrev pub byte_mid : ℕ → ℕ
byte_mid code = code / 256 % 256

abbrev pub byte_lo : ℕ → ℕ
byte_lo code = code % 256

abbrev pub in_group : ℕ → DtcRecord → Bool
in_group group rec = bit_and (byte_hi rec.code) 0xF0 == bit_and (byte_hi group) 0xF0

unfoldable pub clear_where : (DtcRecord → Bool) → List (Option DtcRecord) → List (Option DtcRecord)
clear_where p [] = []
clear_where p (none ∷ slots) = none ∷ clear_where p slots
clear_where p (some rec ∷ slots) = (if p rec then none else some rec) ∷ clear_where p slots

unfoldable pub clear_group : List (Option DtcRecord) → ℕ → List (Option DtcRecord)
clear_group storage group =
    if byte_hi group == 0xFF && byte_mid group == 0xFF && byte_lo group == 0xFF
    then clear_where (λ _. true) storage
    else clear_where (in_group group) storage

abbrev pub matches : ℕ → DtcRecord → Bool
matches status_mask rec = not (bit_and rec.status status_mask == 0)

-- `out[offset..offset + 4]` of one reported record.
abbrev pub write_record : List ℕ → ℕ → DtcRecord → List ℕ
write_record out offset rec =
    set
      (set (set (set out offset (byte_hi rec.code)) (offset + 1) (byte_mid rec.code)) (offset + 2)
        (byte_lo rec.code))
      (offset + 3) rec.status

-- The loop over the slots, with the buffer, the write offset and the `u16` count.
unfoldable pub report_loop : ℕ → List (Option DtcRecord) → List ℕ → ℕ → ℕ → List ℕ × ℕ
report_loop mask [] out offset count = (out, count)
report_loop mask (none ∷ slots) out offset count = report_loop mask slots out offset count
report_loop mask (some rec ∷ slots) out offset count =
    let hit = report_loop mask slots (write_record out offset rec) (offset + 4) (count + 1) in
    let miss = report_loop mask slots out offset count in if matches mask rec then hit else miss

unfoldable pub report_by_status_mask : List (Option DtcRecord) → ℕ → List ℕ
unfolding report_loop
report_by_status_mask storage status_mask =
    let header = set (set (set (replicate 64 0) 0 0x59) 1 0x02) 2 0xFE in
    let (out, count) = report_loop status_mask storage header 5 0 in
    set (set out 3 (count / 256)) 4 (count % 256)

module _ {W : Type 0} where
  unfoldable pub handle_clear : Globals W → List ℕ → Option (Globals W)
  handle_clear g req =
      if not (length req == 4)
      then some
          (store_response (negative_response incorrect_message_length_or_invalid_format 0x14) g)
      else indexed req 3 (
          let group = get_or req 1 0 * 65536 + get_or req 2 0 * 256 + get_or req 3 0 in
          some (store_response (0x54 ∷ []) (record g { dtcs = clear_group g.dtcs group })))

  unfoldable pub handle_read : Globals W → List ℕ → Option (Globals W)
  handle_read g req =
      if ltb (length req) 3
      then some
          (store_response (negative_response incorrect_message_length_or_invalid_format 0x19) g)
      else indexed req 1 (
          if not (get_or req 1 0 == 0x02)
          then some (store_response (negative_response sub_function_not_supported 0x19) g)
          else indexed req 2 (
              let out = report_by_status_mask g.dtcs (get_or req 2 0) in
              let count = get_or out 3 0 * 256 + get_or out 4 0 in
              some (store_response (take (5 + count * 4) out) g)))
