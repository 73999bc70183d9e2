-- ===== src/Tests/Codes.antt =====
-- The theorems on trouble codes at a concrete store.
use rust_foc.Foc.Total.{Yields}
use rust_foc.Uds.Dtc.Report.{handle_read_lem}
use rust_foc.Uds.State.{DtcRecord, response}
use rust_foc.Uds.Dtc.{clear_dtc, handle_read, set_dtc}
use rust_foc.Uds.Dtc.Laws.{status_of-set_dtc_self, status_of-set_dtc_ne, status_of}
use rust_foc.Uds.Dtc.Clearing.{status_of-clear_dtc}
use rust_foc.Tests.Fixtures.{globals}
use rust_foc.Common.{List, Option, ℕ, ◌≡◌, ◌∷◌, [], refl, arith, inl, some, none}

abbrev dtc : ℕ → ℕ → Option DtcRecord
dtc code status = some (record { code = code; status = status })

abbrev codes : List (Option DtcRecord)
codes = dtc 0x030100 6 ∷ none ∷ dtc 0xC10000 1 ∷ []

status_of-set_dtc_self_example : status_of (set_dtc codes 0x030100 8) 0x030100 ≡ some 14
status_of-set_dtc_self_example = status_of-set_dtc_self codes 0x030100 8 (omega arith)

status_of-set_dtc_ne_example : status_of (set_dtc codes 0x050000 8) 0x030100 ≡ some 6
status_of-set_dtc_ne_example =
    status_of-set_dtc_ne codes 0x050000 8 0x030100 (omega arith) (inl refl)

status_of-clear_dtc_example : status_of (clear_dtc codes 0x030100) 0x030100 ≡ none
status_of-clear_dtc_example = status_of-clear_dtc codes 0x030100 0x030100 (refl, (refl, tt))

handle_read_lem_example :
    let g = record globals { dtcs = codes } in
    Yields (handle_read g (0x19 ∷ 0x02 ∷ 4 ∷ [])) (λ g'.
      (response g' ≡ 0x59 ∷ 0x02 ∷ 0xFE ∷ 0 ∷ 1 ∷ 0x03 ∷ 0x01 ∷ 0x00 ∷ 6 ∷ []) × (g'.dtcs ≡ codes))
handle_read_lem_example = handle_read_lem (record globals { dtcs = codes }) 4 [] (omega arith)
