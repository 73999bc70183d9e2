-- ===== src/Uds/Security.antt =====
-- uds-core/src/table.rs and crypto.rs: SecurityAccess (0x27), its seeds and its keys.
-- AES-128 and the constant-time comparison come from `Crates`.
use rust_foc.Common.{
  indexed, ℕ, ◌+◌, ◌-◌, ◌*◌, ◌/◌, ◌%◌, ◌^◌, Bool, true, false, not, ◌&&◌, List, [], ◌∷◌, ◌++◌,
  Option, none, some, ◌==◌, ltb, leb, if◌then◌else◌, length, get_or, drop, replicate,
  saturating_add8,
}
use rust_foc.Uds.Types.{
  Session, default, programming, extended, security_from_u8, security_as_u8,
  incorrect_message_length_or_invalid_format, sub_function_not_supported, request_sequence_error,
  invalid_key, exceeded_number_of_attempts, sub_function_not_supported_in_active_session,
}
use rust_foc.Uds.State.{AesBlock, UdsState, Globals, store_response}
use rust_foc.Uds.Config.{Crates, UdsConfig}
use rust_foc.Uds.Services.{refuse}

unfoldable pub parse_sa_subfunc : ℕ → Option (ℕ × Bool)
parse_sa_subfunc subfunc =
    if subfunc == 0x01
    then some (1, true)
    else if subfunc == 0x02
    then some (1, false)
    else if subfunc == 0x03
    then some (2, true)
    else if subfunc == 0x04
    then some (2, false)
    else if subfunc == 0x05
    then some (3, true)
    else if subfunc == 0x06
    then some (3, false)
    else none

abbrev pub is_default : Session → Bool
is_default default = true
is_default programming = false
is_default extended = false

abbrev pub is_extended : Session → Bool
is_extended default = false
is_extended programming = false
is_extended extended = true

unfoldable pub sal_session_allowed : ℕ → Session → Bool
sal_session_allowed sal session =
    if sal == 1
    then not (is_extended session)
    else if sal == 2
    then not (is_default session)
    else if sal == 3
    then is_extended session
    else false

abbrev pub u32_mod : ℕ
u32_mod = 2 ^ 32

-- `u32::to_le_bytes`
abbrev pub le_bytes32 : ℕ → List ℕ
le_bytes32 v = v % 256 ∷ v / 256 % 256 ∷ v / 65536 % 256 ∷ v / 16777216 % 256 ∷ []

-- Four bytes of the fallback seed.
abbrev pub seed_chunk : ℕ → ℕ → List ℕ
seed_chunk c i = le_bytes32 (c * ((0x9E3779B9 + i) % u32_mod) % u32_mod)

unfoldable pub fallback_seed_bytes : ℕ → AesBlock
fallback_seed_bytes c = seed_chunk c 0 ++ (seed_chunk c 1 ++ (seed_chunk c 2 ++ seed_chunk c 3))

unfoldable pub generate_key : Crates → AesBlock → AesBlock → AesBlock
generate_key crates seed key_material = crates.encrypt_block key_material seed

module _ {W : Type 0} where
  unfoldable pub fallback_seed : Globals W → AesBlock × Globals W
  fallback_seed g = (
    fallback_seed_bytes g.seed_counter,
    record g { seed_counter = (g.seed_counter + 1) % u32_mod },
  )

  unfoldable pub generate_seed : UdsConfig W → Globals W → Option (AesBlock × Globals W)
  unfolding fallback_seed
  generate_seed c g = elim c.seed_fn [ none ↦ some (fallback_seed g) | some f ↦ f g ]

  unfoldable pub sa_request_seed :
      UdsConfig W → UdsState → Globals W → ℕ → ℕ → Option (UdsState × Globals W)
  sa_request_seed c s g sal subfunc =
      if leb sal (security_as_u8 s.security)
      then some (s, store_response ((subfunc + 0x40) ∷ subfunc ∷ replicate 16 0) g)
      else elim (generate_seed c g) [
        | none ↦ none
        | some (seed, g') ↦ some (
          record s { current_seed = seed; seed_sent = true },
          store_response ((subfunc + 0x40) ∷ subfunc ∷ seed) g',
        )
      ]

  -- The key that the received one is compared with.
  unfoldable pub expected_key :
      Crates → UdsConfig W → UdsState → Globals W → ℕ → Option (AesBlock × Globals W)
  expected_key crates c s g sal =
      let material = get_or g.key_masks (sal - 1) [] in
      elim c.key_fn [
        | some f ↦ f s.current_seed material g
        | none ↦ some (generate_key crates s.current_seed material, g)
      ]

  -- The part of `sa_send_key` after the comparison.
  unfoldable pub settle_key : UdsState → Globals W → ℕ → ℕ → Bool → UdsState × Globals W
  settle_key s g sal subfunc equal =
      if not equal
      then (
        record s { sa_fail_count = saturating_add8 s.sa_fail_count 1 },
        refuse invalid_key 0x27 g,
      )
      else (
        record s { security = security_from_u8 sal; sa_fail_count = 0 },
        store_response ((subfunc + 0x40) ∷ subfunc ∷ []) g,
      )

  unfoldable pub sa_send_key :
      Crates → UdsConfig W → UdsState → Globals W → ℕ → ℕ → List ℕ → Option (UdsState × Globals W)
  sa_send_key crates c s g sal subfunc req =
      if not s.seed_sent
      then some (s, refuse request_sequence_error 0x27 g)
      else if not (length req == 18)
      then some (s, refuse incorrect_message_length_or_invalid_format 0x27 g)
      else indexed req 17 (elim (expected_key crates c s g sal) [
        | none ↦ none
        | some (expected, g') ↦ some (
            settle_key (record s { seed_sent = false }) g' sal subfunc
              (crates.ct_eq (drop 2 req) expected))
      ])

  -- The guard of the lockout.
  abbrev pub locked_out : UdsConfig W → UdsState → Bool
  locked_out c s = ltb 0 c.sa_max_attempts && leb c.sa_max_attempts s.sa_fail_count

  unfoldable pub dispatch_0x27 :
      Crates → UdsConfig W → UdsState → Globals W → List ℕ → Option (UdsState × Globals W)
  dispatch_0x27 crates c s g req =
      if locked_out c s
      then some (s, refuse exceeded_number_of_attempts 0x27 g)
      else if ltb (length req) 2
      then some (s, refuse incorrect_message_length_or_invalid_format 0x27 g)
      else indexed req 1 (elim (parse_sa_subfunc (get_or req 1 0)) [
        | none ↦ some (s, refuse sub_function_not_supported 0x27 g)
        | some (sal, is_request_seed) ↦
            if not (sal_session_allowed sal s.session)
            then some (s, refuse sub_function_not_supported_in_active_session 0x27 g)
            else if is_request_seed
            then sa_request_seed c s g sal (get_or req 1 0)
            else sa_send_key crates c s g sal (get_or req 1 0) req
      ])
