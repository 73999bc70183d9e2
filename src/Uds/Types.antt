-- ===== src/Uds/Types.antt =====
-- uds-core/src/types.rs: the protocol's sessions, security levels and response codes.
use rust_foc.Common.{
  ◌≡◌, ◌⊎◌, inl, inr, refl, ℕ, ◌∷◌, [], List, Option, none, some, ◌==◌, if◌then◌else◌,
}

pub data Session : Type 0 where
  default programming extended : Session

unfoldable pub session_from_u8 : ℕ → Option Session
session_from_u8 v =
    if v == 0x01
    then some default
    else if v == 0x02
    then some programming
    else if v == 0x03
    then some extended
    else none

abbrev pub session_as_u8 : Session → ℕ
session_as_u8 default = 0x01
session_as_u8 programming = 0x02
session_as_u8 extended = 0x03

pub data SecurityLevel : Type 0 where
  locked sal1 sal2 sal3 : SecurityLevel

abbrev pub security_from_u8 : ℕ → SecurityLevel
security_from_u8 v =
    if v == 0 then locked else if v == 1 then sal1 else if v == 2 then sal2 else sal3

abbrev pub security_as_u8 : SecurityLevel → ℕ
security_as_u8 locked = 0
security_as_u8 sal1 = 1
security_as_u8 sal2 = 2
security_as_u8 sal3 = 3

pub data SrvState : Type 0 where
  idle pending : SrvState

pub data Nrc : Type 0 where
  general_reject service_not_supported sub_function_not_supported : Nrc
  incorrect_message_length_or_invalid_format response_too_long busy_repeat_request : Nrc
  conditions_not_correct request_sequence_error no_response_from_subnet_component : Nrc
  failure_prevents_execution_of_requested_action request_out_of_range : Nrc
  security_access_denied authentication_required invalid_key exceeded_number_of_attempts : Nrc
  required_time_delay_not_expired upload_download_not_accepted transfer_data_suspended : Nrc
  general_programming_failure wrong_block_sequence_number : Nrc
  illegal_byte_count_in_block_transfer request_correctly_received_response_pending : Nrc
  sub_function_not_supported_in_active_session service_not_supported_in_active_session : Nrc

abbrev pub nrc_code : Nrc → ℕ
nrc_code general_reject = 0x10
nrc_code service_not_supported = 0x11
nrc_code sub_function_not_supported = 0x12
nrc_code incorrect_message_length_or_invalid_format = 0x13
nrc_code response_too_long = 0x14
nrc_code busy_repeat_request = 0x21
nrc_code conditions_not_correct = 0x22
nrc_code request_sequence_error = 0x24
nrc_code no_response_from_subnet_component = 0x25
nrc_code failure_prevents_execution_of_requested_action = 0x26
nrc_code request_out_of_range = 0x31
nrc_code security_access_denied = 0x33
nrc_code authentication_required = 0x34
nrc_code invalid_key = 0x35
nrc_code exceeded_number_of_attempts = 0x36
nrc_code required_time_delay_not_expired = 0x37
nrc_code upload_download_not_accepted = 0x70
nrc_code transfer_data_suspended = 0x71
nrc_code general_programming_failure = 0x72
nrc_code wrong_block_sequence_number = 0x73
nrc_code illegal_byte_count_in_block_transfer = 0x75
nrc_code request_correctly_received_response_pending = 0x78
nrc_code sub_function_not_supported_in_active_session = 0x7E
nrc_code service_not_supported_in_active_session = 0x7F

-- `[0x7F, sid, nrc]`
abbrev pub negative_response : Nrc → ℕ → List ℕ
negative_response nrc sid = 0x7F ∷ sid ∷ nrc_code nrc ∷ []

pub SrvState-cases : (s : SrvState) → (s ≡ idle) ⊎ (s ≡ pending)
SrvState-cases idle = inl refl
SrvState-cases pending = inr refl
