-- ===== src/Uds/Sid.antt =====
-- crates/uds/src/lib.rs: the service bytes, the sub-functions of a session and a reset, and the
-- service byte of a positive answer.
use klartext.Prelude.{ℕ, ◌+◌, ◌%◌}

abbrev pub diagnostic_session_control : ℕ
diagnostic_session_control = 0x10

abbrev pub ecu_reset : ℕ
ecu_reset = 0x11

abbrev pub clear_diagnostic_information : ℕ
clear_diagnostic_information = 0x14

abbrev pub read_dtc_information : ℕ
read_dtc_information = 0x19

abbrev pub read_data_by_identifier : ℕ
read_data_by_identifier = 0x22

abbrev pub dynamically_define_data_identifier : ℕ
dynamically_define_data_identifier = 0x2c

abbrev pub write_data_by_identifier : ℕ
write_data_by_identifier = 0x2e

abbrev pub routine_control : ℕ
routine_control = 0x31

abbrev pub tester_present : ℕ
tester_present = 0x3e

abbrev pub negative_response : ℕ
negative_response = 0x7f

abbrev pub positive_response_offset : ℕ
positive_response_offset = 0x40

abbrev pub suppress_positive_response : ℕ
suppress_positive_response = 0x80

abbrev pub nrc_response_pending : ℕ
nrc_response_pending = 0x78

-- `request_sid.wrapping_add(POSITIVE_RESPONSE_OFFSET)`
abbrev pub positive_response_sid : ℕ → ℕ
positive_response_sid request_sid = (request_sid + positive_response_offset) % 256
