-- ===== src/Uds/Service.antt =====
-- crates/uds/src/service.rs: the request builders. A DTC code is a triple of bytes.
pub mod Classes
use klartext.Prelude.{ℕ, List, [], ◌∷◌, ◌++◌, to_be_bytes}
use klartext.Uds.Sid

abbrev pub report_dtc_by_status_mask : ℕ
report_dtc_by_status_mask = 0x02

abbrev pub report_dtc_snapshot_by_dtc : ℕ
report_dtc_snapshot_by_dtc = 0x04

abbrev pub report_dtc_ext_data_by_dtc : ℕ
report_dtc_ext_data_by_dtc = 0x06

abbrev pub report_severity_info_of_dtc : ℕ
report_severity_info_of_dtc = 0x09

abbrev pub define_by_identifier : ℕ
define_by_identifier = 0x01

abbrev pub clear_subfn : ℕ
clear_subfn = 0x03

abbrev pub Code : Type 0
Code = ℕ × ℕ × ℕ

abbrev pub code_bytes : Code → List ℕ
code_bytes (hi, mid, lo) = hi ∷ mid ∷ lo ∷ []

unfoldable pub tester_present : List ℕ
tester_present = Sid.tester_present ∷ 0x00 ∷ []

unfoldable pub tester_present_suppressed : List ℕ
tester_present_suppressed = Sid.tester_present ∷ Sid.suppress_positive_response ∷ []

unfoldable pub diagnostic_session_control : ℕ → List ℕ
diagnostic_session_control session = Sid.diagnostic_session_control ∷ session ∷ []

unfoldable pub read_dtc_by_status_mask : ℕ → List ℕ
read_dtc_by_status_mask mask = Sid.read_dtc_information ∷ report_dtc_by_status_mask ∷ mask ∷ []

unfoldable pub read_dtc_snapshot_by_dtc : Code → ℕ → List ℕ
read_dtc_snapshot_by_dtc dtc number =
    Sid.read_dtc_information ∷ report_dtc_snapshot_by_dtc ∷ (code_bytes dtc ++ number ∷ [])

unfoldable pub read_dtc_extended_data_by_dtc : Code → ℕ → List ℕ
read_dtc_extended_data_by_dtc dtc number =
    Sid.read_dtc_information ∷ report_dtc_ext_data_by_dtc ∷ (code_bytes dtc ++ number ∷ [])

unfoldable pub read_dtc_severity_by_dtc : Code → List ℕ
read_dtc_severity_by_dtc dtc =
    Sid.read_dtc_information ∷ report_severity_info_of_dtc ∷ code_bytes dtc

unfoldable pub read_data_by_identifier : ℕ → List ℕ
read_data_by_identifier did = Sid.read_data_by_identifier ∷ to_be_bytes did

unfoldable pub clear_diagnostic_information : Code → List ℕ
clear_diagnostic_information dtc = Sid.clear_diagnostic_information ∷ code_bytes dtc

unfoldable pub clear_all_dtcs : List ℕ
unfolding clear_diagnostic_information
clear_all_dtcs = clear_diagnostic_information (0xff, 0xff, 0xff)

unfoldable pub ecu_reset : ℕ → List ℕ
ecu_reset subfunction = Sid.ecu_reset ∷ subfunction ∷ []

unfoldable pub clear_dynamic_data_identifier : ℕ → List ℕ
clear_dynamic_data_identifier dynamic_did =
    Sid.dynamically_define_data_identifier ∷ clear_subfn ∷ to_be_bytes dynamic_did

unfoldable pub define_dynamic_data_by_identifier :
    (dynamic_did source_did position size : ℕ) → List ℕ
define_dynamic_data_by_identifier dynamic_did source_did position size =
    Sid.dynamically_define_data_identifier
    ∷ define_by_identifier
    ∷ (to_be_bytes dynamic_did ++ to_be_bytes source_did ++ position ∷ size ∷ [])

unfoldable pub routine_control : ℕ → ℕ → List ℕ → List ℕ
routine_control subfn rid params = Sid.routine_control ∷ subfn ∷ (to_be_bytes rid ++ params)

unfoldable pub write_data_by_identifier : ℕ → List ℕ → List ℕ
write_data_by_identifier did value = Sid.write_data_by_identifier ∷ (to_be_bytes did ++ value)
