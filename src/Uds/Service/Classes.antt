-- ===== src/Uds/Service/Classes.antt =====
-- crates/uds/src/service.rs under crates/best/src/gate.rs: how the gate classes each request.
use klartext.Prelude.{ℕ, ◌≡◌, refl, List, get_elem?, Option, none, some}
use klartext.Best.Gate.{classify, SidClass, pass, gated}
use klartext.Uds.Service

-- The class of a request by its first byte.
abbrev pub class_of : List ℕ → Option SidClass
class_of frame = elim (get_elem? frame 0) [ none ↦ none | some sid ↦ some (classify sid) ]

-- Every request that only reads, keeps the session alive or sets up a dynamic identifier is in the
-- class that both policies pass; every request that clears, resets, runs a routine or writes is in
-- the class that needs a confirmation; no builder makes a request that is always refused.
pub builder-classes :
    (code : Service.Code) (session mask number did source position size subfn : ℕ) (bytes : List ℕ)
    → (class_of Service.tester_present ≡ some pass)
      × (class_of Service.tester_present_suppressed ≡ some pass)
      × (class_of (Service.diagnostic_session_control session) ≡ some pass)
      × (class_of (Service.read_dtc_by_status_mask mask) ≡ some pass)
      × (class_of (Service.read_dtc_snapshot_by_dtc code number) ≡ some pass)
      × (class_of (Service.read_dtc_extended_data_by_dtc code number) ≡ some pass)
      × (class_of (Service.read_dtc_severity_by_dtc code) ≡ some pass)
      × (class_of (Service.read_data_by_identifier did) ≡ some pass)
      × (class_of (Service.clear_dynamic_data_identifier did) ≡ some pass)
      × (class_of (Service.define_dynamic_data_by_identifier did source position size) ≡ some pass)
      × (class_of (Service.clear_diagnostic_information code) ≡ some gated)
      × (class_of Service.clear_all_dtcs ≡ some gated)
      × (class_of (Service.ecu_reset subfn) ≡ some gated)
      × (class_of (Service.routine_control subfn did bytes) ≡ some gated)
      × (class_of (Service.write_data_by_identifier did bytes) ≡ some gated)
unfolding classify Service.tester_present Service.tester_present_suppressed
    Service.diagnostic_session_control Service.read_dtc_by_status_mask
    Service.read_dtc_snapshot_by_dtc Service.read_dtc_extended_data_by_dtc
    Service.read_dtc_severity_by_dtc Service.read_data_by_identifier
    Service.clear_dynamic_data_identifier Service.define_dynamic_data_by_identifier
    Service.clear_diagnostic_information Service.clear_all_dtcs Service.ecu_reset
    Service.routine_control Service.write_data_by_identifier
builder-classes code session mask number did source position size subfn bytes =
    (refl, refl, refl, refl, refl, refl, refl, refl, refl, refl, refl, refl, refl, refl, refl)
