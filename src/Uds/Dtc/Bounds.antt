-- ===== src/Uds/Dtc/Bounds.antt =====
-- crates/uds/src/dtc.rs and crates/uds/src/identity.rs: no index out of bounds on any answer.
use klartext.Prelude.{
  ℕ, ◌≢◌, List, [], ◌∷◌, panic, index, slice_suffix, get_range?, get_from?, arith,
}
use klartext.Uds.Response.{UdsError, expect_positive, decode_ecu_list}
use klartext.Uds.Dtc.{
  decode_dtcs, decode_dtc_record_region, decode_dtc_severity, decode_read_data_by_identifier,
  decode_info_memory,
}
use klartext.Uds.Dtc.Records.{decode_dtcs-header}
use klartext.Uds.Dtc.Region.{decode_region-header, decode_severity-header}

decode_dtcs-ne-panic : (payload : List ℕ) → decode_dtcs payload ≢ panic
unfolding decode_dtcs expect_positive get_from? index
decode_dtcs-ne-panic [] e = cc
decode_dtcs-ne-panic (s ∷ []) e = ground arith
decode_dtcs-ne-panic (s ∷ t ∷ []) e = ground arith
decode_dtcs-ne-panic (s ∷ t ∷ mask ∷ records) e =
    ground (arith, decode_dtcs-header s t mask records)

decode_region-ne-panic :
    (payload : List ℕ) (subfn : ℕ) → decode_dtc_record_region payload subfn ≢ panic
unfolding decode_dtc_record_region expect_positive index
decode_region-ne-panic (s ∷ t ∷ hi ∷ mid ∷ lo ∷ st ∷ records) subfn e =
    ground (arith, decode_region-header s t hi mid lo st records subfn)
decode_region-ne-panic [] subfn e = cc
decode_region-ne-panic (a ∷ []) subfn e = ground arith
decode_region-ne-panic (a ∷ b ∷ []) subfn e = ground arith
decode_region-ne-panic (a ∷ b ∷ c ∷ []) subfn e = ground arith
decode_region-ne-panic (a ∷ b ∷ c ∷ d ∷ []) subfn e = ground arith
decode_region-ne-panic (a ∷ b ∷ c ∷ d ∷ x ∷ []) subfn e = ground arith

decode_severity-ne-panic : (payload : List ℕ) → decode_dtc_severity payload ≢ panic
unfolding decode_dtc_severity expect_positive index
decode_severity-ne-panic (s ∷ t ∷ mask ∷ sev ∷ unit ∷ hi ∷ mid ∷ lo ∷ st ∷ rest) e =
    ground (arith, decode_severity-header s t mask sev unit hi mid lo st rest)
decode_severity-ne-panic [] e = cc
decode_severity-ne-panic (a ∷ []) e = ground arith
decode_severity-ne-panic (a ∷ b ∷ []) e = ground arith
decode_severity-ne-panic (a ∷ b ∷ c ∷ []) e = ground arith
decode_severity-ne-panic (a ∷ b ∷ c ∷ d ∷ []) e = ground arith
decode_severity-ne-panic (a ∷ b ∷ c ∷ d ∷ x ∷ []) e = ground arith
decode_severity-ne-panic (a ∷ b ∷ c ∷ d ∷ x ∷ y ∷ []) e = ground arith
decode_severity-ne-panic (a ∷ b ∷ c ∷ d ∷ x ∷ y ∷ z ∷ []) e = ground arith
decode_severity-ne-panic (a ∷ b ∷ c ∷ d ∷ x ∷ y ∷ z ∷ v ∷ []) e = ground arith

decode_read_data-ne-panic : (payload : List ℕ) → decode_read_data_by_identifier payload ≢ panic
unfolding decode_read_data_by_identifier expect_positive index get_range?
decode_read_data-ne-panic [] e = cc
decode_read_data-ne-panic (s ∷ []) e = ground arith
decode_read_data-ne-panic (s ∷ t ∷ []) e = ground arith
decode_read_data-ne-panic (s ∷ t ∷ u ∷ rest) e =
    ground (arith, slice_suffix {E = UdsError} (t ∷ u ∷ []) rest)

decode_info_memory-ne-panic : (payload : List ℕ) → decode_info_memory payload ≢ panic
unfolding decode_info_memory expect_positive get_from?
decode_info_memory-ne-panic [] e = cc
decode_info_memory-ne-panic (s ∷ body) e = ground arith

decode_ecu_list-ne-panic : (region : List ℕ) → decode_ecu_list region ≢ panic
unfolding decode_ecu_list index get_range?
decode_ecu_list-ne-panic [] e = ground arith
decode_ecu_list-ne-panic (t ∷ []) e = ground arith
decode_ecu_list-ne-panic (t ∷ u ∷ rest) e =
    ground (arith, slice_suffix {E = UdsError} (t ∷ u ∷ []) rest)

-- No decoder reads out of bounds: on every payload each returns a value or an error.
pub uds_decoders-ne-panic :
    (payload : List ℕ) (subfn : ℕ)
    → (decode_dtcs payload ≢ panic)
      × (decode_dtc_record_region payload subfn ≢ panic)
      × (decode_dtc_severity payload ≢ panic)
      × (decode_read_data_by_identifier payload ≢ panic)
      × (decode_info_memory payload ≢ panic)
      × (decode_ecu_list payload ≢ panic)
uds_decoders-ne-panic payload subfn = (
  decode_dtcs-ne-panic payload,
  decode_region-ne-panic payload subfn,
  decode_severity-ne-panic payload,
  decode_read_data-ne-panic payload,
  decode_info_memory-ne-panic payload,
  decode_ecu_list-ne-panic payload,
)
