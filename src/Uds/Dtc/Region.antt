-- ===== src/Uds/Dtc/Region.antt =====
-- crates/uds/src/dtc.rs: the answers with one record or one value, and the bounds of all decoders.
use klartext.Prelude.{
  ℕ, ◌/◌, ◌%◌, ◌<◌, ◌≡◌, ◌≢◌, ◌↔◌, ap, ◌∙◌, List, [], ◌∷◌, ◌++◌, length, ◌==◌, ==_refl,
  if◌then◌else◌, ok, err, index, slice_suffix, get_range?-two, to_be_bytes, IsU16, arith,
}
use klartext.Uds.Service.{code_bytes}
use klartext.Uds.Response.{
  UdsError, unexpected_response, unexpected_subfunction, expect_positive, decode_ecu_list,
}
use klartext.Uds.Dtc.{
  DtcRecordRegion, decode_dtc_record_region, DtcSeverity, decode_dtc_severity,
  decode_read_data_by_identifier,
}

-- What the region decoder answers to a payload that has its header.
pub decode_region-header :
    (s t hi mid lo st : ℕ) (records : List ℕ) (subfn : ℕ)
    → decode_dtc_record_region (s ∷ t ∷ hi ∷ mid ∷ lo ∷ st ∷ records) subfn ≡ (
        if s == 0x59
        then (if t == subfn
            then ok (record { dtc = (hi, mid, lo); status = st; body = records })
            else err (unexpected_subfunction subfn t))
        else err (unexpected_response 0x59 s))
unfolding decode_dtc_record_region expect_positive index
decode_region-header s t hi mid lo st records subfn =
    ground (arith, slice_suffix {E = UdsError} (t ∷ hi ∷ mid ∷ lo ∷ st ∷ []) records)

decode_region-short :
    (payload : List ℕ) (subfn : ℕ) (r : DtcRecordRegion)
    → length payload < 6
    → decode_dtc_record_region payload subfn ≢ ok r
unfolding decode_dtc_record_region expect_positive index
decode_region-short [] subfn r h e = cc
decode_region-short (s ∷ body) subfn r h e = ground arith

-- The region decoder accepts exactly the answers `59 subfn` with a code, a status and any records
-- behind, and returns these parts.
pub decode_dtc_record_region_iff :
    (payload : List ℕ) (subfn : ℕ) (r : DtcRecordRegion)
    → (decode_dtc_record_region payload subfn ≡ ok r)
      ↔ (payload ≡ 0x59 ∷ subfn ∷ (code_bytes r.dtc ++ r.status ∷ r.body))
decode_dtc_record_region_iff payload subfn r = (
  accepts payload,
  λ p.
      ap (λ q. decode_dtc_record_region q subfn) p
      ∙ decode_region-header 0x59 subfn r.dtc.0 r.dtc.1 r.dtc.2 r.status r.body subfn
      ∙ rw ==_refl,
)
  where
    accepts :
        (payload : List ℕ)
        → decode_dtc_record_region payload subfn ≡ ok r
        → payload ≡ 0x59 ∷ subfn ∷ (code_bytes r.dtc ++ r.status ∷ r.body)
    accepts (s ∷ t ∷ hi ∷ mid ∷ lo ∷ st ∷ records) e =
        ground (arith, decode_region-header s t hi mid lo st records subfn)
    accepts [] e = absurd (decode_region-short _ subfn r (omega arith) e)
    accepts (a ∷ []) e = absurd (decode_region-short _ subfn r (omega arith) e)
    accepts (a ∷ b ∷ []) e = absurd (decode_region-short _ subfn r (omega arith) e)
    accepts (a ∷ b ∷ c ∷ []) e = absurd (decode_region-short _ subfn r (omega arith) e)
    accepts (a ∷ b ∷ c ∷ d ∷ []) e = absurd (decode_region-short _ subfn r (omega arith) e)
    accepts (a ∷ b ∷ c ∷ d ∷ x ∷ []) e = absurd (decode_region-short _ subfn r (omega arith) e)

-- What the severity decoder answers to a payload that has its record.
pub decode_severity-header :
    (s t mask sev unit hi mid lo st : ℕ) (rest : List ℕ)
    → decode_dtc_severity (s ∷ t ∷ mask ∷ sev ∷ unit ∷ hi ∷ mid ∷ lo ∷ st ∷ rest) ≡ (
        if s == 0x59
        then (if t == 0x09
            then ok (record {
              dtc = (hi, mid, lo);
              status = st;
              severity = sev;
              functional_unit = unit;
            })
            else err (unexpected_subfunction 0x09 t))
        else err (unexpected_response 0x59 s))
unfolding decode_dtc_severity expect_positive index
decode_severity-header s t mask sev unit hi mid lo st rest = ground arith

decode_severity-short :
    (payload : List ℕ) (r : DtcSeverity) → length payload < 9 → decode_dtc_severity payload ≢ ok r
unfolding decode_dtc_severity expect_positive index
decode_severity-short [] r h e = cc
decode_severity-short (s ∷ body) r h e = ground arith

-- The severity decoder returns the bytes of the answer `59 09 mask severity unit code status`, and
-- accepts nothing else but such an answer with bytes behind it.
pub decode_dtc_severity_iff :
    (payload : List ℕ) (r : DtcSeverity)
    → (decode_dtc_severity payload ≡ ok r) ↔ (
        (mask : ℕ) × ((rest : List ℕ) × (payload
            ≡ 0x59
              ∷ 0x09
              ∷ mask
              ∷ r.severity
              ∷ r.functional_unit
              ∷ (code_bytes r.dtc ++ r.status ∷ rest))))
decode_dtc_severity_iff payload r = (accepts payload, returns)
  where
    accepts :
        (payload : List ℕ)
        → decode_dtc_severity payload ≡ ok r
        → (mask : ℕ) × ((rest : List ℕ) × (payload
              ≡ 0x59
                ∷ 0x09
                ∷ mask
                ∷ r.severity
                ∷ r.functional_unit
                ∷ (code_bytes r.dtc ++ r.status ∷ rest)))
    accepts (s ∷ t ∷ mask ∷ sev ∷ unit ∷ hi ∷ mid ∷ lo ∷ st ∷ rest) e =
        (mask, (rest, ground (arith, decode_severity-header s t mask sev unit hi mid lo st rest)))
    accepts [] e = absurd (decode_severity-short _ r (omega arith) e)
    accepts (a ∷ []) e = absurd (decode_severity-short _ r (omega arith) e)
    accepts (a ∷ b ∷ []) e = absurd (decode_severity-short _ r (omega arith) e)
    accepts (a ∷ b ∷ c ∷ []) e = absurd (decode_severity-short _ r (omega arith) e)
    accepts (a ∷ b ∷ c ∷ d ∷ []) e = absurd (decode_severity-short _ r (omega arith) e)
    accepts (a ∷ b ∷ c ∷ d ∷ x ∷ []) e = absurd (decode_severity-short _ r (omega arith) e)
    accepts (a ∷ b ∷ c ∷ d ∷ x ∷ y ∷ []) e = absurd (decode_severity-short _ r (omega arith) e)
    accepts (a ∷ b ∷ c ∷ d ∷ x ∷ y ∷ z ∷ []) e = absurd (decode_severity-short _ r (omega arith) e)
    accepts (a ∷ b ∷ c ∷ d ∷ x ∷ y ∷ z ∷ v ∷ []) e =
        absurd (decode_severity-short _ r (omega arith) e)

    returns :
        (w : (mask : ℕ) × ((rest : List ℕ) × (payload
              ≡ 0x59
                ∷ 0x09
                ∷ mask
                ∷ r.severity
                ∷ r.functional_unit
                ∷ (code_bytes r.dtc ++ r.status ∷ rest))))
        → decode_dtc_severity payload ≡ ok r
    returns (mask, (rest, p)) =
        ap decode_dtc_severity p
        ∙ decode_severity-header 0x59 0x09 mask r.severity r.functional_unit r.dtc.0 r.dtc.1 r.dtc.2
            r.status rest

-- The value read under a two-byte identifier comes back from the answer `62` that echoes it.
pub decode_read_data-echo :
    (did : ℕ) (value : List ℕ)
    → IsU16 did
    → decode_read_data_by_identifier (0x62 ∷ (to_be_bytes did ++ value)) ≡ ok (did, value)
unfolding decode_read_data_by_identifier expect_positive index
decode_read_data-echo did value h =
    rw
      (
        get_range?-two (did / 256 % 256) (did % 256) value,
        slice_suffix (did / 256 % 256 ∷ did % 256 ∷ []) value,
      )
      (ap (λ d. ok (d, value)) (omega arith))

-- The ECU list: the declared count and every address byte behind it, whatever the count says.
pub decode_ecu_list-addresses :
    (count : ℕ) (addresses : List ℕ)
    → IsU16 count
    → decode_ecu_list (to_be_bytes count ++ addresses)
      ≡ ok (record { count = count; addresses = addresses })
unfolding decode_ecu_list index
decode_ecu_list-addresses count addresses h =
    rw
      (
        get_range?-two (count / 256 % 256) (count % 256) addresses,
        slice_suffix (count / 256 % 256 ∷ count % 256 ∷ []) addresses,
      )
      (ground arith)
