-- ===== src/Uds/Dtc.antt =====
-- crates/uds/src/dtc.rs: the decoders of the positive answers to the read services.
pub mod Records
pub mod Region
pub mod Bounds
pub mod Status
use klartext.Prelude.{
  ℕ, ◌+◌, ◌%◌, Bool, not, List, [], ◌∷◌, Option, none, some, length, get_elem?, drop, ltb, ◌==◌,
  if◌then◌else◌, Result, ok, err, panic, ◌>>=◌, ok_or, index, slice, get_range?, get_from?,
  from_be_bytes, bit_and,
}
use klartext.Uds.Sid
use klartext.Uds.Service.{
  Code, report_dtc_by_status_mask, report_dtc_snapshot_by_dtc, report_dtc_ext_data_by_dtc,
  report_severity_info_of_dtc,
}
use klartext.Uds.Response.{
  UdsError, unexpected_subfunction, short_response, malformed_dtc_records, expect_positive,
}

-- `status`
abbrev pub pending_bit : ℕ
pending_bit = 0x04

abbrev pub confirmed_bit : ℕ
confirmed_bit = 0x08

abbrev pub relevant_mask : ℕ
relevant_mask = 0xaf

pub record Dtc : Type 0 where
  pub code : Code
  pub status : ℕ

unfoldable pub pending : Dtc → Bool
pending d = not (bit_and d.status pending_bit == 0)

unfoldable pub confirmed : Dtc → Bool
confirmed d = not (bit_and d.status confirmed_bit == 0)

unfoldable pub is_relevant : Dtc → Bool
is_relevant d = not (bit_and d.status relevant_mask == 0)

-- `chunks_exact(4)` with the closure that makes a `Dtc` of each; what is left over is dropped.
unfoldable pub dtc_chunks : List ℕ → List Dtc
dtc_chunks (a ∷ b ∷ c ∷ s ∷ rest) = record { code = (a, b, c); status = s } ∷ dtc_chunks rest
dtc_chunks _ = []

-- The tests and the records of `decode_dtcs`, once the header is there.
unfoldable pub dtcs_of : List ℕ → List ℕ → Result UdsError (List Dtc)
dtcs_of body records = do
  echo ← index body 0
  let whole : Result UdsError (List Dtc) =
      if length records % 4 == 0
      then ok (dtc_chunks records)
      else err (malformed_dtc_records (length records))
  if echo == report_dtc_by_status_mask
      then whole
      else err (unexpected_subfunction report_dtc_by_status_mask echo)

unfoldable pub decode_dtcs : List ℕ → Result UdsError (List Dtc)
unfolding dtcs_of
decode_dtcs payload = do
  let expected = Sid.positive_response_sid Sid.read_dtc_information
  body ← expect_positive payload expected
  records ← ok_or (get_from? body 2) (short_response expected 2 (length body))
  dtcs_of body records

pub record DtcRecordRegion : Type 0 where
  pub dtc : Code
  pub status : ℕ
  pub body : List ℕ

pub record DtcSeverity : Type 0 where
  pub dtc : Code
  pub status : ℕ
  pub severity : ℕ
  pub functional_unit : ℕ

-- The echo and the fields of a region, once the body is long enough.
unfoldable pub region_of : List ℕ → ℕ → Result UdsError DtcRecordRegion
region_of body expected_subfn = do
  echo ← index body 0
  let whole : Result UdsError DtcRecordRegion = do
    hi ← index body 1
    mid ← index body 2
    lo ← index body 3
    status ← index body 4
    records ← slice body 5 (length body)
    ok (record { dtc = (hi, mid, lo); status = status; body = records })
  if echo == expected_subfn then whole else err (unexpected_subfunction expected_subfn echo)

unfoldable pub decode_dtc_record_region : List ℕ → ℕ → Result UdsError DtcRecordRegion
unfolding region_of
decode_dtc_record_region payload expected_subfn = do
  let expected = Sid.positive_response_sid Sid.read_dtc_information
  body ← expect_positive payload expected
  let fields = region_of body expected_subfn
  if ltb (length body) 5 then err (short_response expected 5 (length body)) else fields

unfoldable pub decode_dtc_snapshot : List ℕ → Result UdsError DtcRecordRegion
unfolding decode_dtc_record_region
decode_dtc_snapshot payload = decode_dtc_record_region payload report_dtc_snapshot_by_dtc

unfoldable pub decode_dtc_extended_data : List ℕ → Result UdsError DtcRecordRegion
unfolding decode_dtc_record_region
decode_dtc_extended_data payload = decode_dtc_record_region payload report_dtc_ext_data_by_dtc

-- The echo and the fields of a severity record, once the body is long enough.
unfoldable pub severity_of : List ℕ → Result UdsError DtcSeverity
severity_of body = do
  echo ← index body 0
  let whole : Result UdsError DtcSeverity = do
    severity ← index body 2
    functional_unit ← index body 3
    hi ← index body 4
    mid ← index body 5
    lo ← index body 6
    status ← index body 7
    ok (record {
      dtc = (hi, mid, lo);
      status = status;
      severity = severity;
      functional_unit = functional_unit;
    })
  if echo == report_severity_info_of_dtc
      then whole
      else err (unexpected_subfunction report_severity_info_of_dtc echo)

unfoldable pub decode_dtc_severity : List ℕ → Result UdsError DtcSeverity
unfolding severity_of
decode_dtc_severity payload = do
  let expected = Sid.positive_response_sid Sid.read_dtc_information
  body ← expect_positive payload expected
  let fields = severity_of body
  if ltb (length body) 8 then err (short_response expected 8 (length body)) else fields

unfoldable pub decode_read_data_by_identifier : List ℕ → Result UdsError (ℕ × List ℕ)
decode_read_data_by_identifier payload = do
  let expected = Sid.positive_response_sid Sid.read_data_by_identifier
  body ← expect_positive payload expected
  did ← ok_or (get_range? body 0 2) (short_response expected 2 (length body))
  hi ← index did 0
  lo ← index did 1
  value ← slice body 2 (length body)
  ok (from_be_bytes hi lo, value)

pub record InfoMemory : Type 0 where
  pub version : Option ℕ
  pub entries : List Dtc
  pub raw : List ℕ

-- `option.unwrap_or(&[])`
abbrev pub or_empty : Option (List ℕ) → List ℕ
or_empty none = []
or_empty (some bs) = bs

unfoldable pub decode_info_memory : List ℕ → Result UdsError InfoMemory
decode_info_memory payload = do
  let expected = Sid.positive_response_sid Sid.read_data_by_identifier
  body ← expect_positive payload expected
  rest ← ok_or (get_from? body 2) (short_response expected 2 (length body))
  ok (record {
    version = get_elem? rest 0;
    entries = dtc_chunks (or_empty (get_from? rest 1));
    raw = rest;
  })
