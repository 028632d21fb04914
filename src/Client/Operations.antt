-- ===== src/Client/Operations.antt =====
-- crates/client/src/client.rs: the operations of the diagnostic client, over a session that sends
-- requests, which is a parameter: the client's own code only calls it.
use klartext.Prelude.{
  ℕ, ◌≡◌, List, [], ◌∷◌, ◌++◌, Option, none, some, ◌==◌, if◌then◌else◌, get_elem?, Result, ok, err,
  panic, ok_or, map_err, index, from_be_bytes,
}
use klartext.Uds.Sid
use klartext.Uds.Service
use klartext.Uds.Service.{Code}
use klartext.Uds.Response.{UdsError, EcuList, decode_ecu_list}
use klartext.Uds.Dtc.{
  Dtc, decode_dtcs, DtcRecordRegion, DtcSeverity, decode_dtc_snapshot, decode_dtc_extended_data,
  decode_dtc_severity, decode_read_data_by_identifier, InfoMemory, decode_info_memory,
}
use klartext.Client.Session.{
  ClientError, uds, negative, no_measurement_read, unexpected_did, Answer, is_byte,
}

abbrev pub zgw_address : ℕ
zgw_address = 0x10

-- `session::EXTENDED`, `reset_subfn::HARD`, and the identifiers of `did`.
abbrev pub extended : ℕ
extended = 0x03

abbrev pub hard : ℕ
hard = 0x01

abbrev pub all_dtc_status_mask : ℕ
all_dtc_status_mask = 0xff

abbrev pub all_dtc_records : ℕ
all_dtc_records = 0xff

-- `request s target uds` answers the request over the session `s`; `asked` are the requests that
-- have been made of it, in order.
pub record Seam (Io S : Type 0) : Type 0 where
  pub request : S → ℕ → List ℕ → Answer Io × S
  pub asked : S → List (ℕ × List ℕ)
  pub request-asked :
      (s : S) (target : ℕ) (uds : List ℕ)
      → asked (request s target uds).1 ≡ asked s ++ (target, uds) ∷ []

-- An action of the client over the session.
abbrev pub ClientM : Type 0 → Type 0 → Type 0 → Type 0
ClientM Io S A = S → Result (ClientError Io) A × S

infixl 5 ◌>>=◌
abbrev pub ◌>>=◌ : {Io S A B : Type 0} → ClientM Io S A → (A → ClientM Io S B) → ClientM Io S B
◌>>=◌ m f s =
    let first = m s in
    elim first.0 [ ok a ↦ f a first.1 | err e ↦ (err e, first.1) | panic ↦ (panic, first.1) ]

abbrev pub lift : {Io S A : Type 0} → Result (ClientError Io) A → ClientM Io S A
lift result s = (result, s)

abbrev pub pure : {Io S A : Type 0} → A → ClientM Io S A
pure a = lift (ok a)

-- `?` on a result of the decoders.
abbrev pub decoded : {Io S A : Type 0} → Result UdsError A → ClientM Io S A
decoded result = lift (map_err uds result)

abbrev no_record :
    {A : Type 0} → Option (List ℕ) → (List ℕ → Result UdsError A) → Result UdsError (Option A)
no_record none decode = ok none
no_record (some response) decode = elim (decode response) [
  | ok a ↦ ok (some a)
  | err e ↦ err e
  | panic ↦ panic
]

pub record FaultDetailRaw : Type 0 where
  pub snapshot : Option DtcRecordRegion
  pub extended_data : Option DtcRecordRegion
  pub severity : Option DtcSeverity

module _ {Io S : Type 0} (session : Seam Io S) where
  unfoldable pub request : ℕ → List ℕ → ClientM Io S (List ℕ)
  request target payload s = session.request s target payload

  -- `enter_session` of crates/client/src/session.rs.
  unfoldable pub enter_session : ℕ → ℕ → ClientM Io S (Unit {0})
  enter_session target kind = do
    response ← request target (Service.diagnostic_session_control kind)
    pure tt

  unfoldable pub read_dtcs : ℕ → ℕ → ClientM Io S (List Dtc)
  read_dtcs target mask = do
    response ← request target (Service.read_dtc_by_status_mask mask)
    decoded (decode_dtcs response)

  unfoldable pub read_all_dtcs : ℕ → ClientM Io S (List Dtc)
  unfolding read_dtcs
  read_all_dtcs target = read_dtcs target all_dtc_status_mask

  -- A negative response is the absence of a record.
  unfoldable pub request_optional : ℕ → List ℕ → ClientM Io S (Option (List ℕ))
  request_optional target payload s =
      let answer = session.request s target payload in
      elim answer.0 [
        | ok response ↦ (ok (some response), answer.1)
        | err e ↦ elim e [ negative sid nrc ↦ (ok none, answer.1) | other ↦ (err other, answer.1) ]
        | panic ↦ (panic, answer.1)
      ]

  unfoldable pub read_info_memory : ℕ → ClientM Io S (Option InfoMemory)
  read_info_memory target = do
    response ← request_optional target (Service.read_data_by_identifier 0x2000)
    decoded (no_record response decode_info_memory)

  unfoldable pub read_fault_detail : ℕ → Code → ClientM Io S FaultDetailRaw
  read_fault_detail target dtc = do
    first ← request_optional target (Service.read_dtc_snapshot_by_dtc dtc all_dtc_records)
    snapshot ← decoded (no_record first decode_dtc_snapshot)
    second ← request_optional target (Service.read_dtc_extended_data_by_dtc dtc all_dtc_records)
    extended_data ← decoded (no_record second decode_dtc_extended_data)
    third ← request_optional target (Service.read_dtc_severity_by_dtc dtc)
    severity ← decoded (no_record third decode_dtc_severity)
    pure record { snapshot = snapshot; extended_data = extended_data; severity = severity }

  unfoldable pub read_did : ℕ → ℕ → ClientM Io S (ℕ × List ℕ)
  read_did target did = do
    response ← request target (Service.read_data_by_identifier did)
    record_of ← decoded (decode_read_data_by_identifier response)
    if record_of.0 == did then pure record_of else lift (err (unexpected_did did record_of.0))

  unfoldable pub read_ecu_list : ClientM Io S EcuList
  unfolding read_did
  read_ecu_list = do record_of ← read_did zgw_address 0x3f07; decoded (decode_ecu_list record_of.1)

  abbrev responding : Option (List ℕ) → ClientM Io S (Option EcuList)
  responding none = pure none
  responding (some response) = do
    record_of ← decoded (decode_read_data_by_identifier response)
    list ← decoded (decode_ecu_list record_of.1)
    pure (some list)

  unfoldable pub read_responding_ecu_list : ClientM Io S (Option EcuList)
  read_responding_ecu_list = do
    response ← request_optional zgw_address (Service.read_data_by_identifier 0x3f08)
    responding response

  -- A request in an extended session.
  unfoldable pub extended_request : ℕ → List ℕ → ClientM Io S (List ℕ)
  extended_request target payload = do
    entered ← enter_session target extended
    request target payload

  unfoldable pub clear_dtcs : ℕ → Code → ClientM Io S (Unit {0})
  clear_dtcs target dtc = do
    response ← extended_request target (Service.clear_diagnostic_information dtc)
    pure tt

  unfoldable pub clear_all_dtcs : ℕ → ClientM Io S (Unit {0})
  unfolding clear_dtcs
  clear_all_dtcs target = clear_dtcs target (0xff, 0xff, 0xff)

  unfoldable pub ecu_reset : ℕ → ℕ → ClientM Io S (Unit {0})
  ecu_reset target subfunction = do
    response ← extended_request target (Service.ecu_reset subfunction)
    pure tt

  unfoldable pub tester_present : ℕ → ClientM Io S (Unit {0})
  tester_present target = do response ← request target Service.tester_present; pure tt

  unfoldable pub run_service_reset : ℕ → List ℕ → ClientM Io S (List ℕ)
  run_service_reset target payload = extended_request target payload

  unfoldable pub reset_cbs : ℕ → List ℕ → List ℕ → ClientM Io S (List ℕ)
  reset_cbs target reset_request read_back_request = do
    written ← extended_request target reset_request
    response ← request target read_back_request
    record_of ← decoded (decode_read_data_by_identifier response)
    pure record_of.1

  -- The test of one answer of `read_dynamic_measurement`: the value that a `0x22` request reads.
  unfoldable pub measured : List ℕ → List ℕ → Option (List ℕ) → ClientM Io S (Option (List ℕ))
  measured sent response value =
      let read : ClientM Io S (Option (List ℕ)) = do
        record_of ← decoded (decode_read_data_by_identifier response)
        hi ← lift (index sent 1)
        lo ← lift (index sent 2)
        if record_of.0 == from_be_bytes hi lo
            then pure (some record_of.1)
            else lift (err (unexpected_did (from_be_bytes hi lo) record_of.0))
      in if is_byte (get_elem? sent 0) Sid.read_data_by_identifier then read else pure value

  unfoldable pub measure : ℕ → List (List ℕ) → Option (List ℕ) → ClientM Io S (Option (List ℕ))
  measure target [] value = pure value
  measure target (sent ∷ requests) value = do
    response ← request target sent
    next ← measured sent response value
    measure target requests next

  unfoldable pub read_dynamic_measurement : ℕ → List (List ℕ) → ClientM Io S (List ℕ)
  unfolding measure
  read_dynamic_measurement target requests = do
    value ← measure target requests none
    lift (ok_or value no_measurement_read)
