-- ===== src/Uds/Response.antt =====
-- crates/uds/src/lib.rs: the errors of the decoders; crates/uds/src/dtc.rs: `expect_positive`;
-- crates/uds/src/identity.rs: the gateway's list of ECUs.
use klartext.Prelude.{
  ℕ, List, [], ◌∷◌, length, ◌==◌, if◌then◌else◌, Result, ok, err, ◌>>=◌, ok_or, index, slice,
  get_range?, from_be_bytes,
}

pub data UdsError : Type 0 where
  empty : UdsError
  unexpected_response : (expected_sid got : ℕ) → UdsError
  unexpected_subfunction : (expected got : ℕ) → UdsError
  short_response : (sid need got : ℕ) → UdsError
  malformed_dtc_records : (len : ℕ) → UdsError

unfoldable pub expect_positive : List ℕ → ℕ → Result UdsError (List ℕ)
expect_positive [] expected_sid = err empty
expect_positive (sid ∷ rest) expected_sid =
    if sid == expected_sid then ok rest else err (unexpected_response expected_sid sid)

pub record EcuList : Type 0 where
  pub count : ℕ
  pub addresses : List ℕ

unfoldable pub decode_ecu_list : List ℕ → Result UdsError EcuList
decode_ecu_list region = do
  count_bytes ← ok_or (get_range? region 0 2) (short_response 0x62 2 (length region))
  hi ← index count_bytes 0
  lo ← index count_bytes 1
  addresses ← slice region 2 (length region)
  ok (record { count = from_be_bytes hi lo; addresses = addresses })
