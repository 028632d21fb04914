-- ===== src/Examples/Answers.antt =====
-- crates/uds: answers byte by byte.
use klartext.Prelude.{ℕ, ◌≡◌, ◌↔◌, refl, [], ◌∷◌, get_from?, index, ok, err}
use klartext.Uds.Response.{expect_positive, malformed_dtc_records}
use klartext.Uds.Dtc.{Dtc, dtc_chunks, decode_dtcs}
use klartext.Uds.Dtc.Records.{dtc_bytes, decode_dtcs_iff}

abbrev fault : Dtc
fault = record { code = (0x48, 0x2a, 0xbc); status = 0x2c }

decode_dtcs_run :
    decode_dtcs (0x59 ∷ 0x02 ∷ 0xff ∷ 0x48 ∷ 0x2a ∷ 0xbc ∷ 0x2c ∷ []) ≡ ok (fault ∷ [])
unfolding decode_dtcs expect_positive get_from? index dtc_chunks
decode_dtcs_run = refl

decode_dtcs_partial :
    decode_dtcs (0x59 ∷ 0x02 ∷ 0xff ∷ 0x48 ∷ 0x2a ∷ []) ≡ err (malformed_dtc_records 2)
unfolding decode_dtcs expect_positive get_from? index dtc_chunks
decode_dtcs_partial = refl

decode_dtcs_iff_example :
    (decode_dtcs (0x59 ∷ 0x02 ∷ 0xff ∷ 0x48 ∷ 0x2a ∷ 0xbc ∷ 0x2c ∷ []) ≡ ok (fault ∷ [])) ↔ (
      (mask : ℕ) × (0x59 ∷ 0x02 ∷ 0xff ∷ 0x48 ∷ 0x2a ∷ 0xbc ∷ 0x2c ∷ []
        ≡ 0x59 ∷ 0x02 ∷ mask ∷ dtc_bytes (fault ∷ [])))
decode_dtcs_iff_example =
    decode_dtcs_iff (0x59 ∷ 0x02 ∷ 0xff ∷ 0x48 ∷ 0x2a ∷ 0xbc ∷ 0x2c ∷ []) (fault ∷ [])
