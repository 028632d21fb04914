-- ===== src/Uds/Dtc/Records.antt =====
-- crates/uds/src/dtc.rs: the lists of four-byte records.
use klartext.Prelude.{
  ℕ, ◌%◌, ◌<◌, ◌≡◌, ◌↔◌, refl, ap, ◌∙◌, List, [], ◌∷◌, ◌++◌, append-nil, some, length, ◌==◌,
  if◌then◌else◌, ok, err, index, get_from?, get_from?-two, get_from?-one, arith,
}
use klartext.Uds.Response.{
  unexpected_response, unexpected_subfunction, malformed_dtc_records, expect_positive,
}
use klartext.Uds.Dtc.{Dtc, dtc_chunks, decode_dtcs, decode_info_memory}

-- The records as bytes: the code, high byte first, and the status.
abbrev pub dtc_bytes : List Dtc → List ℕ
dtc_bytes [] = []
dtc_bytes (d ∷ ds) = d.code.0 ∷ d.code.1 ∷ d.code.2 ∷ d.status ∷ dtc_bytes ds

length-dtc_bytes : (ds : List Dtc) → length (dtc_bytes ds) % 4 ≡ 0
length-dtc_bytes [] = refl
length-dtc_bytes (d ∷ ds) = omega (arith, length-dtc_bytes ds)

-- The records are cut back out of their bytes, and fewer than four bytes behind them are dropped.
dtc_chunks-dtc_bytes :
    (ds : List Dtc) (rest : List ℕ) → length rest < 4 → dtc_chunks (dtc_bytes ds ++ rest) ≡ ds
unfolding dtc_chunks
dtc_chunks-dtc_bytes [] [] h = refl
dtc_chunks-dtc_bytes [] (a ∷ []) h = refl
dtc_chunks-dtc_bytes [] (a ∷ b ∷ []) h = refl
dtc_chunks-dtc_bytes [] (a ∷ b ∷ c ∷ []) h = refl
dtc_chunks-dtc_bytes [] (a ∷ b ∷ c ∷ d ∷ rest) h = absurd (omega arith)
dtc_chunks-dtc_bytes (d ∷ ds) rest h = ap (λ t. d ∷ t) (dtc_chunks-dtc_bytes ds rest h)

dtc_bytes-dtc_chunks : (xs : List ℕ) → length xs % 4 ≡ 0 → dtc_bytes (dtc_chunks xs) ≡ xs
unfolding dtc_chunks
dtc_bytes-dtc_chunks [] h = refl
dtc_bytes-dtc_chunks (a ∷ []) h = absurd (omega arith)
dtc_bytes-dtc_chunks (a ∷ b ∷ []) h = absurd (omega arith)
dtc_bytes-dtc_chunks (a ∷ b ∷ c ∷ []) h = absurd (omega arith)
dtc_bytes-dtc_chunks (a ∷ b ∷ c ∷ d ∷ rest) h =
    ap (λ t. a ∷ b ∷ c ∷ d ∷ t) (dtc_bytes-dtc_chunks rest (omega arith))

-- What `decode_dtcs` answers to a payload that has its header.
pub decode_dtcs-header :
    (s t mask : ℕ) (records : List ℕ)
    → decode_dtcs (s ∷ t ∷ mask ∷ records) ≡ (
        if s == 0x59
        then (if t == 0x02
            then (if length records % 4 == 0
                then ok (dtc_chunks records)
                else err (malformed_dtc_records (length records)))
            else err (unexpected_subfunction 0x02 t))
        else err (unexpected_response 0x59 s))
unfolding decode_dtcs expect_positive index
decode_dtcs-header s t mask records = ground (arith, get_from?-two t mask records)

decode_dtcs-dtc_bytes :
    (mask : ℕ) (ds : List Dtc) → decode_dtcs (0x59 ∷ 0x02 ∷ mask ∷ dtc_bytes ds) ≡ ok ds
decode_dtcs-dtc_bytes mask ds =
    decode_dtcs-header 0x59 0x02 mask (dtc_bytes ds)
    ∙ rw (length-dtc_bytes ds) (ap ok (rw append-nil at (dtc_chunks-dtc_bytes ds [] (omega arith))))

decode_dtcs-ok :
    (payload : List ℕ) (ds : List Dtc)
    → decode_dtcs payload ≡ ok ds
    → (mask : ℕ) × (payload ≡ 0x59 ∷ 0x02 ∷ mask ∷ dtc_bytes ds)
unfolding decode_dtcs expect_positive get_from? index
decode_dtcs-ok [] ds e = cc
decode_dtcs-ok (s ∷ []) ds e = ground arith
decode_dtcs-ok (s ∷ t ∷ []) ds e = ground arith
decode_dtcs-ok (s ∷ t ∷ mask ∷ records) ds e =
    (mask, ground (arith, decode_dtcs-header s t mask records, dtc_bytes-dtc_chunks records))

-- `decode_dtcs` accepts exactly the answers `59 02 mask` with whole records behind, and returns
-- those records.
pub decode_dtcs_iff :
    (payload : List ℕ) (ds : List Dtc)
    → (decode_dtcs payload ≡ ok ds) ↔ ((mask : ℕ) × (payload ≡ 0x59 ∷ 0x02 ∷ mask ∷ dtc_bytes ds))
decode_dtcs_iff payload ds =
    (decode_dtcs-ok payload ds, λ m. ap decode_dtcs m.1 ∙ decode_dtcs-dtc_bytes m.0 ds)

-- The info memory of an answer `62 hi lo version` with whole records behind and fewer than four
-- bytes at the end: the version, every whole record, and all bytes behind the echo.
pub decode_info_memory-dtc_bytes :
    (hi lo version : ℕ) (ds : List Dtc) (partial : List ℕ)
    → length partial < 4
    → decode_info_memory (0x62 ∷ hi ∷ lo ∷ version ∷ (dtc_bytes ds ++ partial))
      ≡ ok (record {
        version = some version;
        entries = ds;
        raw = version ∷ (dtc_bytes ds ++ partial);
      })
unfolding decode_info_memory expect_positive
decode_info_memory-dtc_bytes hi lo version ds partial h = rw (
  get_from?-two hi lo (version ∷ (dtc_bytes ds ++ partial)),
  get_from?-one version (dtc_bytes ds ++ partial),
  dtc_chunks-dtc_bytes ds partial h,
)
