-- ===== src/Examples/Telegrams.antt =====
-- crates/best/src/telegram.rs: telegrams byte by byte.
use klartext.Prelude.{
  ℕ, ◌≡◌, ◌≢◌, refl, List, [], ◌∷◌, ◌++◌, some, length, set, index, slice, arith, ok, err, panic,
}
use klartext.Best.Telegram.{
  Telegram, TelegramError, bad_checksum, bad_length, checksum, header, header_and_length,
  long_header, encode, decode, decode_request, peek_sid,
}
use klartext.Best.Telegram.RoundTrip.{decode-encode, encode_empty, decode-set}
use klartext.Best.Telegram.Safety.{decoders-ne-panic, peek_sid-decode_request, peek_sid_beyond}

abbrev read_vin : Telegram
read_vin = record { target = 0x12; source = 0xf1; uds = 0x22 ∷ 0xf1 ∷ 0x90 ∷ [] }

abbrev vin_frame : List ℕ
vin_frame = 0x83 ∷ 0x12 ∷ 0xf1 ∷ 0x22 ∷ 0xf1 ∷ 0x90 ∷ 0x29 ∷ []

encode_run : encode 0x12 0xf1 (0x22 ∷ 0xf1 ∷ 0x90 ∷ []) ≡ vin_frame
unfolding encode header checksum
encode_run = refl

decode_run : decode vin_frame ≡ ok read_vin
unfolding decode header_and_length long_header checksum index slice
decode_run = refl

decode_cut : decode (0x83 ∷ 0x12 ∷ 0xf1 ∷ 0x22 ∷ []) ≡ err (bad_length 7 4)
unfolding decode header_and_length long_header checksum index slice
decode_cut = refl

decode-encode_example : decode (encode 0x12 0xf1 (0x22 ∷ 0xf1 ∷ 0x90 ∷ [])) ≡ ok read_vin
decode-encode_example =
    decode-encode 0x12 0xf1 (0x22 ∷ 0xf1 ∷ 0x90 ∷ []) (omega arith) (omega arith)

encode_empty_example : (e : TelegramError) × (decode (encode 0x12 0xf1 []) ≡ err e)
encode_empty_example = encode_empty 0x12 0xf1

decode-set_example :
    (expected : ℕ) × (decode (
        set
          (encode 0x12 0xf1 (0x22 ∷ 0xf1 ∷ 0x90 ∷ []))
          (length (header 0x12 0xf1 3 ++ 0x22 ∷ []))
          0xf2)
      ≡ err (bad_checksum expected (checksum (header 0x12 0xf1 3 ++ 0x22 ∷ 0xf1 ∷ 0x90 ∷ []))))
decode-set_example =
    decode-set 0x12 0xf1 0xf1 0xf2 (0x22 ∷ []) (0x90 ∷ []) (omega arith) (omega arith) (omega arith)
      (omega arith)

decoders-ne-panic_example :
    (decode (0x80 ∷ 0x12 ∷ []) ≢ panic) × (decode_request (0x80 ∷ 0x12 ∷ []) ≢ panic)
decoders-ne-panic_example = decoders-ne-panic (0x80 ∷ 0x12 ∷ [])

asked : decode_request vin_frame ≡ ok read_vin
unfolding decode_request header_and_length index slice
asked = refl

peek_sid-decode_request_example : peek_sid vin_frame ≡ some 0x22
peek_sid-decode_request_example =
    peek_sid-decode_request vin_frame read_vin 0x22 (0xf1 ∷ 0x90 ∷ []) asked refl

peek_sid_beyond_example :
    (decode_request (0x80 ∷ 0x12 ∷ 0xf1 ∷ 0 ∷ 0 ∷ 0 ∷ 0x3e ∷ [])
      ≡ ok (record { target = 0x12; source = 0xf1; uds = [] }))
    × (peek_sid (0x80 ∷ 0x12 ∷ 0xf1 ∷ 0 ∷ 0 ∷ 0 ∷ 0x3e ∷ []) ≡ some 0x3e)
peek_sid_beyond_example = peek_sid_beyond 0x80 0x12 0xf1 0x3e [] refl
