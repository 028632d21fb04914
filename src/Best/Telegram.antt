-- ===== src/Best/Telegram.antt =====
-- crates/best/src/telegram.rs: the BMW-FAST telegram codec. A byte slice is a list of numbers, and
-- a vector that the source fills by `push` is built by `++`. `encode` is that of a release build:
-- its `debug_assert!` on the payload's length is a condition of the theorems.
pub mod RoundTrip
pub mod Safety
use klartext.Prelude.{
  ℕ, ◌+◌, ◌-◌, ◌*◌, ◌/◌, ◌%◌, ◌^◌, bit_and, bit_or, Bool, List, [], ◌∷◌, ◌++◌, Option, none, some,
  length, get_elem?, foldl, ltb, leb, ◌==◌, if◌then◌else◌, Result, ok, err, panic, ◌>>=◌, ok_or,
  index, slice,
}

pub record Telegram : Type 0 where
  pub target : ℕ
  pub source : ℕ
  pub uds : List ℕ

pub data TelegramError : Type 0 where
  too_short : TelegramError
  bad_length : (declared actual : ℕ) → TelegramError
  bad_checksum : (expected found : ℕ) → TelegramError

-- `sum.wrapping_add(b)`, folded from zero.
unfoldable pub checksum : List ℕ → ℕ
checksum bytes = foldl (λ sum b. (sum + b) % 256) 0 bytes

-- The bytes that `encode` pushes before the payload: one branch for each form.
unfoldable pub header : ℕ → ℕ → ℕ → List ℕ
header target source len =
    if leb len 0x3f
    then bit_or 0x80 (bit_and len 0x3f % 256) ∷ target ∷ source ∷ []
    else if leb len 0xff
    then 0x80 ∷ target ∷ source ∷ bit_and len 0xff % 256 ∷ []
    else 0x80 ∷ target ∷ source ∷ 0 ∷ bit_and (len / 2 ^ 8) 0xff % 256 ∷ bit_and len 0xff % 256 ∷ []

unfoldable pub encode : ℕ → ℕ → List ℕ → List ℕ
encode target source uds =
    let frame = header target source (length uds) ++ uds in frame ++ (checksum frame ∷ [])

-- The two long forms, once the length byte at index 3 is read.
unfoldable pub long_header : List ℕ → ℕ → Result TelegramError (ℕ × ℕ)
long_header frame len_byte =
    let wide : Result TelegramError (ℕ × ℕ) = do
      hi ← ok_or (get_elem? frame 4) too_short
      lo ← ok_or (get_elem? frame 5) too_short
      ok (6, hi * 2 ^ 8 + lo + 6)
    in if len_byte == 0 then wide else ok (4, len_byte + 4)

unfoldable pub header_and_length : List ℕ → Result TelegramError (ℕ × ℕ)
unfolding long_header
header_and_length frame = do
  fmt ← ok_or (get_elem? frame 0) too_short
  let short_len = bit_and fmt 0x3f
  let long = ok_or (get_elem? frame 3) too_short >>= long_header frame
  if short_len == 0 then long else ok (3, short_len + 3)

unfoldable pub decode : List ℕ → Result TelegramError Telegram
decode frame = do
  (data_offset, tel_length) ← header_and_length frame
  let full_len = tel_length + 1
  let checked : Result TelegramError Telegram = do
    body ← slice frame 0 tel_length
    let expected = checksum body
    found ← index frame tel_length
    let parsed : Result TelegramError Telegram = do
      target ← index frame 1
      source ← index frame 2
      uds ← slice frame data_offset tel_length
      ok (record { target = target; source = source; uds = uds })
    if expected == found then parsed else err (bad_checksum expected found)
  if ltb (length frame) full_len then err (bad_length full_len (length frame)) else checked

unfoldable pub decode_request : List ℕ → Result TelegramError Telegram
decode_request frame = do
  (data_offset, tel_length) ← header_and_length frame
  let parsed : Result TelegramError Telegram = do
    target ← index frame 1
    source ← index frame 2
    uds ← slice frame data_offset tel_length
    ok (record { target = target; source = source; uds = uds })
  if ltb (length frame) tel_length then err (bad_length tel_length (length frame)) else parsed

-- `header_and_length(frame).ok()?`; it indexes nothing, so it has no `panic` to pass on.
unfoldable pub peek_sid : List ℕ → Option ℕ
peek_sid frame = elim (header_and_length frame) [
  | ok (data_offset, tel_length) ↦ get_elem? frame data_offset
  | err e ↦ none
  | panic ↦ none
]
