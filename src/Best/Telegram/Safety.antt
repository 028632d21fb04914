-- ===== src/Best/Telegram/Safety.antt =====
-- crates/best/src/telegram.rs on any input, well formed or not: no index out of bounds, and one
-- service byte for the peek and the decoders.
use klartext.Prelude.{
  bit_and, ◌⊎◌, ℕ, ◌+◌, ◌-◌, ◌≤◌, ◌<◌, ◌≡◌, ◌≢◌, sym, ◌∙◌, Bool, true, false, List, [], ◌∷◌, some,
  length, get_elem?, take, drop, get_elem?-some, get_elem?-drop, ltb, ltb→lt, ◌==◌, if◌then◌else◌,
  ok, err, panic, index, slice, slice-ok, slice_front, index-ok, arith, inl, inr, Bool-cases,
  Result-cases,
}
use klartext.Best.Telegram.{
  Telegram, TelegramError, bad_length, bad_checksum, checksum, long_header, header_and_length,
  decode, decode_request, peek_sid,
}

-- The payload starts behind the addresses and not behind the telegram's end.
header_and_length_bounds :
    (frame : List ℕ) (off len : ℕ)
    → header_and_length frame ≡ ok (off, len)
    → (3 ≤ off) × (off ≤ len) × (4 ≤ len)
unfolding header_and_length long_header
header_and_length_bounds frame off len e = ground arith

header_and_length-ne-panic : (frame : List ℕ) → header_and_length frame ≢ panic
unfolding header_and_length long_header
header_and_length-ne-panic frame e = ground arith

-- What `decode_request` answers once the header is read.
decode_request-header :
    (frame : List ℕ) (off len : ℕ)
    → header_and_length frame ≡ ok (off, len)
    → (length frame < len) × (decode_request frame ≡ err (bad_length len (length frame)))
      ⊎ ((t : ℕ) × (s : ℕ) × (get_elem? frame 1 ≡ some t)
          × (get_elem? frame 2 ≡ some s)
          × (len ≤ length frame)
          × (decode_request frame
              ≡ ok (record { target = t; source = s; uds = take (len - off) (drop off frame) })))
unfolding decode_request
decode_request-header frame off len e = elim (Bool-cases (ltb (length frame) len)) [
  | inl short ↦ inl (ltb→lt _ _ short, rw (e, short))
  | inr fits ↦
      let (h₁, h₂, h₃) = header_and_length_bounds frame off len e in
      let (t, e₁) = get_elem?-some frame 1 (ground arith) in
      let (s, e₂) = get_elem?-some frame 2 (ground arith) in
      inr (
        t,
        s,
        e₁,
        e₂,
        ground arith,
        rw (
          e,
          fits,
          index-ok frame 1 e₁,
          index-ok frame 2 e₂,
          slice-ok frame off len h₂ (ground arith),
        ),
      )
]

-- What `decode` answers once the header is read.
decode-header :
    (frame : List ℕ) (off len : ℕ)
    → header_and_length frame ≡ ok (off, len)
    → (length frame < len + 1) × (decode frame ≡ err (bad_length (len + 1) (length frame)))
      ⊎ ((t s c : ℕ) × (get_elem? frame 1 ≡ some t)
          × (get_elem? frame 2 ≡ some s)
          × (len < length frame)
          × (decode frame ≡ (
              if checksum (take len frame) == c
              then ok (record { target = t; source = s; uds = take (len - off) (drop off frame) })
              else err (bad_checksum (checksum (take len frame)) c))))
unfolding decode
decode-header frame off len e = elim (Bool-cases (ltb (length frame) (len + 1))) [
  | inl short ↦ inl (ltb→lt _ _ short, rw (e, short))
  | inr fits ↦
      let (h₁, h₂, h₃) = header_and_length_bounds frame off len e in
      let (t, e₁) = get_elem?-some frame 1 (ground arith) in
      let (s, e₂) = get_elem?-some frame 2 (ground arith) in
      let (c, e₃) = get_elem?-some frame len (ground arith) in
      inr (
        t,
        s,
        c,
        e₁,
        e₂,
        ground arith,
        rw (
          e,
          fits,
          slice_front frame len (ground arith),
          index-ok frame len e₃,
          index-ok frame 1 e₁,
          index-ok frame 2 e₂,
          slice-ok frame off len h₂ (ground arith),
        ),
      )
]

-- A header that cannot be read is the answer of both decoders.
decoders-err :
    (frame : List ℕ) (x : TelegramError)
    → header_and_length frame ≡ err x
    → (decode frame ≡ err x) × (decode_request frame ≡ err x)
unfolding decode decode_request
decoders-err frame x e = (rw e, rw e)

if_ok_err-ne-panic :
    (b : Bool) (tel : Telegram) (x : TelegramError) → (if b then ok tel else err x) ≢ panic
if_ok_err-ne-panic true tel x p = cc
if_ok_err-ne-panic false tel x p = cc

decode-ne-panic : (frame : List ℕ) → decode frame ≢ panic
decode-ne-panic frame p = elim (Result-cases (header_and_length frame)) [
  | inl ((off, len), e) ↦ elim (decode-header frame off len e) [
    | inl (_, r) ↦ cc
    | inr (t, s, c, _, _, _, r) ↦ if_ok_err-ne-panic _ _ _ (sym r ∙ p)
  ]
  | inr (inl (x, e)) ↦ cc ((decoders-err frame x e).0)
  | inr (inr e) ↦ header_and_length-ne-panic frame e
]

pub decode_request-ne-panic : (frame : List ℕ) → decode_request frame ≢ panic
decode_request-ne-panic frame p = elim (Result-cases (header_and_length frame)) [
  | inl ((off, len), e) ↦ elim (decode_request-header frame off len e) [
    | inl (_, r) ↦ cc
    | inr (t, s, _, _, _, r) ↦ cc
  ]
  | inr (inl (x, e)) ↦ cc ((decoders-err frame x e).1)
  | inr (inr e) ↦ header_and_length-ne-panic frame e
]

-- No index or range out of bounds is reached: on every input both decoders return a result.
pub decoders-ne-panic : (frame : List ℕ) → (decode frame ≢ panic) × (decode_request frame ≢ panic)
decoders-ne-panic frame = (decode-ne-panic frame, decode_request-ne-panic frame)

-- The header behind a telegram that `decode_request` accepts.
decode_request-ok :
    (frame : List ℕ) (tel : Telegram)
    → decode_request frame ≡ ok tel
    → (off : ℕ) × (len : ℕ) × (header_and_length frame ≡ ok (off, len))
      × (len ≤ length frame)
      × (tel.uds ≡ take (len - off) (drop off frame))
      × (get_elem? frame 1 ≡ some tel.target)
decode_request-ok frame tel q = elim (Result-cases (header_and_length frame)) [
  | inl ((off, len), e) ↦ elim (decode_request-header frame off len e) [
    | inl (_, r) ↦ cc
    | inr (t, s, e₁, e₂, fits, r) ↦ (off, len, e, fits, cc, cc)
  ]
  | inr (inl (x, e)) ↦ cc ((decoders-err frame x e).1)
  | inr (inr e) ↦ absurd (header_and_length-ne-panic frame e)
]

-- The byte that `peek_sid` shows is the first byte of the payload that `decode_request` extracts,
-- whenever that payload has a byte.
pub peek_sid-decode_request :
    (frame : List ℕ) (tel : Telegram) (sid : ℕ) (rest : List ℕ)
    → decode_request frame ≡ ok tel
    → tel.uds ≡ sid ∷ rest
    → peek_sid frame ≡ some sid
unfolding peek_sid
peek_sid-decode_request frame tel sid rest q u =
    let (off, len, e, fits, v, _) = decode_request-ok frame tel q in
    rw (e, peek_sid) (get_elem?-drop frame off (len - off) (sym v ∙ u))

-- What the strict decoder accepts, the lenient one accepts with the same result.
pub decode_request-decode :
    (frame : List ℕ) (tel : Telegram) → decode frame ≡ ok tel → decode_request frame ≡ ok tel
decode_request-decode frame tel q = elim (Result-cases (header_and_length frame)) [
  | inl ((off, len), e) ↦ elim (decode-header frame off len e) [
    | inl (_, r) ↦ cc
    | inr (t, s, c, e₁, e₂, fits, r) ↦ elim (decode_request-header frame off len e) [
      | inl (short, _) ↦ absurd (omega arith)
      | inr (t', s', d₁, d₂, _, r') ↦ r' ∙ ground arith
    ]
  ]
  | inr (inl (x, e)) ↦ cc ((decoders-err frame x e).0)
  | inr (inr e) ↦ absurd (header_and_length-ne-panic frame e)
]

-- A telegram whose two length bytes are zero, with at least one byte behind them: the payload
-- that `decode_request` extracts is empty, and `peek_sid` shows the byte behind the telegram.
pub peek_sid_beyond :
    (fmt target source sid : ℕ) (rest : List ℕ)
    → bit_and fmt 0x3f ≡ 0
    → let frame = fmt ∷ target ∷ source ∷ 0 ∷ 0 ∷ 0 ∷ sid ∷ rest in
      (decode_request frame ≡ ok (record { target = target; source = source; uds = [] }))
      × (peek_sid frame ≡ some sid)
unfolding decode_request peek_sid header_and_length long_header index slice
peek_sid_beyond fmt target source sid rest h = (rw h (ground arith), rw (h, peek_sid))
