-- ===== src/Hsfz/Frame/Accepts.antt =====
-- crates/hsfz/src/frame.rs: the frames that `decode` accepts, and its bounds.
use klartext.Prelude.{
  ℕ, ◌%◌, ◌^◌, ◌≤◌, ◌<◌, ◌≡◌, ◌≢◌, ap, sym, ◌∙◌, inl, inr, Bool-cases, List, [], ◌∷◌, ◌++◌,
  append-nil, length, length-take, take, drop, drop_all, take-append-drop, ltb, lt→ltb, ok, err,
  panic, index, slice_suffix, to_be_bytes, to_be_bytes32, from_be_bytes, from_be_bytes32, IsByte,
  All, arith,
}
use klartext.Hsfz.Frame.{
  Error, truncated, header_len, max_frame_len, HsfzFrame, control_has_addrs, encode, decode_body,
  decode,
}
use klartext.Hsfz.Frame.RoundTrip.{has_addr, body_of, IsWire, decode_tail, decode-header}

decode_short :
    {Io : Type 0} (buf : List ℕ)
    → length buf < 6
    → decode {Io = Io} buf ≡ err (truncated (length buf) header_len)
unfolding decode
decode_short buf h = rw (lt→ltb (length buf) header_len h)

decode_tail-ok :
    {Io : Type 0} (c n : ℕ) (tail : List ℕ) (f : HsfzFrame)
    → decode_tail {Io = Io} c n tail ≡ ok f
    → (n ≤ max_frame_len) × (n ≤ length tail) × (decode_body {Io = Io} c n (take n tail) ≡ ok f)
unfolding decode_tail
decode_tail-ok c n tail f e = ground arith

decode_body-ok :
    {Io : Type 0} (c : ℕ) (body : List ℕ) (f : HsfzFrame)
    → decode_body {Io = Io} c (length body) body ≡ ok f
    → (c ≡ f.control) × (body ≡ body_of f) × (control_has_addrs c (length body) ≡ has_addr f.addr)
unfolding decode_body index
decode_body-ok c [] f e = ground arith
decode_body-ok c (x ∷ []) f e = ground arith
decode_body-ok {Io} c (x ∷ y ∷ payload) f e =
    ground (arith, slice_suffix {E = Error Io} (x ∷ y ∷ []) payload)

-- The six header bytes written for a control word and a length are the bytes they were read from.
header_bytes :
    (b0 b1 b2 b3 c0 c1 : ℕ) (c n : ℕ)
    → IsByte b0
    → IsByte b1
    → IsByte b2
    → IsByte b3
    → IsByte c0
    → IsByte c1
    → c ≡ from_be_bytes c0 c1
    → n ≡ from_be_bytes32 b0 b1 b2 b3
    → to_be_bytes32 (n % 2 ^ 32) ++ to_be_bytes c ≡ b0 ∷ b1 ∷ b2 ∷ b3 ∷ c0 ∷ c1 ∷ []
header_bytes b0 b1 b2 b3 c0 c1 c n h0 h1 h2 h3 h4 h5 e₁ e₂ = ground arith

encode-header :
    {Io : Type 0} (b0 b1 b2 b3 c0 c1 : ℕ) (tail : List ℕ) (f : HsfzFrame)
    → All IsByte (b0 ∷ b1 ∷ b2 ∷ b3 ∷ c0 ∷ c1 ∷ tail)
    → decode_tail {Io = Io} (from_be_bytes c0 c1) (from_be_bytes32 b0 b1 b2 b3) tail ≡ ok f
    → IsWire f
      × (length (body_of f) ≡ from_be_bytes32 b0 b1 b2 b3)
      × (b0 ∷ b1 ∷ b2 ∷ b3 ∷ c0 ∷ c1 ∷ tail ≡ encode f ++ drop (length (body_of f)) tail)
unfolding encode
encode-header {Io} b0 b1 b2 b3 c0 c1 tail f (h0, (h1, (h2, (h3, (h4, (h5, _)))))) e = (
  record {
    control_fits = omega (arith, control);
    body_fits = omega (arith, len, parts.0);
    addr_fits = addrs;
  },
  len,
  ap (λ h. h ++ tail) (sym written) ∙ ap (λ t. encoded_header ++ t) split,
)
  where
    n : ℕ
    n = from_be_bytes32 b0 b1 b2 b3

    parts :
        (n ≤ max_frame_len)
        × (n ≤ length tail)
        × (decode_body {Io = Io} (from_be_bytes c0 c1) n (take n tail) ≡ ok f)
    parts = decode_tail-ok (from_be_bytes c0 c1) n tail f e

    taken : length (take n tail) ≡ n
    taken = length-take n tail parts.1

    body :
        (from_be_bytes c0 c1 ≡ f.control)
        × (take n tail ≡ body_of f)
        × (control_has_addrs (from_be_bytes c0 c1) (length (take n tail)) ≡ has_addr f.addr)
    body = decode_body-ok {Io = Io} (from_be_bytes c0 c1) (take n tail) f (rw taken (parts.2))

    control : from_be_bytes c0 c1 ≡ f.control
    control = body.0

    len : length (body_of f) ≡ n
    len = ap length (sym body.1) ∙ taken

    addrs : control_has_addrs f.control (length (body_of f)) ≡ has_addr f.addr
    addrs = rw (← body.0, ← body.1) body.2

    encoded_header : List ℕ
    encoded_header = to_be_bytes32 (length (body_of f) % 2 ^ 32) ++ to_be_bytes f.control

    written : encoded_header ≡ b0 ∷ b1 ∷ b2 ∷ b3 ∷ c0 ∷ c1 ∷ []
    written =
        header_bytes b0 b1 b2 b3 c0 c1 f.control (length (body_of f)) h0 h1 h2 h3 h4 h5
          (sym control) len

    split : tail ≡ body_of f ++ drop (length (body_of f)) tail
    split = rw len (sym (take-append-drop n tail) ∙ ap (λ t. t ++ drop n tail) body.1)

-- A buffer that holds the accepted frame and no more is what `encode` writes for it.
pub decode_exact :
    {Io : Type 0} (b0 b1 b2 b3 c0 c1 : ℕ) (tail : List ℕ) (f : HsfzFrame)
    → let buf = b0 ∷ b1 ∷ b2 ∷ b3 ∷ c0 ∷ c1 ∷ tail in
      All IsByte buf
      → length tail ≡ from_be_bytes32 b0 b1 b2 b3
      → decode {Io = Io} buf ≡ ok f
      → IsWire f × (buf ≡ encode f)
decode_exact {Io} b0 b1 b2 b3 c0 c1 tail f h n e =
    let (w, len, q) =
      encode-header {Io = Io} b0 b1 b2 b3 c0 c1 tail f h
        (sym (decode-header b0 b1 b2 b3 c0 c1 tail) ∙ e) in
    (
      w,
      q
          ∙ ap (λ t. encode f ++ t) (drop_all (length (body_of f)) tail (omega arith))
          ∙ append-nil (encode f),
    )

-- What `decode` accepts is a frame that the wire can carry, and the buffer is what `encode` writes
-- for it with some bytes behind.
pub encode-decode :
    {Io : Type 0} (buf : List ℕ) (f : HsfzFrame)
    → All IsByte buf
    → decode {Io = Io} buf ≡ ok f
    → IsWire f × ((rest : List ℕ) × (buf ≡ encode f ++ rest))
encode-decode {Io} (b0 ∷ b1 ∷ b2 ∷ b3 ∷ c0 ∷ c1 ∷ tail) f h e =
    let (w, len, q) =
      encode-header {Io = Io} b0 b1 b2 b3 c0 c1 tail f h
        (sym (decode-header b0 b1 b2 b3 c0 c1 tail) ∙ e) in
    (w, (drop (length (body_of f)) tail, q))
encode-decode {Io} [] f h e = cc (decode_short {Io = Io} [] (omega arith))
encode-decode {Io} (a ∷ []) f h e = cc (decode_short {Io = Io} (a ∷ []) (omega arith))
encode-decode {Io} (a ∷ b ∷ []) f h e = cc (decode_short {Io = Io} (a ∷ b ∷ []) (omega arith))
encode-decode {Io} (a ∷ b ∷ c ∷ []) f h e =
    cc (decode_short {Io = Io} (a ∷ b ∷ c ∷ []) (omega arith))
encode-decode {Io} (a ∷ b ∷ c ∷ d ∷ []) f h e =
    cc (decode_short {Io = Io} (a ∷ b ∷ c ∷ d ∷ []) (omega arith))
encode-decode {Io} (a ∷ b ∷ c ∷ d ∷ g ∷ []) f h e =
    cc (decode_short {Io = Io} (a ∷ b ∷ c ∷ d ∷ g ∷ []) (omega arith))

decode_body-ne-panic :
    {Io : Type 0} (c : ℕ) (body : List ℕ) → decode_body {Io = Io} c (length body) body ≢ panic
unfolding decode_body index
decode_body-ne-panic c [] e = ground arith
decode_body-ne-panic c (x ∷ []) e = ground arith
decode_body-ne-panic {Io} c (x ∷ y ∷ payload) e =
    ground (arith, slice_suffix {E = Error Io} (x ∷ y ∷ []) payload)

decode_tail-ne-panic :
    {Io : Type 0} (c n : ℕ) (tail : List ℕ) → decode_tail {Io = Io} c n tail ≢ panic
unfolding decode_tail
decode_tail-ne-panic {Io} c n tail e = elim (Bool-cases (ltb (length tail) n)) [
  | inl short ↦ ground arith
  | inr fits ↦
      let taken : length (take n tail) ≡ n = length-take n tail (ground arith) in
      ground (arith, rw taken at (decode_body-ne-panic {Io = Io} c (take n tail)))
]

-- `decode` never reads out of bounds: on every buffer it returns a frame or an error.
pub decode-ne-panic : {Io : Type 0} (buf : List ℕ) → decode {Io = Io} buf ≢ panic
decode-ne-panic {Io} (b0 ∷ b1 ∷ b2 ∷ b3 ∷ c0 ∷ c1 ∷ tail) e =
    decode_tail-ne-panic {Io = Io} (from_be_bytes c0 c1) (from_be_bytes32 b0 b1 b2 b3) tail
      (sym (decode-header b0 b1 b2 b3 c0 c1 tail) ∙ e)
decode-ne-panic {Io} [] e = cc (decode_short {Io = Io} [] (omega arith))
decode-ne-panic {Io} (a ∷ []) e = cc (decode_short {Io = Io} (a ∷ []) (omega arith))
decode-ne-panic {Io} (a ∷ b ∷ []) e = cc (decode_short {Io = Io} (a ∷ b ∷ []) (omega arith))
decode-ne-panic {Io} (a ∷ b ∷ c ∷ []) e = cc (decode_short {Io = Io} (a ∷ b ∷ c ∷ []) (omega arith))
decode-ne-panic {Io} (a ∷ b ∷ c ∷ d ∷ []) e =
    cc (decode_short {Io = Io} (a ∷ b ∷ c ∷ d ∷ []) (omega arith))
decode-ne-panic {Io} (a ∷ b ∷ c ∷ d ∷ g ∷ []) e =
    cc (decode_short {Io = Io} (a ∷ b ∷ c ∷ d ∷ g ∷ []) (omega arith))
