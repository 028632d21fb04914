-- ===== src/Hsfz/Frame/RoundTrip.antt =====
-- crates/hsfz/src/frame.rs: `decode` undoes `encode` with any bytes behind the frame, and what it
-- accepts is what `encode` writes.
use klartext.Prelude.{
  ℕ, suc, ◌+◌, ◌-◌, ◌/◌, ◌%◌, ◌^◌, ◌≤◌, ◌≡◌, ◌∙◌, inl, inr, Bool, true, false, Bool-cases, List, [],
  ◌∷◌, ◌++◌, Option, none, some, length, length-append, take, take-append, ltb, le→ltb,
  if◌then◌else◌, Result, ok, err, index, slice-ok, slice_suffix, from_be_bytes, from_be_bytes32,
  IsU16, arith,
}
use klartext.Hsfz.Frame.{
  Error, frame_too_large, truncated, header_len, max_frame_len, HsfzFrame, control_has_addrs,
  addr_bytes, encode, decode_body, decode,
}

abbrev pub has_addr : Option (ℕ × ℕ) → Bool
has_addr none = false
has_addr (some a) = true

abbrev pub body_of : HsfzFrame → List ℕ
body_of f = addr_bytes f.addr ++ f.payload

-- A frame that the wire can carry: the control word fits 16 bits, the body fits the cap, and there
-- are addresses exactly when the control word and the body's length call for them.
pub record IsWire (f : HsfzFrame) : Type 0 where
  pub control_fits : IsU16 f.control
  pub body_fits : length (body_of f) ≤ max_frame_len
  pub addr_fits : control_has_addrs f.control (length (body_of f)) ≡ has_addr f.addr

module _ {Io : Type 0} where
  -- `decode` past its header: the body's length is `n` and the control word is `c`.
  unfoldable pub decode_tail : (c n : ℕ) (tail : List ℕ) → Result (Error Io) HsfzFrame
  decode_tail c n tail =
      if ltb max_frame_len n
      then err (frame_too_large n)
      else if ltb (length tail) n
      then err (truncated (header_len + length tail) (header_len + n))
      else decode_body c n (take n tail)

  pub decode-header :
      (b0 b1 b2 b3 c0 c1 : ℕ) (tail : List ℕ)
      → decode {Io = Io} (b0 ∷ b1 ∷ b2 ∷ b3 ∷ c0 ∷ c1 ∷ tail)
        ≡ decode_tail (from_be_bytes c0 c1) (from_be_bytes32 b0 b1 b2 b3) tail
  unfolding decode decode_tail index
  decode-header b0 b1 b2 b3 c0 c1 tail = elim (Bool-cases (ltb (length tail) n)) [
    | inl short ↦ ground arith
    | inr fits ↦
        rw
          (slice-ok (b0 ∷ b1 ∷ b2 ∷ b3 ∷ c0 ∷ c1 ∷ tail) header_len (header_len + n) (omega arith)
            (ground arith))
          (let e : header_len + n - header_len ≡ n = omega arith in rw e (ground arith))
  ]
    where
      n : ℕ
      n = from_be_bytes32 b0 b1 b2 b3

  -- The body of a frame with addresses, and of one without.
  decode_body-addr_bytes :
      (c : ℕ) (addr : Option (ℕ × ℕ)) (payload : List ℕ)
      → let body = addr_bytes addr ++ payload in
        control_has_addrs c (length body) ≡ has_addr addr
        → decode_body {Io = Io} c (length body) body
          ≡ ok (record { control = c; addr = addr; payload = payload })
  unfolding decode_body index
  decode_body-addr_bytes c none payload h = rw h
  decode_body-addr_bytes c (some (src, tgt)) payload h = rw (
    h,
    le→ltb (suc (suc (length payload))) 2 (omega arith),
    slice_suffix (src ∷ tgt ∷ []) payload,
  )

  decode_tail-body :
      (c : ℕ) (body rest : List ℕ)
      → length body ≤ max_frame_len
      → decode_tail c (length body) (body ++ rest) ≡ decode_body {Io = Io} c (length body) body
  unfolding decode_tail
  decode_tail-body c body rest fits = rw (
    le→ltb max_frame_len (length body) fits,
    le→ltb (length (body ++ rest)) (length body) (omega (arith, length-append body rest)),
    take-append,
  )

-- `decode` reads back each frame that the wire can carry from what `encode` wrote, whatever bytes
-- follow it.
pub decode-encode_wire :
    {Io : Type 0} (f : HsfzFrame) (rest : List ℕ)
    → IsWire f
    → decode {Io = Io} (encode f ++ rest) ≡ ok f
unfolding encode
decode-encode_wire f rest w =
    decode-header _ _ _ _ _ _ (body_of f ++ rest)
    ∙ rw (control, len)
        (decode_tail-body f.control (body_of f) rest w.body_fits
          ∙ decode_body-addr_bytes f.control f.addr f.payload w.addr_fits)
  where
    n : ℕ
    n = length (body_of f) % 2 ^ 32

    control : from_be_bytes (f.control / 256 % 256) (f.control % 256) ≡ f.control
    control = omega (arith, w.control_fits)

    len :
        from_be_bytes32 (n / 2 ^ 24 % 256) (n / 2 ^ 16 % 256) (n / 256 % 256) (n % 256)
        ≡ length (body_of f)
    len = omega (arith, w.body_fits)
