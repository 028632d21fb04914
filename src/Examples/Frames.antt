-- ===== src/Examples/Frames.antt =====
-- crates/hsfz: frames byte by byte, over a socket that holds the bytes of a list.
use klartext.Prelude.{
  ap, ℕ, ◌≡◌, refl, sym, Bool-cases, inl, inr, List, [], ◌∷◌, ◌++◌, length, length-take, take, drop,
  take-append-drop, leb, leb→le, le→leb, All, IsByte, if◌then◌else◌, index, slice, arith, ok, err,
}
use klartext.Hsfz.Frame.{
  Error, io, HsfzFrame, diagnostic_frame, encode, decode, decode_body, control_has_addrs,
}
use klartext.Hsfz.Frame.RoundTrip.{IsWire, decode-encode_wire}
use klartext.Hsfz.Frame.Accepts.{encode-decode}
use klartext.Hsfz.Reader.{
  Attempt, filled, failed, elapsed, read_exact_timed, ByteReader, IsPrompt, read_frame,
}
use klartext.Hsfz.Reader.Stream.{read_frame-encode}

abbrev pub vin_request : HsfzFrame
vin_request = diagnostic_frame 0xf4 0x12 (0x22 ∷ 0xf1 ∷ 0x90 ∷ [])

-- A socket that holds the bytes of a list, and fails once there are too few.
pub taken : List ℕ → ℕ → Attempt (Unit {0}) × List ℕ
taken bs n = if leb n (length bs) then (filled (take n bs), drop n bs) else (failed tt, bs)

bytes_of : {Io : Type 0} → Attempt Io → List ℕ
bytes_of (filled bs) = bs
bytes_of (failed e) = []
bytes_of elapsed = []

pub taken-filled :
    (r : List ℕ) (n : ℕ) (bs r' : List ℕ)
    → taken r n ≡ (filled bs, r')
    → (length bs ≡ n) × (r ≡ bs ++ r')
unfolding taken bytes_of
taken-filled r n bs r' e = elim (Bool-cases (leb n (length r))) [
  | inl fits ↦
      let both = rw fits at e in
      let front : take n r ≡ bs = ap (λ p. bytes_of p.0) both in
      let back : drop n r ≡ r' = ap (λ p. p.1) both in
      rw (sym front, sym back)
        (length-take n r (leb→le n (length r) fits), sym (take-append-drop n r))
  | inr short ↦ absurd (cc (ap (λ p. p.0) (rw short at e)))
]

abbrev pub list_reader : ByteReader (Unit {0}) (List ℕ)
list_reader = record { read_exact = taken; pending = λ bs. bs; read_exact-filled = taken-filled }

pub list_reader-IsPrompt : IsPrompt list_reader
unfolding taken
list_reader-IsPrompt r n h = (take n r, (drop n r, rw (le→leb n (length r) h) refl))

pub vin_request-IsWire : IsWire vin_request
unfolding control_has_addrs
vin_request-IsWire = record {
  control_fits = omega arith;
  body_fits = omega arith;
  addr_fits = refl;
}

-- Behind the last frame every read fails.
pub list_reader-ended :
    (idle : ℕ) (r : List ℕ)
    → list_reader.pending r ≡ []
    → (e : Error (Unit {0})) × ((read_frame list_reader idle r).0 ≡ err e)
unfolding read_frame read_exact_timed taken
list_reader-ended idle [] e = (io tt, refl)
list_reader-ended idle (x ∷ r) e = absurd (cc e)

abbrev pub vin_bytes : List ℕ
vin_bytes = 0 ∷ 0 ∷ 0 ∷ 5 ∷ 0 ∷ 1 ∷ 0xf4 ∷ 0x12 ∷ 0x22 ∷ 0xf1 ∷ 0x90 ∷ []

encode_frame_run : encode vin_request ≡ vin_bytes
unfolding encode
encode_frame_run = refl

decode_frame_run : decode {Io = Unit {0}} vin_bytes ≡ ok vin_request
unfolding decode decode_body control_has_addrs index slice
decode_frame_run = refl

vin_bytes-IsByte : All IsByte vin_bytes
vin_bytes-IsByte = ground arith

decode-encode_wire_example :
    decode {Io = Unit {0}} (encode vin_request ++ 0xaa ∷ []) ≡ ok vin_request
decode-encode_wire_example = decode-encode_wire vin_request (0xaa ∷ []) vin_request-IsWire

encode-decode_example :
    IsWire vin_request × ((rest : List ℕ) × (vin_bytes ≡ encode vin_request ++ rest))
encode-decode_example =
    encode-decode {Io = Unit {0}} vin_bytes vin_request vin_bytes-IsByte decode_frame_run

read_frame-encode_example :
    (r' : List ℕ) × (read_frame list_reader 2000 (encode vin_request ++ 0xaa ∷ [])
      ≡ (ok vin_request, r'))
    × (list_reader.pending r' ≡ 0xaa ∷ [])
read_frame-encode_example =
    read_frame-encode list_reader 2000 list_reader-IsPrompt (encode vin_request ++ 0xaa ∷ [])
      vin_request (0xaa ∷ []) vin_request-IsWire refl

read_vin : read_frame list_reader 2000 vin_bytes ≡ (ok vin_request, [])
unfolding read_frame read_exact_timed taken decode decode_body control_has_addrs index slice
read_vin = refl
