-- ===== src/Hsfz/Frame.antt =====
-- crates/hsfz/src/frame.rs: one HSFZ frame, `[length : u32][control : u16][body]`, and the errors of
-- crates/hsfz/src/lib.rs. `Io` is the operating system's error, of which nothing is known.
pub mod RoundTrip
pub mod Accepts
use klartext.Prelude.{
  ℕ, ◌+◌, ◌*◌, ◌/◌, ◌%◌, ◌^◌, ◌≡◌, Bool, true, false, ◌&&◌, ◌||◌, List, [], ◌∷◌, ◌++◌, Option, none,
  some, length, ltb, ◌==◌, if◌then◌else◌, Result, ok, err, panic, ◌>>=◌, index, slice, to_be_bytes,
  to_be_bytes32, from_be_bytes, from_be_bytes32,
}

-- An address and a port are numbers, and a timeout is a number of milliseconds.
pub data Error (Io : Type 0) : Type 0 where
  connect : (ip port : ℕ) → (source : Io) → Error Io
  connect_timeout : (ip port timeout : ℕ) → Error Io
  read_timeout : (timeout : ℕ) → Error Io
  frame_too_large : (length : ℕ) → Error Io
  truncated : (have_bytes need : ℕ) → Error Io
  discovery_bind : (bind_ip : ℕ) → (source : Io) → Error Io
  io : (source : Io) → Error Io

abbrev pub header_len : ℕ
header_len = 6

abbrev pub max_frame_len : ℕ
max_frame_len = 64 * 1024

-- The control words.
abbrev pub diagnostic : ℕ
diagnostic = 0x0001

abbrev pub ack : ℕ
ack = 0x0002

abbrev pub identification : ℕ
identification = 0x0011

abbrev pub alive_check : ℕ
alive_check = 0x0012

pub record HsfzFrame : Type 0 where
  pub control : ℕ
  pub addr : Option (ℕ × ℕ)
  pub payload : List ℕ

-- `HsfzFrame::diagnostic` and `HsfzFrame::identification_request`.
abbrev pub diagnostic_frame : ℕ → ℕ → List ℕ → HsfzFrame
diagnostic_frame source target uds = record {
  control = diagnostic;
  addr = some (source, target);
  payload = uds;
}

abbrev pub identification_request : HsfzFrame
identification_request = record { control = identification; addr = none; payload = [] }

unfoldable pub control_has_addrs : ℕ → ℕ → Bool
control_has_addrs control body_len =
    control == diagnostic || control == ack || control == alive_check && body_len == 2

-- The body: the two addresses, if there are any, and the payload.
abbrev pub addr_bytes : Option (ℕ × ℕ) → List ℕ
addr_bytes none = []
addr_bytes (some (src, tgt)) = src ∷ tgt ∷ []

unfoldable pub encode : HsfzFrame → List ℕ
encode f =
    let body = addr_bytes f.addr ++ f.payload in
    to_be_bytes32 (length body % 2 ^ 32) ++ to_be_bytes f.control ++ body

-- The end of `decode`: the addresses and the payload of a body that is complete.
unfoldable pub decode_body : {Io : Type 0} → ℕ → ℕ → List ℕ → Result (Error Io) HsfzFrame
decode_body {Io} control body_len body =
    let addressed : Result (Error Io) HsfzFrame = do
      src ← index body 0
      tgt ← index body 1
      payload ← slice body 2 (length body)
      ok (record { control = control; addr = some (src, tgt); payload = payload })
    in if control_has_addrs control body_len
      then (if ltb body_len 2
          then err (truncated (header_len + body_len) (header_len + 2))
          else addressed)
      else ok (record { control = control; addr = none; payload = body })

unfoldable pub decode : {Io : Type 0} → List ℕ → Result (Error Io) HsfzFrame
decode {Io} buf =
    let whole : Result (Error Io) HsfzFrame = do
      b0 ← index buf 0
      b1 ← index buf 1
      b2 ← index buf 2
      b3 ← index buf 3
      let body_len = from_be_bytes32 b0 b1 b2 b3
      let bounded : Result (Error Io) HsfzFrame = do
        c0 ← index buf 4
        c1 ← index buf 5
        let need = header_len + body_len
        let complete = slice buf header_len need >>= decode_body (from_be_bytes c0 c1) body_len
        if ltb (length buf) need then err (truncated (length buf) need) else complete
      if ltb max_frame_len body_len then err (frame_too_large body_len) else bounded
    in if ltb (length buf) header_len then err (truncated (length buf) header_len) else whole
