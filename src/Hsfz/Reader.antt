-- ===== src/Hsfz/Reader.antt =====
-- crates/hsfz/src/frame.rs: `read_frame` and `write_frame` over a socket. The socket, with the
-- timeout around each read, is a parameter: `ByteReader` and `ByteWriter` state what
-- `AsyncReadExt::read_exact`, `AsyncWriteExt::write_all` and `flush` document.
pub mod Stream
use klartext.Prelude.{
  ℕ, ◌+◌, ◌≤◌, ◌≡◌, List, [], ◌∷◌, ◌++◌, length, ltb, if◌then◌else◌, Result, ok, err, panic, index,
  from_be_bytes32,
}
use klartext.Hsfz.Frame.{
  Error, read_timeout, frame_too_large, io, max_frame_len, HsfzFrame, encode, decode,
}

-- `timeout(read_timeout, reader.read_exact(buf))`: the buffer filled, an error of the socket (the
-- end of the stream is one), or the timeout.
pub data Attempt (Io : Type 0) : Type 0 where
  filled : List ℕ → Attempt Io
  failed : Io → Attempt Io
  elapsed : Attempt Io

-- `pending r` are the bytes that have been sent to `r` and not been read: a read that succeeds
-- takes as many from the front as were asked for, over any number of segments.
pub record ByteReader (Io R : Type 0) : Type 0 where
  pub read_exact : R → ℕ → Attempt Io × R
  pub pending : R → List ℕ
  pub read_exact-filled :
      (r : R) (n : ℕ) (bs : List ℕ) (r' : R)
      → read_exact r n ≡ (filled bs, r')
      → (length bs ≡ n) × (pending r ≡ bs ++ pending r')

-- A reader that never stalls while there are bytes to read.
abbrev pub IsPrompt : {Io R : Type 0} → ByteReader Io R → Type 0
IsPrompt {Io} {R} reader =
    (r : R) (n : ℕ)
    → n ≤ length (reader.pending r)
    → (bs : List ℕ) × ((r' : R) × (reader.read_exact r n ≡ (filled bs, r')))

-- `written w` are the bytes that have been sent through `w`.
pub record ByteWriter (Io W : Type 0) : Type 0 where
  pub write_all : W → List ℕ → Result Io (Unit {0}) × W
  pub flush : W → Result Io (Unit {0}) × W
  pub written : W → List ℕ
  pub write_all-ok :
      (w : W) (bs : List ℕ) (w' : W) → write_all w bs ≡ (ok tt, w') → written w' ≡ written w ++ bs
  pub flush-ok : (w w' : W) → flush w ≡ (ok tt, w') → written w' ≡ written w

-- An action on a socket `R` that can fail.
abbrev pub SocketM : Type 0 → Type 0 → Type 0 → Type 0
SocketM Io R A = R → Result (Error Io) A × R

infixl 5 ◌>>=◌
abbrev pub ◌>>=◌ : {Io R A B : Type 0} → SocketM Io R A → (A → SocketM Io R B) → SocketM Io R B
◌>>=◌ m f r =
    let first = m r in
    elim first.0 [ ok a ↦ f a first.1 | err e ↦ (err e, first.1) | panic ↦ (panic, first.1) ]

abbrev pub lift : {Io R A : Type 0} → Result (Error Io) A → SocketM Io R A
lift result r = (result, r)

-- `u32::from_be_bytes` of a buffer of four bytes.
abbrev pub length_of : {Io R : Type 0} → List ℕ → SocketM Io R ℕ
length_of buf = do
  b0 ← lift (index buf 0)
  b1 ← lift (index buf 1)
  b2 ← lift (index buf 2)
  b3 ← lift (index buf 3)
  lift (ok (from_be_bytes32 b0 b1 b2 b3))

module _ {Io R : Type 0} (reader : ByteReader Io R) (timeout : ℕ) where
  unfoldable pub read_exact_timed : ℕ → SocketM Io R (List ℕ)
  read_exact_timed n r =
      let attempt = reader.read_exact r n in
      elim attempt.0 [
        | filled bs ↦ (ok bs, attempt.1)
        | failed e ↦ (err (io e), attempt.1)
        | elapsed ↦ (err (read_timeout timeout), attempt.1)
      ]

  -- The second half of `read_frame`, from the length that the first four bytes give.
  unfoldable pub read_rest : List ℕ → ℕ → SocketM Io R HsfzFrame
  read_rest len_buf length =
      let whole : SocketM Io R HsfzFrame = do
        rest ← read_exact_timed (2 + length)
        lift (decode (len_buf ++ rest))
      in if ltb max_frame_len length then lift (err (frame_too_large length)) else whole

  unfoldable pub read_frame : SocketM Io R HsfzFrame
  unfolding read_rest
  read_frame = do len_buf ← read_exact_timed 4; length ← length_of len_buf; read_rest len_buf length

-- `map_err(Error::Io)?` on an action of the writer.
abbrev pub io_step : {Io W : Type 0} → (W → Result Io (Unit {0}) × W) → SocketM Io W (Unit {0})
io_step action w =
    let step = action w in
    elim step.0 [ ok u ↦ (ok tt, step.1) | err e ↦ (err (io e), step.1) | panic ↦ (panic, step.1) ]

unfoldable pub write_frame : {Io W : Type 0} → ByteWriter Io W → HsfzFrame → SocketM Io W (Unit {0})
write_frame writer frame = do
  sent ← io_step (λ w. writer.write_all w (encode frame))
  io_step writer.flush
