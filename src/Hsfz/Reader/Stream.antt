-- ===== src/Hsfz/Reader/Stream.antt =====
-- crates/hsfz/src/frame.rs: `read_frame` takes one frame from the stream, whole and no more.
use klartext.Prelude.{
  ℕ, ◌+◌, ◌/◌, ◌%◌, ◌^◌, ◌≤◌, ◌≡◌, refl, ap, ap₂, subst, sym, true, false, ◌∙◌, List, [], ◌∷◌, ◌++◌,
  append-nil, length, length-append, append_cancel, All, All-split, ltb, le→ltb, Result, ok, err,
  panic, index, from_be_bytes32, to_be_bytes32, to_be_bytes, IsByte, arith, inl, inr, Bool-cases,
}
use klartext.Hsfz.Frame.{
  Error, io, frame_too_large, read_timeout, max_frame_len, HsfzFrame, encode, decode,
}
use klartext.Hsfz.Frame.RoundTrip.{IsWire, body_of, decode-encode_wire}
use klartext.Hsfz.Frame.Accepts.{decode_exact}
use klartext.Hsfz.Reader.{
  Attempt, filled, failed, elapsed, ByteReader, IsPrompt, SocketM, ◌>>=◌, lift, length_of,
  read_exact_timed, read_rest, read_frame,
}

bind-ok :
    {Io R A B : Type 0} (m : SocketM Io R A) (f : A → SocketM Io R B) (r : R) {a : A} {r' : R}
    → m r ≡ (ok a, r')
    → (m >>= f) r ≡ f a r'
bind-ok m f r {a} e = rw (e, ◌>>=◌) (ap (λ s. f a s.1) e)

module _ {Io R : Type 0} (reader : ByteReader Io R) (timeout : ℕ) where
  read_exact_timed-filled :
      (r : R) (n : ℕ) (bs : List ℕ) (r' : R)
      → reader.read_exact r n ≡ (filled bs, r')
      → read_exact_timed reader timeout n r ≡ (ok bs, r')
  unfolding read_exact_timed
  read_exact_timed-filled r n bs r' e = rw (e, read_exact_timed) (ap (λ s. (ok bs, s.1)) e)

  -- The two reads of `read_frame` once the length bytes have arrived.
  read_frame-length :
      (r r₁ : R) (b0 b1 b2 b3 : ℕ)
      → let n = from_be_bytes32 b0 b1 b2 b3 in
        n ≤ max_frame_len
        → reader.read_exact r 4 ≡ (filled (b0 ∷ b1 ∷ b2 ∷ b3 ∷ []), r₁)
        → (rest : List ℕ) (r₂ : R) → reader.read_exact r₁ (2 + n) ≡ (filled rest, r₂)
        → read_frame reader timeout r ≡ (decode (b0 ∷ b1 ∷ b2 ∷ b3 ∷ rest), r₂)
  unfolding read_frame index
  read_frame-length r r₁ b0 b1 b2 b3 fits e₁ rest r₂ e₂ =
      bind-ok (read_exact_timed reader timeout 4)
        (λ len_buf. length_of len_buf >>= read_rest reader timeout len_buf) r
        (read_exact_timed-filled r 4 _ r₁ e₁)
      ∙ rw (le→ltb max_frame_len (from_be_bytes32 b0 b1 b2 b3) fits) (
          bind-ok (read_exact_timed reader timeout (2 + from_be_bytes32 b0 b1 b2 b3))
            (λ rest. lift (decode (b0 ∷ b1 ∷ b2 ∷ b3 ∷ rest))) r₁
            (read_exact_timed-filled r₁ _ rest r₂ e₂))

  -- A prompt reader takes the front part of what is pending.
  read_part :
      (prompt : IsPrompt reader) (r : R) (front back : List ℕ)
      → reader.pending r ≡ front ++ back
      → (r' : R) × (reader.read_exact r (length front) ≡ (filled front, r'))
        × (reader.pending r' ≡ back)
  read_part prompt r front back e =
      let (bs, (r', q)) =
        prompt r (length front) (omega (arith, ap length e, length-append front back)) in
      let (len, split) = reader.read_exact-filled r (length front) bs r' q in
      let (same, left) = append_cancel bs front (reader.pending r') back len (sym split ∙ e) in
      (r', q ∙ ap (λ x. (filled x, r')) same, left)

  -- The next frame in the stream, which an encoder wrote, is the frame that `read_frame` returns,
  -- and the bytes behind it stay in the stream.
  pub read_frame-encode :
      (prompt : IsPrompt reader) (r : R) (f : HsfzFrame) (rest : List ℕ)
      → IsWire f
      → reader.pending r ≡ encode f ++ rest
      → (r' : R) × (read_frame reader timeout r ≡ (ok f, r')) × (reader.pending r' ≡ rest)
  unfolding encode
  read_frame-encode prompt r f rest w e =
      let (r₁, e₁, p₁) =
        read_part prompt r (to_be_bytes32 n) (to_be_bytes f.control ++ body_of f ++ rest) e in
      let (r₂, e₂, p₂) = read_part prompt r₁ (to_be_bytes f.control ++ body_of f) rest p₁ in
      (
        r₂,
        read_frame-length r r₁ _ _ _ _ fits e₁ _ r₂ (ap (reader.read_exact r₁) two ∙ e₂)
            ∙ ap (λ x. (x, r₂)) (rw append-nil at (decode-encode_wire {Io = Io} f [] w)),
        p₂,
      )
    where
      n : ℕ
      n = length (body_of f) % 2 ^ 32

      len :
          from_be_bytes32 (n / 2 ^ 24 % 256) (n / 2 ^ 16 % 256) (n / 256 % 256) (n % 256)
          ≡ length (body_of f)
      len = omega (arith, w.body_fits)

      fits :
          from_be_bytes32 (n / 2 ^ 24 % 256) (n / 2 ^ 16 % 256) (n / 256 % 256) (n % 256)
          ≤ max_frame_len
      fits = omega (arith, w.body_fits)

      two :
          2 + from_be_bytes32 (n / 2 ^ 24 % 256) (n / 2 ^ 16 % 256) (n / 256 % 256) (n % 256)
          ≡ length (to_be_bytes f.control ++ body_of f)
      two = omega (arith, len)

bind-ok_inv :
    {Io R A B : Type 0} (m : SocketM Io R A) (f : A → SocketM Io R B) (r : R) {b : B} {r' : R}
    → (m >>= f) r ≡ (ok b, r')
    → (a : A) × (r₁ : R) × (m r ≡ (ok a, r₁)) × (f a r₁ ≡ (ok b, r'))
bind-ok_inv {Io} {R} {A} {B} m f r {b} {r'} e = split (m r) refl e
  where
    split :
        (s : Result (Error Io) A × R)
        → m r ≡ s
        → ◌>>=◌ (λ (x : R). s) f r ≡ (ok b, r')
        → (a : A) × (r₁ : R) × (m r ≡ (ok a, r₁)) × (f a r₁ ≡ (ok b, r'))
    split (ok a, r₁) q h = (a, r₁, q, h)
    split (err x, r₁) q h = absurd (cc (ap (λ p. p.0) h))
    split (panic, r₁) q h = absurd (cc (ap (λ p. p.0) h))

module _ {Io R : Type 0} (reader : ByteReader Io R) (timeout : ℕ) where
  read_exact_timed-ok :
      (r r' : R) (n : ℕ) (bs : List ℕ)
      → read_exact_timed reader timeout n r ≡ (ok bs, r')
      → (length bs ≡ n) × (reader.pending r ≡ bs ++ reader.pending r')
  unfolding read_exact_timed
  read_exact_timed-ok r r' n bs e = split (reader.read_exact r n) refl e
    where
      split :
          (s : Attempt Io × R)
          → reader.read_exact r n ≡ s
          → ◌≡◌ {A = Result (Error Io) (List ℕ) × R}
              (elim s.0 [
                | filled xs ↦ (ok xs, s.1)
                | failed x ↦ (err (io x), s.1)
                | elapsed ↦ (err (read_timeout timeout), s.1)
              ])
              (ok bs, r')
          → (length bs ≡ n) × (reader.pending r ≡ bs ++ reader.pending r')
      split (filled xs, r₁) q h =
          reader.read_exact-filled r n bs r'
            (q ∙ ap₂ (λ x y. (filled x, y)) (cc (ap (λ p. p.0) h)) (ap (λ p. p.1) h))
      split (failed x, r₁) q h = absurd (cc (ap (λ p. p.0) h))
      split (elapsed, r₁) q h = absurd (cc (ap (λ p. p.0) h))

  read_rest-large :
      (buf : List ℕ) (n : ℕ) (r : R)
      → ltb max_frame_len n ≡ true
      → read_rest reader timeout buf n r ≡ (err (frame_too_large n), r)
  unfolding read_rest
  read_rest-large buf n r h = rw h

  read_rest-fits :
      (buf : List ℕ) (n : ℕ) (r : R)
      → ltb max_frame_len n ≡ false
      → read_rest reader timeout buf n r
        ≡ (read_exact_timed reader timeout (2 + n) >>= λ rest. lift (decode (buf ++ rest))) r
  unfolding read_rest
  read_rest-fits buf n r h = rw h

  -- The decoding of the bytes that the two reads have taken.
  decode_taken :
      (r₀ r₁ : R) (b0 b1 b2 b3 : ℕ) (taken : List ℕ) (f : HsfzFrame)
      → All IsByte (reader.pending r₀)
      → length taken ≡ 2 + from_be_bytes32 b0 b1 b2 b3
      → reader.pending r₀ ≡ (b0 ∷ b1 ∷ b2 ∷ b3 ∷ taken) ++ reader.pending r₁
      → decode {Io = Io} (b0 ∷ b1 ∷ b2 ∷ b3 ∷ taken) ≡ ok f
      → IsWire f × (reader.pending r₀ ≡ encode f ++ reader.pending r₁)
  decode_taken r₀ r₁ b0 b1 b2 b3 [] f bytes n p e = absurd (omega arith)
  decode_taken r₀ r₁ b0 b1 b2 b3 (c0 ∷ []) f bytes n p e = absurd (omega arith)
  decode_taken r₀ r₁ b0 b1 b2 b3 (c0 ∷ c1 ∷ tail) f bytes n p e =
      let buf = b0 ∷ b1 ∷ b2 ∷ b3 ∷ c0 ∷ c1 ∷ tail in
      let (own, _) = All-split IsByte buf (reader.pending r₁) (subst (All IsByte) p bytes) in
      let (w, q) = decode_exact {Io = Io} b0 b1 b2 b3 c0 c1 tail f own (omega arith) e in
      (w, p ∙ ap (λ t. t ++ reader.pending r₁) q)

  -- The second read of `read_frame` and the decoding, once four length bytes have been taken.
  read_rest-ok :
      (r₀ r₁ r' : R) (b0 b1 b2 b3 : ℕ) (f : HsfzFrame)
      → All IsByte (reader.pending r₀)
      → reader.pending r₀ ≡ b0 ∷ b1 ∷ b2 ∷ b3 ∷ reader.pending r₁
      → read_rest reader timeout (b0 ∷ b1 ∷ b2 ∷ b3 ∷ []) (from_be_bytes32 b0 b1 b2 b3) r₁
        ≡ (ok f, r')
      → IsWire f × (reader.pending r₀ ≡ encode f ++ reader.pending r')
  read_rest-ok r₀ r₁ r' b0 b1 b2 b3 f bytes p₀ e = elim (Bool-cases (ltb max_frame_len n)) [
    | inl large ↦ absurd (cc (ap (λ p. p.0) (sym (read_rest-large buf n r₁ large) ∙ e)))
    | inr fits ↦
        let (taken, r₂, e₁, e₂) =
          bind-ok_inv (read_exact_timed reader timeout (2 + n))
            (λ rest. lift (decode (buf ++ rest))) r₁ (sym (read_rest-fits buf n r₁ fits) ∙ e) in
        let (len, p₁) = read_exact_timed-ok r₁ r₂ (2 + n) taken e₁ in
        decode_taken r₀ r' b0 b1 b2 b3 taken f bytes len
          (p₀
            ∙ ap (λ t. b0 ∷ b1 ∷ b2 ∷ b3 ∷ t)
                (p₁ ∙ ap (λ q. taken ++ reader.pending q) (ap (λ q. q.1) e₂)))
          (ap (λ q. q.0) e₂)
  ]
    where
      n : ℕ
      n = from_be_bytes32 b0 b1 b2 b3

      buf : List ℕ
      buf = b0 ∷ b1 ∷ b2 ∷ b3 ∷ []

  after_length :
      (r₀ r₁ r' : R) (buf : List ℕ) (f : HsfzFrame)
      → All IsByte (reader.pending r₀)
      → length buf ≡ 4
      → reader.pending r₀ ≡ buf ++ reader.pending r₁
      → (length_of buf >>= read_rest reader timeout buf) r₁ ≡ (ok f, r')
      → IsWire f × (reader.pending r₀ ≡ encode f ++ reader.pending r')
  unfolding index
  after_length r₀ r₁ r' (b0 ∷ b1 ∷ b2 ∷ b3 ∷ []) f bytes n p e =
      read_rest-ok r₀ r₁ r' b0 b1 b2 b3 f bytes p e
  after_length r₀ r₁ r' [] f bytes n p e = absurd (omega arith)
  after_length r₀ r₁ r' (a ∷ []) f bytes n p e = absurd (omega arith)
  after_length r₀ r₁ r' (a ∷ b ∷ []) f bytes n p e = absurd (omega arith)
  after_length r₀ r₁ r' (a ∷ b ∷ c ∷ []) f bytes n p e = absurd (omega arith)
  after_length r₀ r₁ r' (a ∷ b ∷ c ∷ d ∷ x ∷ rest) f bytes n p e = absurd (omega arith)

  -- A frame that `read_frame` returns was the front of the stream, as `encode` writes it, and no
  -- byte behind it has been taken. The reader may stall and fail as it likes.
  pub read_frame-ok :
      (r r' : R) (f : HsfzFrame)
      → All IsByte (reader.pending r)
      → read_frame reader timeout r ≡ (ok f, r')
      → IsWire f × (reader.pending r ≡ encode f ++ reader.pending r')
  unfolding read_frame
  read_frame-ok r r' f bytes e =
      let (buf, r₁, e₁, e₂) =
        bind-ok_inv (read_exact_timed reader timeout 4)
          (λ len_buf. length_of len_buf >>= read_rest reader timeout len_buf) r e in
      let (len, p) = read_exact_timed-ok r r₁ 4 buf e₁ in after_length r r₁ r' buf f bytes len p e₂
