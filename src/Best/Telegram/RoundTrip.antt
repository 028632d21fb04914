-- ===== src/Best/Telegram/RoundTrip.antt =====
-- crates/best/src/telegram.rs: `decode` undoes `encode`, and notices a changed byte.
use klartext.Prelude.{
  ℕ, ◌+◌, ◌*◌, ◌/◌, ◌%◌, ◌^◌, ◌≤◌, ◌<◌, ◌≡◌, ◌≢◌, refl, ap, ◌∙◌, List, [], ◌∷◌, ◌++◌, some, length,
  length-append, get_elem?, foldl, leb, set, set-append, foldl-append, sym, leb→le, le→ltb, lt→ltb,
  ◌==◌, ==_refl, ne→==, if◌then◌else◌, ok, err, index, slice, index-append, slice_middle,
  slice_prefix, index-ok, IsByte, arith, append_assoc, inl, inr, Bool-cases, bit_and_low_six,
  bit_or_top, bit_and_low_byte,
}
use klartext.Best.Telegram.{
  TelegramError, too_short, bad_length, bad_checksum, checksum, header, encode, long_header,
  header_and_length, decode,
}

-- The header in each form, without the bit operations.
header_short : (t s n : ℕ) → n ≤ 63 → header t s n ≡ (n + 128) ∷ t ∷ s ∷ []
unfolding header
header_short t s n h = ground (arith, bit_and_low_six n, bit_or_top (n % 64 % 256))

header_long : (t s n : ℕ) → 63 < n → n ≤ 255 → header t s n ≡ 128 ∷ t ∷ s ∷ n ∷ []
unfolding header
header_long t s n h k = ground (arith, bit_and_low_byte n)

header_wide :
    (t s n : ℕ) → 255 < n → n ≤ 65535 → header t s n ≡ 128 ∷ t ∷ s ∷ 0 ∷ n / 256 ∷ n % 256 ∷ []
unfolding header
header_wide t s n h k = ground (arith, bit_and_low_byte n, bit_and_low_byte (n / 2 ^ 8))

-- The header read back from a telegram in each form.
length_short :
    (t s n : ℕ) (rest : List ℕ)
    → 0 < n
    → n ≤ 63
    → header_and_length ((n + 128) ∷ t ∷ s ∷ rest) ≡ ok (3, n + 3)
unfolding header_and_length
length_short t s n rest h k = ground (arith, bit_and_low_six (n + 128))

length_long :
    (t s n : ℕ) (rest : List ℕ) → 0 < n → header_and_length (128 ∷ t ∷ s ∷ n ∷ rest) ≡ ok (4, n + 4)
unfolding header_and_length
length_long t s n rest h = ground arith

length_wide :
    (t s hi lo : ℕ) (rest : List ℕ)
    → header_and_length (128 ∷ t ∷ s ∷ 0 ∷ hi ∷ lo ∷ rest) ≡ ok (6, hi * 256 + lo + 6)
unfolding header_and_length
length_wide t s hi lo rest = refl

-- A telegram is a header, a payload, and one byte for the checksum.
decode-framed :
    (frame hdr uds : List ℕ) (c t s : ℕ)
    → frame ≡ hdr ++ uds ++ c ∷ []
    → header_and_length frame ≡ ok (length hdr, length (hdr ++ uds))
    → get_elem? frame 1 ≡ some t
    → get_elem? frame 2 ≡ some s
    → decode frame ≡ (
        if checksum (hdr ++ uds) == c
        then ok (record { target = t; source = s; uds = uds })
        else err (bad_checksum (checksum (hdr ++ uds)) c))
unfolding decode
decode-framed frame hdr uds c t s split len e₁ e₂ = rw (
  len,
  le→ltb (length frame) (length (hdr ++ uds) + 1) fits,
  front,
  last,
  index-ok frame 1 e₁,
  index-ok frame 2 e₂,
  middle,
)
  where
    fits : length (hdr ++ uds) + 1 ≤ length frame
    fits = omega (arith, ap length split, length-append (hdr ++ uds) (c ∷ []))

    front : slice {E = TelegramError} frame 0 (length (hdr ++ uds)) ≡ ok (hdr ++ uds)
    front = rw split (slice_prefix (hdr ++ uds) (c ∷ []))

    last : index {E = TelegramError} frame (length (hdr ++ uds)) ≡ ok c
    last = rw split (index-append (hdr ++ uds) c [])

    middle : slice {E = TelegramError} frame (length hdr) (length (hdr ++ uds)) ≡ ok uds
    middle = rw split (slice_middle hdr uds (c ∷ []))

-- The header that `encode` writes is read back as its own length and the telegram's.
header-header_and_length :
    (t s : ℕ) (uds rest : List ℕ)
    → 0 < length uds
    → length uds ≤ 65535
    → let hdr = header t s (length uds) in
      let frame = hdr ++ uds ++ rest in
      (header_and_length frame ≡ ok (length hdr, length (hdr ++ uds)))
      × (get_elem? frame 1 ≡ some t)
      × (get_elem? frame 2 ≡ some s)
header-header_and_length t s uds rest h k = elim (Bool-cases (leb n 63)) [
  | inl e ↦
      rw (header_short t s n (leb→le _ _ e), length_short t s n (uds ++ rest) h (leb→le _ _ e))
        (ground arith, refl, refl)
  | inr e ↦ elim (Bool-cases (leb n 255)) [
    | inl f ↦
        rw (header_long t s n (ground arith) (leb→le _ _ f), length_long t s n (uds ++ rest) h)
          (ground arith, refl, refl)
    | inr f ↦
        rw (header_wide t s n (ground arith) k, length_wide t s (n / 256) (n % 256) (uds ++ rest))
          (ground arith, refl, refl)
  ]
]
  where
    n : ℕ
    n = length uds

-- What `decode` answers on a telegram whose last byte is `c`.
decode-header :
    (t s : ℕ) (uds : List ℕ) (c : ℕ)
    → 0 < length uds
    → length uds ≤ 65535
    → let body = header t s (length uds) ++ uds in
      decode (body ++ c ∷ []) ≡ (
        if checksum body == c
        then ok (record { target = t; source = s; uds = uds })
        else err (bad_checksum (checksum body) c))
decode-header t s uds c h k =
    let (len, e₁, e₂) = header-header_and_length t s uds (c ∷ []) h k in
    decode-framed _ (header t s (length uds)) uds c t s refl len e₁ e₂

-- `decode` reads back the addresses and the payload that `encode` framed, in each of the three
-- forms, for every payload of 1 to 65535 bytes.
pub decode-encode :
    (target source : ℕ) (uds : List ℕ)
    → 0 < length uds
    → length uds ≤ 65535
    → decode (encode target source uds)
      ≡ ok (record { target = target; source = source; uds = uds })
unfolding encode
decode-encode t s uds h k =
    decode-header t s uds (checksum (header t s (length uds) ++ uds)) h k ∙ rw ==_refl

-- An empty payload is the exception: what `encode` frames for it, `decode` refuses, whatever the
-- addresses.
pub encode_empty :
    (target source : ℕ) → (e : TelegramError) × (decode (encode target source []) ≡ err e)
unfolding decode encode header header_and_length long_header
encode_empty t s = elim (Bool-cases (checksum (128 ∷ t ∷ s ∷ []) == 0)) [
  | inl zero_sum ↦ (too_short, rw zero_sum)
  | inr sum ↦ (
    bad_length (checksum (128 ∷ t ∷ s ∷ []) + 4 + 1) 4,
    rw (sum, lt→ltb 4 (checksum (128 ∷ t ∷ s ∷ []) + 4 + 1) (omega arith)),
  )
]

-- The additive fold keeps two different sums apart.
fold_injective :
    (a b : ℕ) (xs : List ℕ)
    → IsByte a
    → IsByte b
    → foldl (λ sum x. (sum + x) % 256) a xs ≡ foldl (λ sum x. (sum + x) % 256) b xs
    → a ≡ b
fold_injective a b [] ha hb e = e
fold_injective a b (x ∷ xs) ha hb e =
    omega (arith, fold_injective ((a + x) % 256) ((b + x) % 256) xs (omega arith) (omega arith) e)

checksum-append :
    (xs : List ℕ) (x : ℕ) (ys : List ℕ)
    → checksum (xs ++ x ∷ ys) ≡ foldl (λ sum b. (sum + b) % 256) ((checksum xs + x) % 256) ys
unfolding checksum
checksum-append xs x ys = foldl-append (λ sum b. (sum + b) % 256) 0 xs (x ∷ ys)

checksum-ne :
    (xs : List ℕ) (x y : ℕ) (ys : List ℕ)
    → IsByte x
    → IsByte y
    → x ≢ y
    → checksum (xs ++ x ∷ ys) ≢ checksum (xs ++ y ∷ ys)
checksum-ne xs x y ys hx hy d e = d (
    omega (
      arith,
      fold_injective ((checksum xs + x) % 256) ((checksum xs + y) % 256) ys (omega arith)
          (omega arith) (sym (checksum-append xs x ys) ∙ e ∙ checksum-append xs y ys),
    ))

regroup :
    (hdr before : List ℕ) (v : ℕ) (after : List ℕ) (c : ℕ)
    → hdr ++ (before ++ v ∷ after) ++ c ∷ [] ≡ hdr ++ before ++ v ∷ (after ++ c ∷ [])
regroup hdr before v after c = simp append_assoc

length_replaced :
    (before : List ℕ) (x y : ℕ) (after : List ℕ)
    → length (before ++ y ∷ after) ≡ length (before ++ x ∷ after)
length_replaced before x y after =
    omega (arith, length-append before (x ∷ after), length-append before (y ∷ after))

-- `decode` under the header of a payload of the same length, with any other checksum.
decode-mismatch :
    (t s n : ℕ) (uds : List ℕ) (c : ℕ)
    → length uds ≡ n
    → 0 < n
    → n ≤ 65535
    → checksum (header t s n ++ uds) ≢ c
    → decode (header t s n ++ uds ++ c ∷ []) ≡ err (bad_checksum (checksum (header t s n ++ uds)) c)
decode-mismatch t s n uds c e h k d = rw (← e) (
    decode-header t s uds c (omega arith) (omega arith)
    ∙ rw (ne→== (checksum (header t s (length uds) ++ uds)) c (rw e d)))

-- One payload byte of an encoded telegram, replaced by a different byte, is noticed: `decode`
-- answers `bad_checksum` with the checksum that was sent.
pub decode-set :
    (target source x y : ℕ) (before after : List ℕ)
    → IsByte x
    → IsByte y
    → x ≢ y
    → length (before ++ x ∷ after) ≤ 65535
    → let uds = before ++ x ∷ after in
      let hdr = header target source (length uds) in
      (expected : ℕ) × (decode (set (encode target source uds) (length (hdr ++ before)) y)
        ≡ err (bad_checksum expected (checksum (hdr ++ uds))))
unfolding encode
decode-set t s x y before after hx hy d k = (
  checksum (hdr ++ (before ++ y ∷ after)),
  rw (regroup hdr before x after c, set-append, ← regroup hdr before y after c)
      (decode-mismatch t s n (before ++ y ∷ after) c (length_replaced before x y after)
        (omega (arith, length-append before (x ∷ after))) k differs),
)
  where
    n : ℕ
    n = length (before ++ x ∷ after)

    hdr : List ℕ
    hdr = header t s n

    c : ℕ
    c = checksum (hdr ++ (before ++ x ∷ after))

    differs : checksum (hdr ++ (before ++ y ∷ after)) ≢ c
    differs e =
        checksum-ne (hdr ++ before) y x after hy hx (λ q. d (sym q))
          (ap checksum (append_assoc hdr before (y ∷ after))
            ∙ e
            ∙ ap checksum (sym (append_assoc hdr before (x ∷ after))))
