-- ===== src/Best/Strings/RoundTrip.antt =====
-- crates/best/src/exec.rs: `write_string` and `read_string`, and the digits of `y2hex` and `hex2y`.
use klartext.Prelude.{
  ℕ, ◌+◌, ◌-◌, ◌*◌, ◌/◌, ◌%◌, ◌<◌, ◌≡◌, refl, sym, ap, ap₂, subst, ◌∙◌, Bool, true, false, List, [],
  ◌∷◌, ◌++◌, Option, none, some, length, get_elem?, ◌==◌, if◌then◌else◌, All, IsByte, arith,
}
use klartext.Sgbd.Cp1252.{Text, decode_byte, decode, encode, encode-decode_text}
use klartext.Best.Texts.{to_digit, hex_digit, nibbles, hex_to_bytes}
use klartext.Best.Strings.{before_nul, terminated}

abbrev NonZero : ℕ → Type 0
NonZero b = 0 < b

before_nul-plain : (bs : List ℕ) → All NonZero bs → before_nul bs ≡ bs
unfolding before_nul
before_nul-plain [] h = refl
before_nul-plain (b ∷ bs) h = let rest = before_nul-plain bs h.1 in ground arith

before_nul-append : (bs : List ℕ) → All NonZero bs → before_nul (bs ++ 0 ∷ []) ≡ bs
unfolding before_nul
before_nul-append [] h = refl
before_nul-append (b ∷ bs) h = let rest = before_nul-append bs h.1 in ground arith

before_nul-terminated :
    (text : Text) → All NonZero (encode text) → before_nul (terminated text) ≡ encode text
unfolding terminated
before_nul-terminated text h =
    go (encode text) h (get_elem? (encode text) (length (encode text) - 1))
  where
    go :
        (b : List ℕ)
        → All NonZero b
        → (l : Option ℕ)
        → before_nul (elim l [ none ↦ b | some last ↦ if last == 0 then b else b ++ 0 ∷ [] ]) ≡ b
    go b h none = before_nul-plain b h
    go b h (some last) = either (last == 0)
      where
        either : (c : Bool) → before_nul (if c then b else b ++ 0 ∷ []) ≡ b
        either true = before_nul-plain b h
        either false = before_nul-append b h

-- A text of characters of the encoding, without a zero, is read back as it was written.
pub decode-terminated :
    (bs : List ℕ)
    → All IsByte bs
    → All NonZero bs
    → decode (before_nul (terminated (decode bs))) ≡ decode bs
decode-terminated bs h k =
    let e = encode-decode_text bs h in
    ap decode (before_nul-terminated (decode bs) (subst (All NonZero) (sym e) k) ∙ e)

to_digit-hex_digit : (n : ℕ) → n < 16 → to_digit 16 (hex_digit n) ≡ some n
unfolding hex_digit
to_digit-hex_digit n h = ground arith

-- The character of a digit is a byte of ASCII and no zero.
hex_digit-ascii : (n : ℕ) → n < 16 → (0 < hex_digit n) × (hex_digit n < 0x80)
unfolding hex_digit
hex_digit-ascii n h = ground arith

hex_to_bytes-pair :
    (a c hi lo : ℕ) (text : Text) (rest : List ℕ)
    → to_digit 16 a ≡ some hi
    → to_digit 16 c ≡ some lo
    → hex_to_bytes text ≡ some rest
    → hex_to_bytes (a ∷ c ∷ text) ≡ some ((hi * 16 + lo) ∷ rest)
unfolding hex_to_bytes
hex_to_bytes-pair a c hi lo text rest p q r = ground arith

hex_to_bytes-nibbles : (bs : List ℕ) → All IsByte bs → hex_to_bytes (nibbles hex_digit bs) ≡ some bs
unfolding hex_to_bytes nibbles
hex_to_bytes-nibbles [] h = refl
hex_to_bytes-nibbles (b ∷ bs) h =
    hex_to_bytes-pair (hex_digit (b / 16)) (hex_digit (b % 16)) (b / 16) (b % 16)
      (nibbles hex_digit bs) bs (to_digit-hex_digit (b / 16) (omega arith))
      (to_digit-hex_digit (b % 16) (omega arith)) (hex_to_bytes-nibbles bs h.1)
    ∙ ap (λ x. some (x ∷ bs)) (omega arith)

nibbles-ascii :
    (bs : List ℕ) → All IsByte bs → All (λ c. (0 < c) × (c < 0x80)) (nibbles hex_digit bs)
unfolding nibbles
nibbles-ascii [] h = tt
nibbles-ascii (b ∷ bs) h = (
  hex_digit-ascii (b / 16) (omega arith),
  (hex_digit-ascii (b % 16) (omega arith), nibbles-ascii bs h.1),
)

decode-ascii : (text : Text) → All (λ c. (0 < c) × (c < 0x80)) text → decode text ≡ text
unfolding decode decode_byte
decode-ascii [] h = refl
decode-ascii (c ∷ text) h = ap₂ (λ x xs. x ∷ xs) (ground arith) (decode-ascii text h.1)

ascii-bytes :
    (text : Text) → All (λ c. (0 < c) × (c < 0x80)) text → All IsByte text × All NonZero text
ascii-bytes [] h = (tt, tt)
ascii-bytes (c ∷ text) h =
    let rest = ascii-bytes text h.1 in ((omega arith, rest.0), (h.0.0, rest.1))

-- The bytes of a buffer are what `hex2y` reads from the text that `y2hex` has stored for them: the
-- digits, encoded and terminated, are found again up to the terminator, and each pair is its byte.
pub hex_to_bytes-decode :
    (bs : List ℕ)
    → All IsByte bs
    → hex_to_bytes (decode (before_nul (terminated (nibbles hex_digit bs)))) ≡ some bs
hex_to_bytes-decode bs h =
    let text = nibbles hex_digit bs in
    let ascii = nibbles-ascii bs h in
    let plain = decode-ascii text ascii in
    let within = ascii-bytes text ascii in
    let back = decode-terminated text within.0 within.1 in
    ap hex_to_bytes (ap (λ t. decode (before_nul (terminated t))) (sym plain) ∙ back ∙ plain)
    ∙ hex_to_bytes-nibbles bs h
