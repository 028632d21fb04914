-- ===== src/Sgbd/Cp1252.antt =====
-- crates/sgbd/src/cp1252.rs: the text encoding of job files. A `char` is its code point, and a `String`
-- the list of its characters.
use klartext.Prelude.{
  ℕ, ◌+◌, ◌-◌, ◌≡◌, refl, ap₂, ◌&&◌, ◌||◌, List, [], ◌∷◌, map, Option, none, some, get_elem?, leb,
  ◌==◌, if◌then◌else◌, All, IsByte, eq_below, all_within,
}

abbrev pub Text : Type 0
Text = List ℕ

-- `HIGH_CONTROL_MAP`
abbrev high_control_map : List ℕ
high_control_map =
    0x20ac ∷ 0x0081 ∷ 0x201a ∷ 0x0192 ∷ 0x201e ∷ 0x2026 ∷ 0x2020 ∷ 0x2021 ∷ 0x02c6 ∷ 0x2030 ∷ 0x0160
    ∷ 0x2039 ∷ 0x0152 ∷ 0x008d ∷ 0x017d ∷ 0x008f ∷ 0x0090 ∷ 0x2018 ∷ 0x2019 ∷ 0x201c ∷ 0x201d
    ∷ 0x2022 ∷ 0x2013 ∷ 0x2014 ∷ 0x02dc ∷ 0x2122 ∷ 0x0161 ∷ 0x203a ∷ 0x0153 ∷ 0x009d ∷ 0x017e
    ∷ 0x0178 ∷ []

-- `HIGH_CONTROL_MAP[i]` is read within its 32 entries.
unfoldable pub decode_byte : ℕ → ℕ
decode_byte b =
    if leb 0x80 b && leb b 0x9f
    then elim (get_elem? high_control_map (b - 0x80)) [ none ↦ 0 | some c ↦ c ]
    else b

unfoldable pub decode : List ℕ → Text
unfolding decode_byte
decode bytes = map decode_byte bytes

-- `iter().position(…)`, counted from `start`.
abbrev position_from : (start : ℕ) → List ℕ → ℕ → Option ℕ
position_from start [] c = none
position_from start (x ∷ xs) c = if x == c then some start else position_from (start + 1) xs c

unfoldable pub encode_char : ℕ → ℕ
encode_char c =
    if leb c 0x7f || leb 0xa0 c && leb c 0xff
    then c
    else elim (position_from 0 high_control_map c) [ none ↦ 0x3f | some i ↦ 0x80 + i ]

unfoldable pub encode : Text → List ℕ
unfolding encode_char
encode text = map encode_char text

encode_char-decode_byte : (b : ℕ) → IsByte b → encode_char (decode_byte b) ≡ b
unfolding encode_char decode_byte all_within
encode_char-decode_byte = eq_below 256 (λ b. encode_char (decode_byte b)) (λ b. b) refl

-- The bytes of a text that was decoded are the bytes it was decoded from.
pub encode-decode_text : (bytes : List ℕ) → All IsByte bytes → encode (decode bytes) ≡ bytes
unfolding encode decode
encode-decode_text [] h = refl
encode-decode_text (b ∷ bytes) h =
    ap₂ (λ x xs. x ∷ xs) (encode_char-decode_byte b h.0) (encode-decode_text bytes h.1)
