-- ===== src/Best/Texts.antt =====
-- crates/best/src/exec.rs: numbers and bytes as text, and back. A text is the list of its code points,
-- and an `i64` the number of its 64 bits.
use klartext.Prelude.{
  ℕ, zero, suc, ◌+◌, ◌-◌, ◌*◌, ◌/◌, ◌%◌, ◌^◌, Bool, true, false, ◌&&◌, ◌||◌, List, [], ◌∷◌, ◌++◌,
  map, Option, none, some, length, take, drop, replicate, leb, ltb, ◌==◌, if◌then◌else◌,
}
use mathlib.Core.List.{reverse}
use klartext.Sgbd.Cp1252.{Text}
use klartext.Sgbd.Program.{texts_equal, is_empty, lowercase}

-- `char::is_ascii_digit`, `is_ascii_alphabetic` and `is_whitespace`.
abbrev pub is_digit : ℕ → Bool
is_digit c = leb 0x30 c && leb c 0x39

abbrev is_alphabetic : ℕ → Bool
is_alphabetic c = leb 0x41 c && leb c 0x5a || leb 0x61 c && leb c 0x7a

abbrev is_whitespace : ℕ → Bool
is_whitespace c =
    leb 0x09 c && leb c 0x0d
    || c == 0x20
    || c == 0x85
    || c == 0xa0
    || c == 0x1680
    || leb 0x2000 c && leb c 0x200a
    || c == 0x2028
    || c == 0x2029
    || c == 0x202f
    || c == 0x205f
    || c == 0x3000

-- `eq_ignore_ascii_case`
abbrev pub eq_ignore_case : Text → Text → Bool
eq_ignore_case a b = texts_equal (map lowercase a) (map lowercase b)

abbrev trim_start : Text → Text
trim_start [] = []
trim_start (c ∷ text) = if is_whitespace c then trim_start text else c ∷ text

abbrev trim_end : Text → Text
trim_end text = reverse (trim_start (reverse text))

abbrev pub trim : Text → Text
trim text = trim_start (trim_end text)

-- `split` at each of the characters of a test.
abbrev pub split : (ℕ → Bool) → Text → List Text
split at [] = [] ∷ []
split at (c ∷ text) =
    let rest = split at text in
    if at c
    then [] ∷ rest
    else elim rest [ [] ↦ (c ∷ []) ∷ [] | ◌∷◌ first others ↦ (c ∷ first) ∷ others ]

-- `char::to_digit`
abbrev pub to_digit : (radix c : ℕ) → Option ℕ
to_digit radix c =
    let d =
      if is_digit c
      then c - 0x30
      else if leb 0x61 (lowercase c) && leb (lowercase c) 0x7a
      then lowercase c - 0x57
      else 99 in
    if ltb d radix then some d else none

-- The number that digits spell after the number so far, unless one of them is no digit.
unfoldable pub digits_value : (radix : ℕ) → ℕ → Text → Option ℕ
digits_value radix n [] = some n
digits_value radix n (c ∷ text) = elim (to_digit radix c) [
  | none ↦ none
  | some d ↦ digits_value radix (n * radix + d) text
]

-- A number of at least one digit, below a bound.
abbrev bounded : (radix bound : ℕ) → Text → Option ℕ
bounded radix bound [] = none
bounded radix bound (c ∷ text) = elim (digits_value radix 0 (c ∷ text)) [
  | none ↦ none
  | some n ↦ if ltb n bound then some n else none
]

abbrev negated_bits : Option ℕ → Option ℕ
negated_bits none = none
negated_bits (some n) = some ((2 ^ 64 - n) % 2 ^ 64)

-- `i64::from_str_radix`, with a sign, and `u8::from_str_radix` of a text without one.
unfoldable pub i64_from_str : (radix : ℕ) → Text → Option ℕ
unfolding digits_value
i64_from_str radix [] = none
i64_from_str radix (c ∷ text) =
    if c == 0x2d
    then negated_bits (bounded radix (2 ^ 63 + 1) text)
    else if c == 0x2b
    then bounded radix (2 ^ 63) text
    else bounded radix (2 ^ 63) (c ∷ text)

unfoldable pub u8_from_str : Text → Option ℕ
unfolding digits_value
u8_from_str text = bounded 16 256 text

abbrev or_zero : Option ℕ → ℕ
or_zero none = 0
or_zero (some n) = n

abbrev starts_with : (ℕ → Bool) → Text → Bool
starts_with test [] = false
starts_with test (c ∷ text) = test c

-- The text up to a decimal separator.
abbrev before_point : Text → Text
before_point [] = []
before_point (c ∷ text) = if c == 0x2e || c == 0x2c then [] else c ∷ before_point text

-- The branches of `string_to_value` on the trimmed text and on its lower case.
unfoldable pub value_of : (trimmed lower : Text) → ℕ
unfolding i64_from_str
value_of trimmed lower =
    if is_empty trimmed
    then 0
    else if texts_equal (take 2 lower) (0x30 ∷ 0x78 ∷ [])
    then (if starts_with (λ c. is_digit c || leb 0x61 c && leb c 0x66) (drop 2 lower)
        then or_zero (i64_from_str 16 (drop 2 trimmed))
        else 0)
    else if texts_equal (take 2 lower) (0x30 ∷ 0x79 ∷ [])
    then or_zero (i64_from_str 2 (drop 2 lower))
    else if texts_equal lower (0x2d ∷ []) || texts_equal lower (0x2d ∷ 0x2d ∷ [])
    then 0
    else if starts_with is_alphabetic lower
    then 0
    else or_zero (i64_from_str 10 (before_point (trim_start trimmed)))

unfoldable pub string_to_value : Text → ℕ
unfolding value_of
string_to_value number = value_of (trim_end number) (map lowercase (trim_end number))

-- The clamp of `a2fix`, as a `u32`.
unfoldable pub clamped : ℕ → ℕ
clamped v =
    if leb (2 ^ 63) v
    then (if ltb v (2 ^ 64 - 2 ^ 31) then 2 ^ 31 else v % 2 ^ 32)
    else if ltb (2 ^ 31 - 1) v
    then 0xffffffff
    else v

unfoldable pub hex_to_bytes : Text → Option (List ℕ)
hex_to_bytes [] = some []
hex_to_bytes (a ∷ []) = some []
hex_to_bytes (a ∷ b ∷ text) = elim (to_digit 16 a) [
  | none ↦ none
  | some hi ↦ elim (to_digit 16 b) [
    | none ↦ none
    | some lo ↦ elim (hex_to_bytes text) [ none ↦ none | some rest ↦ some ((hi * 16 + lo) ∷ rest) ]
  ]
]

unfoldable pub bcd_nibble : ℕ → ℕ
bcd_nibble nibble = if ltb 9 nibble then 0x2a else 0x30 + nibble

unfoldable pub hex_digit : ℕ → ℕ
hex_digit nibble = if ltb 9 nibble then 0x37 + nibble else 0x30 + nibble

-- The digits of each byte, the high one first.
unfoldable pub nibbles : (ℕ → ℕ) → List ℕ → Text
nibbles digit [] = []
nibbles digit (b ∷ bytes) = digit (b / 16) ∷ digit (b % 16) ∷ nibbles digit bytes

-- The digits of a number, on as much fuel as the number has digits.
abbrev numeral : (fuel radix n : ℕ) → Text
numeral zero radix n = []
numeral (suc fuel) radix n =
    let rest = numeral fuel radix (n / radix) in
    if ltb n radix then hex_digit n ∷ [] else rest ++ hex_digit (n % radix) ∷ []

-- `{}` of an integer of `bits` bits in two's complement, and `0x{:0width$X}`, of numbers below
-- `2 ^ 32`, which have at most ten digits.
unfoldable pub signed_decimal : (bits n : ℕ) → Text
signed_decimal bits n =
    let low = n % 2 ^ bits in
    if leb (2 ^ (bits - 1)) low then 0x2d ∷ numeral 10 10 (2 ^ bits - low) else numeral 10 10 low

unfoldable pub prefixed_hex : (width n : ℕ) → Text
prefixed_hex width n =
    let digits = numeral 8 16 n in 0x30 ∷ 0x78 ∷ replicate (width - length digits) 0x30 ++ digits

-- `args` as text, split at semicolons: each byte is the character of its code.
unfoldable pub arg_strings : List ℕ → List Text
arg_strings [] = []
arg_strings (b ∷ args) = split (λ c. c == 0x3b) (b ∷ args)

-- The characters that `a2y` takes, as far as they go.
abbrev accepted : Text → Text
accepted [] = []
accepted (c ∷ text) =
    let l = lowercase c in
    if is_digit l || leb 0x61 l && leb l 0x66 || l == 0x20 || l == 0x3b || l == 0x2c
    then c ∷ accepted text
    else []

-- The bytes of the tokens of a field, and whether a token was none.
abbrev tokens : List Text → List ℕ × Bool
tokens [] = ([], false)
tokens (token ∷ rest) = if is_empty token then tokens rest else elim (u8_from_str token) [
  | none ↦ ([], true)
  | some byte ↦ (byte ∷ (tokens rest).0, (tokens rest).1)
]

abbrev fields : List Text → List ℕ
fields [] = []
fields (field ∷ rest) =
    let bytes = tokens (split (λ c. c == 0x20) (trim field)) in
    if is_empty (trim field)
    then replicate (length field + 1) 0 ++ fields rest
    else if bytes.1
    then bytes.0
    else bytes.0 ++ fields rest

unfoldable pub text_to_bytes : Text → List ℕ
text_to_bytes [] = []
text_to_bytes (c ∷ text) = fields (split (λ c. c == 0x2c || c == 0x3b) (accepted (c ∷ text)))
