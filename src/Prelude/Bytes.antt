-- ===== src/Prelude/Bytes.antt =====
-- Bytes and big-endian words as numbers, and facts about one byte checked over all its values.
use Prim.Native.Nat.{
  ℕ, zero, suc, ◌+◌, ◌*◌, ◌/◌, ◌%◌, ◌^◌, ◌≤◌, ◌<◌, min, digits, bit_and, bit_or, bit_and-bitwise,
}
use mathlib.Core.Path.{◌≡◌, refl, sym, ap, ◌∙◌}
use mathlib.Core.Bool.{Bool, true, false}
use mathlib.Core.List.{List, [], ◌∷◌}
use native.Mathlib.Omega.{arith}
use native.Mathlib.Nat.{div-div-eq-div-mul, mul_assoc}
use klartext.Prelude.Tests.{if◌then◌else◌, ◌==◌, ==_iff}

abbrev pub IsByte : ℕ → Type 0
IsByte b = b < 256

abbrev pub IsU16 : ℕ → Type 0
IsU16 n = n < 2 ^ 16

-- `n.to_be_bytes()` of a `u16` and of a `u32`.
abbrev pub to_be_bytes : ℕ → List ℕ
to_be_bytes n = n / 256 % 256 ∷ n % 256 ∷ []

abbrev pub to_be_bytes32 : ℕ → List ℕ
to_be_bytes32 n = n / 2 ^ 24 % 256 ∷ n / 2 ^ 16 % 256 ∷ n / 256 % 256 ∷ n % 256 ∷ []

-- `from_be_bytes`.
abbrev pub from_be_bytes : ℕ → ℕ → ℕ
from_be_bytes hi lo = hi * 256 + lo

abbrev pub from_be_bytes32 : ℕ → ℕ → ℕ → ℕ → ℕ
from_be_bytes32 a b c d = a * 2 ^ 24 + b * 2 ^ 16 + c * 256 + d

-- A test passed by the `count` numbers from `start` on.
unfoldable pub all_within : (start count : ℕ) → (ℕ → Bool) → Bool
all_within start zero test = true
all_within start (suc count) test = if test start then all_within (start + 1) count test else false

all_within_sound :
    (start count : ℕ) (test : ℕ → Bool)
    → all_within start count test ≡ true
    → (k : ℕ) → k < count
    → test (start + k) ≡ true
unfolding all_within
all_within_sound start zero test passed k lt = absurd (omega arith)
all_within_sound start (suc count) test passed zero lt =
    let here : start + 0 ≡ start = omega arith in rw here (ground (arith, passed))
all_within_sound start (suc count) test passed (suc k) lt =
    let next : start + suc k ≡ start + 1 + k = omega arith in
    rw next (all_within_sound (start + 1) count test (ground (arith, passed)) k (omega arith))

-- Two functions that agree on all bytes below a bound by evaluation are equal there.
pub eq_below :
    (n : ℕ) (f g : ℕ → ℕ) → all_within 0 n (λ x. f x == g x) ≡ true → (x : ℕ) → x < n → f x ≡ g x
eq_below n f g h x lt =
    let same : 0 + x ≡ x = omega arith in
    (==_iff _ _).0 (rw same at (all_within_sound 0 n (λ y. f y == g y) h x lt))

-- `b & 0x3f` is the low six bits.
pub bit_and_low_six : (b : ℕ) → IsByte b → bit_and b 0x3f ≡ b % 64
unfolding all_within
bit_and_low_six = eq_below 256 _ _ refl

-- `0x80 | n` sets the top bit of a number below 128.
pub bit_or_top : (n : ℕ) → n < 128 → bit_or 0x80 n ≡ n + 128
unfolding all_within
bit_or_top = eq_below 128 _ _ refl

-- The number of `k` binary ones, and the lowest `k` binary digits of a number.
abbrev ones : ℕ → ℕ
ones zero = 0
ones (suc k) = ones k * 2 + 1

low_digits : ℕ → ℕ → ℕ
low_digits zero a = 0
low_digits (suc k) a = low_digits k (a / 2) * 2 + a % 2

low_digits-zero : (k : ℕ) → low_digits k 0 ≡ 0
unfolding low_digits
low_digits-zero zero = refl
low_digits-zero (suc k) = omega (arith, low_digits-zero k)

-- A mask of `k` ones keeps the lowest `k` digits.
digits-ones : (n k a : ℕ) → a ≤ n → digits (λ b. 0) min n a (ones k) ≡ low_digits k a
unfolding low_digits
digits-ones zero k zero h = sym (low_digits-zero k)
digits-ones zero k (suc a) h = absurd (omega arith)
digits-ones (suc n) k zero h = sym (low_digits-zero k)
digits-ones (suc n) zero (suc a) h = omega (arith, digits-ones n zero (suc a / 2) (omega arith))
digits-ones (suc n) (suc k) (suc a) h =
    let e : (ones k * 2 + 1) / 2 ≡ ones k = omega arith in
    rw e (omega (arith, digits-ones n k (suc a / 2) (omega arith)))

-- `n & 0xff` is the low byte of a number of any size.
pub bit_and_low_byte : (n : ℕ) → bit_and n 0xff ≡ n % 256
unfolding low_digits
bit_and_low_byte n = omega (arith, bit_and-bitwise n 0xff, digits-ones n 8 n (omega arith))

-- The test of the binary digit `k`.
abbrev pub power : ℕ → ℕ
power zero = 1
power (suc k) = power k * 2

digit_at : ℕ → ℕ → ℕ
digit_at zero a = a % 2
digit_at (suc k) a = digit_at k (a / 2) * 2

digit_at-zero : (k : ℕ) → digit_at k 0 ≡ 0
unfolding digit_at
digit_at-zero zero = omega arith
digit_at-zero (suc k) = omega (arith, digit_at-zero k)

digits-none : (n a : ℕ) → digits (λ b. 0) min n a 0 ≡ 0
digits-none zero a = refl
digits-none (suc n) zero = refl
digits-none (suc n) (suc a) = omega (arith, digits-none n (suc a / 2))

digits-power : (n k a : ℕ) → a ≤ n → digits (λ b. 0) min n a (power k) ≡ digit_at k a
unfolding digit_at
digits-power zero k zero h = sym (digit_at-zero k)
digits-power zero k (suc a) h = absurd (omega arith)
digits-power (suc n) k zero h = sym (digit_at-zero k)
digits-power (suc n) zero (suc a) h = omega (arith, digits-none n (suc a / 2))
digits-power (suc n) (suc k) (suc a) h =
    let e : power k * 2 / 2 ≡ power k = omega arith in
    rw e (omega (arith, digits-power n k (suc a / 2) (omega arith)))

digit_at-eq : (k a : ℕ) → digit_at k a ≡ a / power k % 2 * power k
unfolding digit_at
digit_at-eq zero a = let e : a / 1 ≡ a = omega arith in rw e (omega arith)
digit_at-eq (suc k) a =
    let swapped : 2 * power k ≡ power k * 2 = omega arith in
    ap (λ x. x * 2) (digit_at-eq k (a / 2))
    ∙ mul_assoc (a / 2 / power k % 2) (power k) 2
    ∙ ap (λ x. x % 2 * (power k * 2)) (div-div-eq-div-mul a 2 (power k) ∙ ap (λ x. a / x) swapped)

-- `n & (1 << k)` is the binary digit `k` in its place.
pub bit_and-power : (k n : ℕ) → bit_and n (power k) ≡ n / power k % 2 * power k
bit_and-power k n = bit_and-bitwise n (power k) ∙ digits-power n k n (omega arith) ∙ digit_at-eq k n

-- `n & 0xffff` and `n & 0xffffffff`.
pub bit_and_low_16 : (n : ℕ) → bit_and n 0xffff ≡ n % 2 ^ 16
unfolding low_digits
bit_and_low_16 n = omega (arith, bit_and-bitwise n 0xffff, digits-ones n 16 n (omega arith))

pub bit_and_low_32 : (n : ℕ) → bit_and n 0xffffffff ≡ n % 2 ^ 32
unfolding low_digits
bit_and_low_32 n = omega (arith, bit_and-bitwise n 0xffffffff, digits-ones n 32 n (omega arith))
