-- ===== src/Best/Exec/Compare.antt =====
-- crates/best/src/exec.rs: what the branches after a comparison decide.
use klartext.Prelude.{
  ℕ, ◌+◌, ◌*◌, ◌/◌, ◌%◌, ◌<◌, ◌≡◌, ◌≢◌, refl, sym, ap, ap₂, ◌∙◌, Bool, true, false, not, ◌&&◌, ◌||◌,
  ltb, leb, ◌==◌, bit_and, bit_and-power, bit_and_low_byte, bit_and_low_16, bit_and_low_32, arith,
}
use klartext.Best.Machine.{Flags}
use klartext.Best.Exec.{
  value_mask, sign_mask, carry_mask, update_zs, set_carry, set_overflow, wrapping_neg, wrapping_sub,
  as_u32, sub_flags,
}
use klartext.Best.Branches.{taken, same}

-- The widths of a register, with the half of the range of their values.
pub data Width : (len half : ℕ) → Type 0 where
  byte_width : Width 1 0x80
  word_width : Width 2 0x8000
  long_width : Width 4 0x80000000

pub digit7 : (n : ℕ) → bit_and n 0x80 ≡ n / 0x80 % 2 * 0x80
digit7 = bit_and-power 7

pub digit15 : (n : ℕ) → bit_and n 0x8000 ≡ n / 0x8000 % 2 * 0x8000
digit15 = bit_and-power 15

pub digit31 : (n : ℕ) → bit_and n 0x80000000 ≡ n / 0x80000000 % 2 * 0x80000000
digit31 = bit_and-power 31

pub digit8 : (n : ℕ) → bit_and n 0x100 ≡ n / 0x100 % 2 * 0x100
digit8 = bit_and-power 8

pub digit16 : (n : ℕ) → bit_and n 0x10000 ≡ n / 0x10000 % 2 * 0x10000
digit16 = bit_and-power 16

pub digit32 : (n : ℕ) → bit_and n 0x100000000 ≡ n / 0x100000000 % 2 * 0x100000000
digit32 = bit_and-power 32

module _ (flags : Flags) (v0 v1 : ℕ) where
  sub_carry :
      {len half : ℕ}
      → Width len half
      → v0 < half * 2
      → v1 < half * 2
      → (sub_flags flags v0 v1 len).c ≡ ltb v0 v1
  unfolding sub_flags set_carry carry_mask
  sub_carry byte_width h k = rw (digit8 (wrapping_sub v0 v1)) (ground (arith, h, k))
  sub_carry word_width h k = rw (digit16 (wrapping_sub v0 v1)) (ground (arith, h, k))
  sub_carry long_width h k = rw (digit32 (wrapping_sub v0 v1)) (ground (arith, h, k))

  sub_zero :
      {len half : ℕ}
      → Width len half
      → v0 < half * 2
      → v1 < half * 2
      → (sub_flags flags v0 v1 len).z ≡ (v0 == v1)
  unfolding sub_flags set_carry set_overflow update_zs value_mask
  sub_zero byte_width h k =
      rw (bit_and_low_byte (as_u32 (wrapping_sub v0 v1))) (ground (arith, h, k))
  sub_zero word_width h k = rw (bit_and_low_16 (as_u32 (wrapping_sub v0 v1))) (ground (arith, h, k))
  sub_zero long_width h k = rw (bit_and_low_32 (as_u32 (wrapping_sub v0 v1))) (ground (arith, h, k))

  -- Two's complement order is the order of the values with their sign bit flipped.
  sub_signed :
      {len half : ℕ}
      → Width len half
      → v0 < half * 2
      → v1 < half * 2
      → v1 ≢ half
      → same (sub_flags flags v0 v1 len).s (sub_flags flags v0 v1 len).v
        ≡ leb ((v1 + half) % (half * 2)) ((v0 + half) % (half * 2))
  unfolding sub_flags set_carry set_overflow update_zs sign_mask
  sub_signed byte_width h k ne =
      rw (digit7 (as_u32 (wrapping_sub v0 v1)), digit7 v0, digit7 (wrapping_neg v1))
        (ground (arith, h, k, ne))
  sub_signed word_width h k ne =
      rw (digit15 (as_u32 (wrapping_sub v0 v1)), digit15 v0, digit15 (wrapping_neg v1))
        (ground (arith, h, k, ne))
  sub_signed long_width h k ne =
      rw (digit31 (as_u32 (wrapping_sub v0 v1)), digit31 v0, digit31 (wrapping_neg v1))
        (ground (arith, h, k, ne))

  -- The exception: against the least value every value but itself is taken for less.
  sub_signed_min :
      {len half : ℕ}
      → Width len half
      → v0 < half * 2
      → v1 ≡ half
      → same (sub_flags flags v0 v1 len).s (sub_flags flags v0 v1 len).v ≡ false
  unfolding sub_flags set_carry set_overflow update_zs sign_mask
  sub_signed_min byte_width h e =
      rw (digit7 (as_u32 (wrapping_sub v0 v1)), digit7 v0, digit7 (wrapping_neg v1))
        (ground (arith, h, e))
  sub_signed_min word_width h e =
      rw (digit15 (as_u32 (wrapping_sub v0 v1)), digit15 v0, digit15 (wrapping_neg v1))
        (ground (arith, h, e))
  sub_signed_min long_width h e =
      rw (digit31 (as_u32 (wrapping_sub v0 v1)), digit31 v0, digit31 (wrapping_neg v1))
        (ground (arith, h, e))

-- A value read as a signed number, moved up by `half` so that it is none below zero.
abbrev pub biased : (half v : ℕ) → ℕ
biased half v = (v + half) % (half * 2)

half-lt : {len half : ℕ} → Width len half → half < half * 2
half-lt byte_width = omega arith
half-lt word_width = omega arith
half-lt long_width = omega arith

-- Different values stay different.
biased-eq :
    {len half : ℕ} (v0 v1 : ℕ)
    → Width len half
    → v0 < half * 2
    → v1 < half * 2
    → (biased half v0 == biased half v1) ≡ (v0 == v1)
biased-eq v0 v1 byte_width h k = ground (arith, h, k)
biased-eq v0 v1 word_width h k = ground (arith, h, k)
biased-eq v0 v1 long_width h k = ground (arith, h, k)

module _ (a b : ℕ) where
  above : (not (ltb a b) && not (a == b)) ≡ ltb b a
  above = ground arith

  at_most : (ltb a b || (a == b)) ≡ leb a b
  at_most = ground arith

  not_below : not (ltb a b) ≡ leb b a
  not_below = ground arith

  at_least : ((a == b) || leb b a) ≡ leb b a
  at_least = ground arith

  below : (not (a == b) && not (leb b a)) ≡ ltb a b
  below = ground arith

  over : (leb b a && not (a == b)) ≡ ltb b a
  over = ground arith

  not_over : (not (leb b a) || (a == b)) ≡ leb a b
  not_over = ground arith

-- The ten branches on the order after the flags of `comp` and `subb` for two values `v0` and `v1` that
-- both fit the width: `jc`, `jae`, `jz`, `jnz`, `ja` and `jbe` decide as the order of the values, `jg`,
-- `jge`, `jl` and `jle` as their order as signed numbers, for every width and whatever the flags were,
-- unless `v1` is the least signed value.
pub taken-sub_flags :
    {len half : ℕ} (flags : Flags) (v0 v1 : ℕ)
    → Width len half
    → v0 < half * 2
    → v1 < half * 2
    → v1 ≢ half
    → (taken 0x0e (sub_flags flags v0 v1 len) ≡ ltb v0 v1)
      × (taken 0x0f (sub_flags flags v0 v1 len) ≡ leb v1 v0)
      × (taken 0x10 (sub_flags flags v0 v1 len) ≡ (v0 == v1))
      × (taken 0x11 (sub_flags flags v0 v1 len) ≡ not (v0 == v1))
      × (taken 0x5e (sub_flags flags v0 v1 len) ≡ ltb v1 v0)
      × (taken 0x5f (sub_flags flags v0 v1 len) ≡ leb v0 v1)
      × (taken 0x5a (sub_flags flags v0 v1 len) ≡ ltb (biased half v1) (biased half v0))
      × (taken 0x5b (sub_flags flags v0 v1 len) ≡ leb (biased half v1) (biased half v0))
      × (taken 0x5c (sub_flags flags v0 v1 len) ≡ ltb (biased half v0) (biased half v1))
      × (taken 0x5d (sub_flags flags v0 v1 len) ≡ leb (biased half v0) (biased half v1))
unfolding taken
taken-sub_flags {len} {half} flags v0 v1 w h k ne =
    let c = sub_carry flags v0 v1 w h k in
    let z = sub_zero flags v0 v1 w h k in
    let s = sub_signed flags v0 v1 w h k ne in
    let zb = z ∙ sym (biased-eq v0 v1 w h k) in
    (
      c,
      ap not c ∙ not_below v0 v1,
      z,
      ap not z,
      ap₂ (λ x y. not x && not y) c z ∙ above v0 v1,
      ap₂ (λ x y. x || y) c z ∙ at_most v0 v1,
      ap₂ (λ x y. x && not y) s zb ∙ over (biased half v0) (biased half v1),
      ap₂ (λ x y. x || y) zb s ∙ at_least (biased half v0) (biased half v1),
      ap₂ (λ x y. not x && not y) zb s ∙ below (biased half v0) (biased half v1),
      ap₂ (λ x y. not x || y) s zb ∙ not_over (biased half v0) (biased half v1),
    )

-- Against the least signed value, `jl` takes every other value for less, and `jge` takes none but the
-- value itself for greater or equal.
pub taken-sub_flags_min :
    {len half : ℕ} (flags : Flags) (v0 : ℕ)
    → Width len half
    → v0 < half * 2
    → (taken 0x5c (sub_flags flags v0 half len) ≡ not (v0 == half))
      × (taken 0x5b (sub_flags flags v0 half len) ≡ (v0 == half))
unfolding taken
taken-sub_flags_min {len} {half} flags v0 w h =
    let z = sub_zero flags v0 half w h (half-lt w) in
    let s = sub_signed_min flags v0 half w h refl in
    (
      ap₂ (λ x y. not x && not y) z s ∙ and_true (not (v0 == half)),
      ap₂ (λ x y. x || y) z s ∙ or_false (v0 == half),
    )
  where
    and_true : (b : Bool) → (b && true) ≡ b
    and_true true = refl
    and_true false = refl

    or_false : (b : Bool) → (b || false) ≡ b
    or_false true = refl
    or_false false = refl
