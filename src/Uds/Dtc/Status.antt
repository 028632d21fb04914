-- ===== src/Uds/Dtc/Status.antt =====
-- crates/uds/src/dtc.rs: the status byte of a DTC.
use klartext.Prelude.{
  ℕ, ◌/◌, ◌%◌, ◌≡◌, refl, Bool, true, false, not, ◌||◌, bit_and, ◌==◌, if◌then◌else◌, all_within,
  eq_below, IsByte,
}
use klartext.Uds.Dtc.{Dtc, pending, confirmed, is_relevant}

-- Whether the binary digit of weight `weight` is set in the status, read by division.
abbrev pub has_bit : ℕ → ℕ → Bool
has_bit status weight = status / weight % 2 == 1

abbrev pub to_nat : Bool → ℕ
to_nat b = if b then 1 else 0

to_nat-injective : (a b : Bool) → to_nat a ≡ to_nat b → a ≡ b
to_nat-injective true true e = refl
to_nat-injective true false e = absurd (cc e)
to_nat-injective false true e = absurd (cc e)
to_nat-injective false false e = refl

pending_table : (s : ℕ) → IsByte s → to_nat (not (bit_and s 0x04 == 0)) ≡ to_nat (has_bit s 4)
unfolding all_within
pending_table = eq_below 256 _ _ refl

confirmed_table : (s : ℕ) → IsByte s → to_nat (not (bit_and s 0x08 == 0)) ≡ to_nat (has_bit s 8)
unfolding all_within
confirmed_table = eq_below 256 _ _ refl

relevant_table :
    (s : ℕ)
    → IsByte s
    → to_nat (not (bit_and s 0xaf == 0))
      ≡ to_nat (
          has_bit s 1 || has_bit s 2 || has_bit s 4 || has_bit s 8 || has_bit s 32 || has_bit s 128)
unfolding all_within
relevant_table = eq_below 256 _ _ refl

-- The tests on a one-byte status read its binary digits: `pending` the digit of weight 4,
-- `confirmed` the one of weight 8, and `is_relevant` whether any digit is set but those of weight
-- 16 and 64, the two "test not completed" marks.
pub status-bits :
    (d : Dtc)
    → IsByte d.status
    → (pending d ≡ has_bit d.status 4)
      × (confirmed d ≡ has_bit d.status 8)
      × (is_relevant d ≡ (
          has_bit d.status 1
          || has_bit d.status 2
          || has_bit d.status 4
          || has_bit d.status 8
          || has_bit d.status 32
          || has_bit d.status 128))
unfolding pending confirmed is_relevant
status-bits d h = (
  to_nat-injective _ _ (pending_table d.status h),
  to_nat-injective _ _ (confirmed_table d.status h),
  to_nat-injective _ _ (relevant_table d.status h),
)
