-- ===== src/Best/Moves/Shifts.antt =====
-- crates/best/src/exec.rs: a shift to the left by one place against an addition.
use klartext.Prelude.{ℕ, ◌+◌, ◌*◌, ◌<◌, ◌≡◌, refl, Bool, arith}
use klartext.Best.Machine.{Flags}
use klartext.Best.Exec.{update_zs, set_overflow, set_carry, add_flags, carry_mask, as_u32}
use klartext.Best.Exec.Compare.{
  Width, byte_width, word_width, long_width, digit7, digit8, digit15, digit16, digit31, digit32,
}
use klartext.Best.Moves.{shift_left}

module _ (flags : Flags) (v : ℕ) (carry : Bool) where
  doubled : {len half : ℕ} → Width len half → (shift_left v 1 len carry).1 ≡ as_u32 (v + v)
  unfolding shift_left
  doubled byte_width = ground arith
  doubled word_width = ground arith
  doubled long_width = ground arith

  carried :
      {len half : ℕ}
      → Width len half
      → v < half * 2
      → (shift_left v 1 len carry).0 ≡ (add_flags flags v v len).c
  unfolding shift_left add_flags set_carry carry_mask
  carried byte_width h = rw (digit7 v, digit8 (v + v)) (ground (arith, h))
  carried word_width h = rw (digit15 v, digit16 (v + v)) (ground (arith, h))
  carried long_width h = rw (digit31 v, digit32 (v + v)) (ground (arith, h))

  -- A shift to the left by one place of a value of the width yields what the addition of the value to
  -- itself does, with the carry, the zero flag and the sign flag of that addition.
  pub shift_left-add_flags :
      {len half : ℕ}
      → Width len half
      → v < half * 2
      → ((shift_left v 1 len carry).1 ≡ as_u32 (v + v))
        × ((shift_left v 1 len carry).0 ≡ (add_flags flags v v len).c)
        × ((update_zs flags (shift_left v 1 len carry).1 len).z ≡ (add_flags flags v v len).z)
        × ((update_zs flags (shift_left v 1 len carry).1 len).s ≡ (add_flags flags v v len).s)
  unfolding update_zs add_flags set_carry set_overflow
  shift_left-add_flags {len} w h =
      (doubled w, carried w h, rw (doubled w) refl, rw (doubled w) refl)
