-- ===== src/Uds/Nrc/Codes.antt =====
-- crates/uds/src/nrc.rs: a code and its byte determine each other.
use klartext.Prelude.{ℕ, ◌≤◌, ◌≡◌, refl, all_within, eq_below, IsByte, arith}
use klartext.Uds.Nrc

-- The byte of the code read from a byte is that byte.
pub code-from : (byte : ℕ) → IsByte byte → Nrc.code (Nrc.from byte) ≡ byte
unfolding all_within Nrc.from Nrc.code
code-from = eq_below 256 (λ b. Nrc.code (Nrc.from b)) (λ b. b) refl

-- The codes with a name, and the raw bytes of the two ranges that ISO 14229-1 sets apart.
abbrev pub IsStandard : Nrc.Nrc → Type 0
IsStandard (Nrc.secured_data_reserved b) = (0x38 ≤ b) × (b ≤ 0x4f)
IsStandard (Nrc.manufacturer b) = (0xf0 ≤ b) × (b ≤ 0xff)
IsStandard (Nrc.reserved b) = ⊥
IsStandard _ = Unit

-- The code read from the byte of a standard code is that code.
pub from-code : (n : Nrc.Nrc) → IsStandard n → Nrc.from (Nrc.code n) ≡ n
unfolding Nrc.from Nrc.code
from-code (Nrc.secured_data_reserved b) h = ground arith
from-code (Nrc.manufacturer b) h = ground arith
from-code (Nrc.reserved b) h = absurd h
from-code _ h = refl
