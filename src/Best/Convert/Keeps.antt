-- ===== src/Best/Convert/Keeps.antt =====
-- crates/best/src/exec.rs: the conversions, the stack peek and the traps on a machine with its sizes.
use Prim.Native.String.{String}
use klartext.Prelude.{ℕ, ◌*◌, ◌==◌, ◌||◌, Bool, true, false, if◌then◌else◌, ok, err, refl}
use klartext.Best.Decode.{
  bank_b, bank_i, bank_l, bank_s, bank_f, Operand, no_operand, imm, str, reg, indexed, Op,
}
use klartext.Best.Decode.Reads.{OperandInRange}
use klartext.Best.Machine.Bounds.{Any}
use klartext.Best.Exec.{ExecError, invalid_operand, atsp_stack, user_break, wait, lift, pure}
use klartext.Best.Exec.Keeps.{Keeps, FlowInRange, Post, Sound, sizes, Keeps-lift, Keeps-pure}
use klartext.Best.Integers.Keeps.{Keeps-value_data_len}
use klartext.Best.Strings.Keeps.{text_rules, Keeps-read_value_data}
use klartext.Best.Texts.{signed_decimal, prefixed_hex}
use klartext.Best.Convert.{
  peeked, fixed_text, trap_matches, source_len, test_bit, trap_detected, op_a2fix, op_a2y, op_hex2y,
  op_y2bcd, op_y2hex, op_fix2, op_atsp, op_gettmr, op_settmr, op_clrt, op_wait, op_break,
}

either-Post :
    {A : Type 0} (b : Bool) (e : ExecError) (a : A) → Sound e → Post Any (if b then err e else ok a)
either-Post true e a p = p
either-Post false e a p = tt

fixed_text-Post :
    (mnemonic : String) (decimal : Bool) (len raw : ℕ)
    → Post Any (fixed_text mnemonic decimal len raw)
unfolding fixed_text
fixed_text-Post mnemonic decimal len raw = either (len == 1 || len == 2 || len == 4)
  where
    either :
        (b : Bool)
        → Post Any (
            if b
            then ok (if decimal then signed_decimal (len * 8) raw else prefixed_hex (len * 2) raw)
            else err (invalid_operand mnemonic))
    either true = tt
    either false = tt

module _ {F : Type 0} where
  Keeps-fixed_text :
      (mnemonic : String) (decimal : Bool) (len raw : ℕ)
      → Keeps {F = F} Any (lift (fixed_text mnemonic decimal len raw))
  Keeps-fixed_text mnemonic decimal len raw =
      Keeps-lift (fixed_text mnemonic decimal len raw) (fixed_text-Post mnemonic decimal len raw)

  Keeps-source_len :
      (mnemonic : String) (nibble : ℕ) (op : Operand)
      → Keeps {F = F} Any (lift (source_len mnemonic nibble op))
  unfolding source_len
  Keeps-source_len mnemonic nibble no_operand = Keeps-pure 1 tt
  Keeps-source_len mnemonic nibble (imm v) = Keeps-value_data_len nibble (imm v) mnemonic
  Keeps-source_len mnemonic nibble (str b) = Keeps-pure 1 tt
  Keeps-source_len mnemonic nibble (reg bank_b idx) = Keeps-pure 1 tt
  Keeps-source_len mnemonic nibble (reg bank_i idx) = Keeps-pure 2 tt
  Keeps-source_len mnemonic nibble (reg bank_l idx) = Keeps-pure 4 tt
  Keeps-source_len mnemonic nibble (reg bank_s idx) = Keeps-pure 1 tt
  Keeps-source_len mnemonic nibble (reg bank_f idx) = Keeps-pure 1 tt
  Keeps-source_len mnemonic nibble (indexed base index len) = Keeps-pure 1 tt

  Keeps-peeked : (len pos : ℕ) → Keeps {F = F} Any (λ m. (peeked len pos m.data_stack, m))
  unfolding peeked
  Keeps-peeked len pos = record { at = λ m w. (w, either-Post _ atsp_stack _ tt) }

  Keeps-trap_mask : Keeps {F = F} {A = ℕ} Any (λ m. (ok m.trap_mask, m))
  Keeps-trap_mask = record { at = λ m w. (w, tt) }

  Keeps-set_mask :
      (mask : ℕ) → Keeps {F = F} {A = Unit {0}} Any (λ m. (ok tt, record m { trap_mask = mask }))
  Keeps-set_mask mask = record { at = λ m w. (sizes refl refl refl w, tt) }

  Keeps-matches :
      (bit : ℕ) → Keeps {F = F} {A = Bool} Any (λ m. (ok (trap_matches m.trap_bit bit), m))
  Keeps-matches bit = record { at = λ m w. (w, tt) }

  Keeps-wait : (seconds : ℕ) → Keeps {F = F} FlowInRange (pure (wait seconds))
  Keeps-wait seconds = record { at = λ m w. (w, tt) }

  Keeps-test_bit : (op : Operand) → OperandInRange op → Keeps {F = F} Any (test_bit op)
  unfolding test_bit
  Keeps-test_bit no_operand h = Keeps-pure 0 tt
  Keeps-test_bit (imm v) h = Keeps-read_value_data "jt" (imm v) h
  Keeps-test_bit (str b) h = Keeps-read_value_data "jt" (str b) h
  Keeps-test_bit (reg bank idx) h = Keeps-read_value_data "jt" (reg bank idx) h
  Keeps-test_bit (indexed base index len) h = Keeps-read_value_data "jt" (indexed base index len) h

  pub op_clrt-Keeps : Keeps {F = F} FlowInRange op_clrt
  unfolding op_clrt
  op_clrt-Keeps = record { at = λ m w. (sizes refl refl refl w, tt) }

  pub op_break-Keeps : Keeps {F = F} FlowInRange op_break
  unfolding op_break
  op_break-Keeps = Keeps-lift (err user_break) tt

ruleset convert_rules = (
  text_rules, Keeps-fixed_text, Keeps-source_len, Keeps-peeked, Keeps-trap_mask, Keeps-set_mask,
  Keeps-matches, Keeps-wait, Keeps-test_bit,
)

module _ {F : Type 0} (op : Op) (h : OperandInRange op.arg0) (k : OperandInRange op.arg1) where
  pub trap_detected-Keeps : Keeps {F = F} Any (trap_detected op)
  unfolding trap_detected
  trap_detected-Keeps = search convert_rules depth 12

  pub op_a2fix-Keeps : Keeps {F = F} FlowInRange (op_a2fix op)
  unfolding op_a2fix
  op_a2fix-Keeps = search convert_rules depth 12

  pub op_a2y-Keeps : Keeps {F = F} FlowInRange (op_a2y op)
  unfolding op_a2y
  op_a2y-Keeps = search convert_rules depth 12

  pub op_hex2y-Keeps : Keeps {F = F} FlowInRange (op_hex2y op)
  unfolding op_hex2y
  op_hex2y-Keeps = search convert_rules depth 12

  pub op_y2bcd-Keeps : Keeps {F = F} FlowInRange (op_y2bcd op)
  unfolding op_y2bcd
  op_y2bcd-Keeps = search convert_rules depth 12

  pub op_y2hex-Keeps : Keeps {F = F} FlowInRange (op_y2hex op)
  unfolding op_y2hex
  op_y2hex-Keeps = search convert_rules depth 12

  pub op_atsp-Keeps : Keeps {F = F} FlowInRange (op_atsp op)
  unfolding op_atsp
  op_atsp-Keeps = search convert_rules depth 12

  pub op_gettmr-Keeps : Keeps {F = F} FlowInRange (op_gettmr op)
  unfolding op_gettmr
  op_gettmr-Keeps = search convert_rules depth 12

  pub op_settmr-Keeps : Keeps {F = F} FlowInRange (op_settmr op)
  unfolding op_settmr
  op_settmr-Keeps = search convert_rules depth 12

  pub op_wait-Keeps : Keeps {F = F} FlowInRange (op_wait op)
  unfolding op_wait
  op_wait-Keeps = search convert_rules depth 12

  pub op_fix2-Keeps :
      (mnemonic : String) (decimal : Bool) → Keeps {F = F} FlowInRange (op_fix2 mnemonic decimal op)
  unfolding op_fix2
  op_fix2-Keeps mnemonic decimal = search convert_rules depth 12
