-- ===== src/Best/Integers/Keeps.antt =====
-- crates/best/src/exec.rs: the integer instructions and the branches on a machine with its sizes.
use Prim.Native.String.{String}
use klartext.Prelude.{
  arith, refl, ◌==◌, ℕ, Bool, true, false, List, length, ltb, if◌then◌else◌, Result, ok, err,
}
use klartext.Best.Decode.{
  bank_b, bank_i, bank_l, bank_s, bank_f, Operand, no_operand, imm, str, reg, indexed, Op,
}
use klartext.Best.Decode.Reads.{OperandInRange}
use klartext.Best.Machine.{int, Machine}
use klartext.Best.Machine.Bytes.{IsMachine}
use klartext.Best.Machine.Bounds.{Any}
use klartext.Best.Exec.{ExecError, invalid_operand, stack_underflow, lift, value_data_len}
use klartext.Best.Integers.{
  add_to, push_bytes, pop_loop, pop_value, op_comp, op_subb, op_adds, op_bitwise, op_not, op_push,
  op_pop,
}
use klartext.Best.Branches.{jump_by, branch, sign_extended}
use klartext.Best.Exec.Keeps.{
  Keeps, keeps_rules, FlowInRange, Post, sizes, Keeps-lift, Keeps-next, Keeps-write_indexed_dest,
  Keeps-write_to,
}

module _ {F : Type 0} (op : Op) (h : OperandInRange op.arg0) (k : OperandInRange op.arg1) where
  pub op_comp-Keeps : Keeps {F = F} FlowInRange (op_comp op)
  unfolding op_comp
  op_comp-Keeps = search keeps_rules depth 12

  pub op_subb-Keeps : Keeps {F = F} FlowInRange (op_subb op)
  unfolding op_subb
  op_subb-Keeps = search keeps_rules depth 12

  pub op_bitwise-Keeps :
      (mnemonic : String) (f : ℕ → ℕ → ℕ) → Keeps {F = F} FlowInRange (op_bitwise mnemonic f op)
  unfolding op_bitwise
  op_bitwise-Keeps mnemonic f = search keeps_rules depth 12

  pub op_not-Keeps : Keeps {F = F} FlowInRange (op_not op)
  unfolding op_not
  op_not-Keeps = search keeps_rules depth 12

value_data_len-Post :
    (nibble : ℕ) (op : Operand) (mnemonic : String) → Post Any (value_data_len nibble op mnemonic)
unfolding value_data_len
value_data_len-Post nibble no_operand mnemonic = tt
value_data_len-Post nibble (imm v) mnemonic = at_five (nibble == 5) (nibble == 6) (nibble == 7)
  where
    at_five :
        (a b c : Bool)
        → Post {A = ℕ} Any (
            if a
            then ok 1
            else if b
            then ok 2
            else if c
            then ok 4
            else err (invalid_operand mnemonic))
    at_five true b c = tt
    at_five false true c = tt
    at_five false false true = tt
    at_five false false false = tt
value_data_len-Post nibble (str b) mnemonic = tt
value_data_len-Post nibble (reg bank_b idx) mnemonic = tt
value_data_len-Post nibble (reg bank_i idx) mnemonic = tt
value_data_len-Post nibble (reg bank_l idx) mnemonic = tt
value_data_len-Post nibble (reg bank_s idx) mnemonic = tt
value_data_len-Post nibble (reg bank_f idx) mnemonic = tt
value_data_len-Post nibble (indexed base index len) mnemonic = tt

module _ {F : Type 0} where
  pub Keeps-value_data_len :
      (nibble : ℕ) (op : Operand) (mnemonic : String)
      → Keeps {F = F} Any (lift (value_data_len nibble op mnemonic))
  Keeps-value_data_len nibble op mnemonic =
      Keeps-lift (value_data_len nibble op mnemonic) (value_data_len-Post nibble op mnemonic)

  Keeps-push_bytes : (b : List ℕ) → Keeps {F = F} Any (push_bytes b)
  Keeps-push_bytes b = record { at = λ m w. (sizes refl refl refl w, tt) }

  Keeps-pop_value : (len : ℕ) → Keeps {F = F} Any (pop_value len)
  unfolding pop_value
  Keeps-pop_value len = record { at = λ m w. go m w (ltb (length m.data_stack) len) }
    where
      go :
          (m : Machine F)
          → IsMachine m
          → (b : Bool)
          → let out : Result ExecError ℕ × Machine F = elim b [
            | true ↦ (err stack_underflow, m)
            | false ↦ (
              ok (pop_loop len 0 m.data_stack).0,
              record m { data_stack = (pop_loop len 0 m.data_stack).1 },
            )
          ] in
            IsMachine out.1 × Post Any out.0
      go m w true = (w, tt)
      go m w false = (sizes refl refl refl w, tt)

  pub branch-Keeps :
      (mnemonic : String) (op : Op) (b : Bool) → Keeps {F = F} FlowInRange (branch mnemonic op b)
  unfolding branch
  branch-Keeps mnemonic op false = Keeps-next
  branch-Keeps mnemonic op true = go op.arg0
    where
      go :
          (arg0 : Operand)
          → Keeps {F = F} FlowInRange (elim arg0 [
            | imm raw ↦ jump_by (sign_extended raw)
            | _ ↦ lift (err (invalid_operand mnemonic))
          ])
      go (imm raw) = record { at = λ m w. (sizes refl refl refl w, tt) }
      go no_operand = Keeps-lift _ tt
      go (str b) = Keeps-lift _ tt
      go (reg bank idx) = Keeps-lift _ tt
      go (indexed base index len) = Keeps-lift _ tt

  Keeps-add_to : (op : Operand) (sum : ℕ) → OperandInRange op → Keeps {F = F} Any (add_to op sum)
  Keeps-add_to (indexed base index len) sum h =
      Keeps-write_indexed_dest base index len (int sum) 1 h (omega arith)
  Keeps-add_to no_operand sum h = Keeps-write_to no_operand (int sum) h
  Keeps-add_to (imm v) sum h = Keeps-write_to (imm v) (int sum) h
  Keeps-add_to (str b) sum h = Keeps-write_to (str b) (int sum) h
  Keeps-add_to (reg bank idx) sum h = Keeps-write_to (reg bank idx) (int sum) h

ruleset integer_rules =
    (keeps_rules, Keeps-value_data_len, Keeps-push_bytes, Keeps-pop_value, Keeps-add_to)

module _ {F : Type 0} (op : Op) (h : OperandInRange op.arg0) (k : OperandInRange op.arg1) where
  pub op_adds-Keeps : Keeps {F = F} FlowInRange (op_adds op)
  unfolding op_adds
  op_adds-Keeps = search integer_rules depth 12

  pub op_push-Keeps : Keeps {F = F} FlowInRange (op_push op)
  unfolding op_push
  op_push-Keeps = search integer_rules depth 12

  pub op_pop-Keeps : Keeps {F = F} FlowInRange (op_pop op)
  unfolding op_pop
  op_pop-Keeps = search integer_rules depth 12
