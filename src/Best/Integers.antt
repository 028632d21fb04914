-- ===== src/Best/Integers.antt =====
-- crates/best/src/exec.rs: the instructions that compare and calculate integers, and the data stack.
pub mod Keeps
use Prim.Native.String.{String}
use klartext.Prelude.{
  ℕ, zero, suc, ◌+◌, ◌-◌, ◌*◌, ◌/◌, ◌%◌, ◌^◌, Bool, true, false, not, ◌&&◌, ◌||◌, Option, none,
  some, List, [], ◌∷◌, ◌++◌, length, get_elem?, take, overwrite, grow, leb, ltb, ◌==◌,
  if◌then◌else◌, bit_and, bit_or, Result, ok, err, panic, to_le_bytes,
}
use klartext.Sgbd.Cp1252.{Text}
use klartext.Best.Decode.{
  RegBank, bank_b, bank_i, bank_l, bank_s, bank_f, Operand, no_operand, imm, str, reg, indexed, Op,
}
use klartext.Best.Machine.{
  Flags, Value, int, float, bytes, MachineError, out_of_range, index_out_of_bounds, unsupported,
  Machine, read, write, write_indexed,
}
use klartext.Best.Exec.{
  ExecError, Flow, machine, unimplemented, invalid_operand, stack_underflow, next, jumped, ExecM,
  ◌>>=◌, lift, pure, set_error, trap_bit_no_response, trap_bit_unmapped, arg_width, arith_arg0_len,
  value_mask, sign_mask, carry_mask, update_zs, set_carry, set_overflow, wrapping_neg, wrapping_sub,
  as_u32, sub_flags, add_flags, number_of, logic_flags, value_data_len, set_flags, write_to,
  read_source, write_indexed_dest, int_of, read_int,
}

module _ {F : Type 0} where
  unfoldable pub op_comp : Op → ExecM F Flow
  unfolding read_int
  op_comp op = do
    len ← lift (arith_arg0_len "comp" op.arg0)
    v0 ← read_int "comp" op.arg0 len
    v1 ← read_int "comp" op.arg1 len
    set ← set_flags (λ flags. sub_flags flags v0 v1 len)
    pure next

  unfoldable pub op_subb : Op → ExecM F Flow
  unfolding read_int
  op_subb op = do
    len ← lift (arg_width "subb" op.arg0)
    v0 ← read_int "subb" op.arg0 len
    v1 ← read_int "subb" op.arg1 len
    written ← write_to op.arg0 (int (as_u32 (wrapping_sub v0 v1)))
    set ← set_flags (λ flags. sub_flags flags v0 v1 len)
    pure next

  -- A store of `adds` to its first operand.
  abbrev pub add_to : Operand → ℕ → ExecM F (Unit {0})
  add_to (indexed base index len) sum = write_indexed_dest (indexed base index len) (int sum) 1
  add_to arg0 sum = write_to arg0 (int sum)

  unfoldable pub op_adds : Op → ExecM F Flow
  unfolding read_int write_indexed_dest
  op_adds op = do
    len ← lift (arith_arg0_len "adds" op.arg0)
    v0 ← read_int "adds" op.arg0 len
    v1 ← read_int "adds" op.arg1 len
    written ← add_to op.arg0 (as_u32 (v0 + v1))
    set ← set_flags (λ flags. add_flags flags v0 v1 len)
    pure next

  unfoldable pub op_bitwise : String → (ℕ → ℕ → ℕ) → Op → ExecM F Flow
  unfolding read_int logic_flags
  op_bitwise mnemonic f op = do
    len ← lift (arg_width mnemonic op.arg0)
    v0 ← read_int mnemonic op.arg0 len
    v1 ← read_int mnemonic op.arg1 len
    written ← write_to op.arg0 (int (f v0 v1))
    set ← set_flags (λ flags. logic_flags flags (f v0 v1) len)
    pure next

  unfoldable pub op_not : Op → ExecM F Flow
  unfolding read_int logic_flags
  op_not op = do
    len ← lift (arg_width "not" op.arg0)
    v ← read_int "not" op.arg0 len
    written ← write_to op.arg0 (int (2 ^ 32 - 1 - v))
    set ← set_flags (λ flags. logic_flags flags (2 ^ 32 - 1 - v) len)
    pure next

  -- The data stack has its top at the end of the list.
  abbrev pub push_bytes : List ℕ → ExecM F (Unit {0})
  push_bytes b m = (ok tt, record m { data_stack = m.data_stack ++ b })

  unfoldable pub op_push : Op → ExecM F Flow
  unfolding read_int value_data_len
  op_push op = do
    len ← lift (value_data_len (op.mode_byte / 16) op.arg0 "push")
    v ← read_int "push" op.arg0 len
    pushed ← push_bytes (to_le_bytes len v)
    pure next

-- The last element taken off a stack, and the loop of `pop` with the value so far.
abbrev pub pop_byte : List ℕ → ℕ × List ℕ
pop_byte stack = (
  elim (get_elem? stack (length stack - 1)) [ none ↦ 0 | some b ↦ b ],
  take (length stack - 1) stack,
)

unfoldable pub pop_loop : ℕ → ℕ → List ℕ → ℕ × List ℕ
pop_loop zero value stack = (value, stack)
pop_loop (suc len) value stack =
    let popped = pop_byte stack in pop_loop len (as_u32 (value * 256) + popped.0) popped.1

module _ {F : Type 0} where
  unfoldable pub pop_value : ℕ → ExecM F ℕ
  unfolding pop_loop
  pop_value len m =
      let popped = pop_loop len 0 m.data_stack in
      elim (ltb (length m.data_stack) len) [
        | true ↦ (err stack_underflow, m)
        | false ↦ (ok popped.0, record m { data_stack = popped.1 })
      ]

  unfoldable pub op_pop : Op → ExecM F Flow
  unfolding pop_value logic_flags
  op_pop op = do
    len ← lift (arg_width "pop" op.arg0)
    value ← pop_value len
    written ← write_to op.arg0 (int value)
    set ← set_flags (λ flags. logic_flags flags value len)
    pure next
