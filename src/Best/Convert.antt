-- ===== src/Best/Convert.antt =====
-- crates/best/src/exec.rs: the instructions between integers, texts and bytes, the stack peek and the
-- mask of the traps.
pub mod Keeps
use Prim.Native.String.{String}
use klartext.Prelude.{
  ℕ, zero, suc, ◌+◌, ◌-◌, ◌*◌, ◌/◌, ◌%◌, ◌^◌, Bool, true, false, not, ◌&&◌, ◌||◌, List, [], ◌∷◌,
  Option, none, some, length, leb, ltb, ◌==◌, if◌then◌else◌, Result, ok, err, panic, get_elem?,
}
use klartext.Sgbd.Cp1252.{Text}
use klartext.Best.Decode.{RegBank, bank_b, bank_i, bank_l, Operand, no_operand, imm, reg, Op}
use klartext.Best.Machine.{Flags, Value, int, bytes, Machine}
use klartext.Best.Exec.{
  ExecError, invalid_operand, atsp_stack, user_break, Flow, next, wait, ExecM, ◌>>=◌, lift, pure,
  arg_width, update_zs, as_u32, read_int, write_to, set_flags, value_data_len,
}
use klartext.Best.Moves.{read_bytes}
use klartext.Best.Strings.{read_string, write_string, read_value_data}
use klartext.Best.Texts.{
  string_to_value, clamped, hex_to_bytes, bcd_nibble, hex_digit, nibbles, signed_decimal,
  prefixed_hex, text_to_bytes,
}

abbrev or_zero : Option ℕ → ℕ
or_zero none = 0
or_zero (some n) = n

-- The stack from its top on: the `length` bytes at `index`, the first one highest.
unfoldable pub peek_loop : (count index : ℕ) → List ℕ → (len value : ℕ) → ℕ
peek_loop count index stack zero value = value
peek_loop count index stack (suc len) value =
    peek_loop count (index + 1) stack len
      (as_u32 (value * 256) + or_zero (get_elem? stack (count - 1 - index)))

unfoldable pub peeked : (length pos : ℕ) → List ℕ → Result ExecError ℕ
unfolding peek_loop
peeked len pos stack =
    let count = length stack in
    if ltb count len || ltb pos len || ltb count (pos - len + len)
    then err atsp_stack
    else ok (peek_loop count (pos - len) stack len 0)

-- Whether the conversion is `fix2dez`, which prints a signed number.
unfoldable pub fixed_text :
    (mnemonic : String) → (decimal : Bool) → (len raw : ℕ) → Result ExecError Text
fixed_text mnemonic decimal len raw =
    if len == 1 || len == 2 || len == 4
    then ok (if decimal then signed_decimal (len * 8) raw else prefixed_hex (len * 2) raw)
    else err (invalid_operand mnemonic)

-- The test of `jt` and `jnt`.
unfoldable pub trap_matches : Option ℕ → ℕ → Bool
trap_matches none bit = false
trap_matches (some trap) bit =
    if ltb 0 bit then trap == bit || trap == 0 && bit == 32 else leb 0x40000000 trap

abbrev or_none : Option (List ℕ) → List ℕ × Bool
or_none none = ([], true)
or_none (some b) = (b, false)

-- The width of the source.
unfoldable pub source_len : String → (nibble : ℕ) → Operand → Result ExecError ℕ
unfolding value_data_len
source_len mnemonic nibble (reg bank_b idx) = ok 1
source_len mnemonic nibble (reg bank_i idx) = ok 2
source_len mnemonic nibble (reg bank_l idx) = ok 4
source_len mnemonic nibble (imm v) = value_data_len nibble (imm v) mnemonic
source_len mnemonic nibble _ = ok 1

module _ {F : Type 0} where
  unfoldable pub op_a2fix : Op → ExecM F Flow
  unfolding read_string string_to_value clamped
  op_a2fix op = do
    text ← read_string "a2fix" op.arg1
    written ← write_to op.arg0 (int (clamped (string_to_value text)))
    set ← set_flags (λ flags. record flags { z = false; s = false; v = false })
    pure next

  unfoldable pub op_a2y : Op → ExecM F Flow
  unfolding read_string text_to_bytes
  op_a2y op = do
    text ← read_string "a2y" op.arg1
    written ← write_to op.arg0 (bytes (text_to_bytes text))
    pure next

  unfoldable pub op_hex2y : Op → ExecM F Flow
  unfolding read_string hex_to_bytes
  op_hex2y op = do
    text ← read_string "hex2y" op.arg1
    written ← write_to op.arg0 (bytes (or_none (hex_to_bytes text)).0)
    set ← set_flags (λ flags. record flags { c = (or_none (hex_to_bytes text)).1 })
    pure next

  unfoldable pub op_y2bcd : Op → ExecM F Flow
  unfolding read_bytes write_string nibbles
  op_y2bcd op = do
    b ← read_bytes "y2bcd" op.arg1
    written ← write_string op.arg0 (nibbles bcd_nibble b)
    pure next

  unfoldable pub op_y2hex : Op → ExecM F Flow
  unfolding read_bytes write_string nibbles
  op_y2hex op = do
    b ← read_bytes "y2hex" op.arg1
    written ← write_string op.arg0 (nibbles hex_digit b)
    pure next

  unfoldable pub op_fix2 : String → (decimal : Bool) → Op → ExecM F Flow
  unfolding read_int write_string source_len fixed_text
  op_fix2 mnemonic decimal op = do
    len ← lift (source_len mnemonic (op.mode_byte % 16) op.arg1)
    raw ← read_int mnemonic op.arg1 len
    text ← lift (fixed_text mnemonic decimal len raw)
    written ← write_string op.arg0 text
    pure next

  unfoldable pub op_atsp : Op → ExecM F Flow
  unfolding read_value_data peeked update_zs
  op_atsp op = do
    len ← lift (arg_width "atsp" op.arg0)
    pos ← read_value_data "atsp" op.arg1
    value ← λ m. (peeked len pos m.data_stack, m)
    written ← write_to op.arg0 (int value)
    set ← set_flags (λ flags. update_zs flags value len)
    pure next

  -- `gettmr`, `settmr`, `clrt` and `wait`, as `step` has them.
  unfoldable pub op_gettmr : Op → ExecM F Flow
  unfolding update_zs
  op_gettmr op = do
    len ← lift (arg_width "gettmr" op.arg0)
    mask ← λ m. (ok m.trap_mask, m)
    written ← write_to op.arg0 (int mask)
    set ← set_flags (λ flags. update_zs flags mask len)
    pure next

  unfoldable pub op_settmr : Op → ExecM F Flow
  unfolding read_value_data
  op_settmr op = do
    mask ← read_value_data "settmr" op.arg0
    set ← λ m. (ok tt, record m { trap_mask = mask })
    pure next

  unfoldable pub op_clrt : ExecM F Flow
  op_clrt m = (ok next, record m { trap_bit = none })

  unfoldable pub op_wait : Op → ExecM F Flow
  unfolding read_value_data
  op_wait op = do seconds ← read_value_data "wait" op.arg0; pure (wait seconds)

  unfoldable pub op_break : ExecM F Flow
  op_break = lift (err user_break)

  unfoldable pub test_bit : Operand → ExecM F ℕ
  unfolding read_value_data
  test_bit no_operand = pure 0
  test_bit arg1 = read_value_data "jt" arg1

  unfoldable pub trap_detected : Op → ExecM F Bool
  unfolding test_bit trap_matches
  trap_detected op = do bit ← test_bit op.arg1; λ m. (ok (trap_matches m.trap_bit bit), m)
