-- ===== src/Best/Exec.antt =====
-- crates/best/src/exec.rs: the errors and the flow of an instruction, the flags, and the reads and writes
-- that the instructions share. A `u32` is a number below `2 ^ 32`.
pub mod Compare
pub mod Stack
pub mod Keeps
use Prim.Native.String.{String}
use klartext.Prelude.{
  ℕ, zero, suc, ◌+◌, ◌-◌, ◌*◌, ◌/◌, ◌%◌, ◌^◌, Bool, true, false, not, ◌&&◌, ◌||◌, Option, none,
  some, List, [], ◌∷◌, ◌++◌, length, get_elem?, take, overwrite, grow, leb, ltb, ◌==◌,
  if◌then◌else◌, bit_and, bit_or, Result, ok, err, panic, to_le_bytes,
}
use klartext.Sgbd.Cp1252.{Text}
use klartext.Best.Decode.{
  RegBank, bank_b, bank_i, bank_l, bank_s, bank_f, Operand, no_operand, imm, str, reg, indexed, Op,
}
use klartext.Best.Machine.{
  Flags, Value, int, float, bytes, MachineError, out_of_range, index_out_of_bounds, unsupported,
  Machine, read, write, write_indexed,
}

-- A mnemonic is the name of its instruction.
pub data ExecError : Type 0 where
  machine : MachineError → ExecError
  unimplemented invalid_operand non_finite table_not_selected table_row : String → ExecError
  divide_by_zero stack_underflow user_break atsp_stack : ExecError
  bad_float_string table_not_found : Text → ExecError
  table_column : String → Text → ExecError
  trapped : ℕ → ExecError

pub data Flow : Type 0 where
  next jumped end_of_job : Flow
  exchange : (request : List ℕ) → (dest : Operand) → Flow
  wait : (seconds : ℕ) → Flow

-- An action on `&mut Machine` that can fail; a failure leaves what was done before it.
abbrev pub ExecM : Type 0 → Type 0 → Type 0
ExecM F A = Machine F → Result ExecError A × Machine F

infixl 5 ◌>>=◌
abbrev pub ◌>>=◌ : {F A B : Type 0} → ExecM F A → (A → ExecM F B) → ExecM F B
◌>>=◌ act f m =
    let first = act m in
    elim first.0 [ ok a ↦ f a first.1 | err e ↦ (err e, first.1) | panic ↦ (panic, first.1) ]

abbrev pub lift : {F A : Type 0} → Result ExecError A → ExecM F A
lift result m = (result, m)

abbrev pub pure : {F A : Type 0} → A → ExecM F A
pure a = lift (ok a)

-- `1u64 << bit` for a bit below 64, and the complement of a `u32` as a `u64`.
abbrev pub set_error : {F : Type 0} → ℕ → ExecM F (Unit {0})
set_error bit m =
    let trapping : Machine _ = record m { trap_bit = some bit } in
    (
      if bit_and (2 ^ bit) (2 ^ 64 - 1 - m.trap_mask) == 0 then ok tt else err (trapped bit),
      trapping,
    )

-- `TRAP_BIT_NO_RESPONSE` and `TRAP_BIT_UNMAPPED`
abbrev pub trap_bit_no_response : ℕ
trap_bit_no_response = 19

abbrev pub trap_bit_unmapped : ℕ
trap_bit_unmapped = 0

unfoldable pub arg_width : String → Operand → Result ExecError ℕ
arg_width mnemonic (reg bank_b idx) = ok 1
arg_width mnemonic (reg bank_i idx) = ok 2
arg_width mnemonic (reg bank_l idx) = ok 4
arg_width mnemonic _ = err (invalid_operand mnemonic)

unfoldable pub arith_arg0_len : String → Operand → Result ExecError ℕ
unfolding arg_width
arith_arg0_len mnemonic (indexed base index none) = ok 1
arith_arg0_len mnemonic arg0 = arg_width mnemonic arg0

-- `masks(len)`: the bits of a value of `len` bytes, and its sign bit.
unfoldable pub value_mask : ℕ → ℕ
value_mask len = if len == 1 then 0xff else if len == 2 then 0xffff else 0xffffffff

unfoldable pub sign_mask : ℕ → ℕ
sign_mask len = if len == 1 then 0x80 else if len == 2 then 0x8000 else 0x80000000

unfoldable pub carry_mask : ℕ → ℕ
carry_mask len = if len == 1 then 0x100 else if len == 2 then 0x10000 else 0x100000000

unfoldable pub update_zs : Flags → (value len : ℕ) → Flags
unfolding value_mask sign_mask
update_zs flags value len = record flags {
  z = bit_and value (value_mask len) == 0;
  s = not (bit_and value (sign_mask len) == 0);
}

unfoldable pub set_carry : Flags → (value len : ℕ) → Flags
unfolding carry_mask
set_carry flags value len = record flags { c = not (bit_and value (carry_mask len) == 0) }

unfoldable pub set_overflow : Flags → (v0 v1 result len : ℕ) → Flags
unfolding sign_mask
set_overflow flags v0 v1 result len =
    let s0 = bit_and v0 (sign_mask len) in
    let s1 = bit_and v1 (sign_mask len) in
    let sr = bit_and result (sign_mask len) in record flags { v = (s0 == s1) && not (s0 == sr) }

-- `wrapping_neg` of a `u32`, and `wrapping_sub` of two `u64`.
abbrev pub wrapping_neg : ℕ → ℕ
wrapping_neg v = (2 ^ 32 - v) % 2 ^ 32

abbrev pub wrapping_sub : ℕ → ℕ → ℕ
wrapping_sub a b = (2 ^ 64 + a - b) % 2 ^ 64

abbrev pub as_u32 : ℕ → ℕ
as_u32 v = v % 2 ^ 32

-- The flags of `comp` and `subb`, and of `adds`, from the two values.
unfoldable pub sub_flags : Flags → (v0 v1 len : ℕ) → Flags
unfolding update_zs set_overflow set_carry
sub_flags flags v0 v1 len =
    let diff = wrapping_sub v0 v1 in
    set_carry
      (set_overflow (update_zs flags (as_u32 diff) len) v0 (wrapping_neg v1) (as_u32 diff) len) diff
      len

unfoldable pub add_flags : Flags → (v0 v1 len : ℕ) → Flags
unfolding update_zs set_overflow set_carry
add_flags flags v0 v1 len =
    let sum = v0 + v1 in
    set_carry (set_overflow (update_zs flags (as_u32 sum) len) v0 v1 (as_u32 sum) len) sum len

-- The first `len` bytes as a little-endian number, zeros where there are none.
unfoldable pub number_of : List ℕ → ℕ → ℕ
number_of b zero = 0
number_of [] (suc len) = 0
number_of (x ∷ xs) (suc len) = number_of xs len * 256 + x

-- The flags of the bitwise instructions.
unfoldable pub logic_flags : Flags → (value len : ℕ) → Flags
unfolding update_zs
logic_flags flags value len = update_zs (record flags { v = false }) value len

-- The width of a value on the stack: a register's, or an immediate's by its addressing mode.
unfoldable pub value_data_len : ℕ → Operand → String → Result ExecError ℕ
value_data_len nibble (reg bank_b idx) mnemonic = ok 1
value_data_len nibble (reg bank_i idx) mnemonic = ok 2
value_data_len nibble (reg bank_l idx) mnemonic = ok 4
value_data_len nibble (imm v) mnemonic =
    if nibble == 5
    then ok 1
    else if nibble == 6
    then ok 2
    else if nibble == 7
    then ok 4
    else err (invalid_operand mnemonic)
value_data_len nibble _ mnemonic = err (invalid_operand mnemonic)

module _ {F : Type 0} where
  abbrev pub set_flags : (Flags → Flags) → ExecM F (Unit {0})
  set_flags change m = (ok tt, record m { flags = change m.flags })

  -- `m.write(…)?`
  abbrev pub write_to : Operand → Value F → ExecM F (Unit {0})
  write_to op value m = elim (write m op value) [
    | ok m' ↦ (ok tt, m')
    | err e ↦ (err (machine e), m)
    | panic ↦ (panic, m)
  ]

  unfoldable pub read_source : Operand → ExecM F (Value F)
  read_source op m = elim (read m op) [
    | ok value ↦ (ok value, m)
    | err e ↦ elim e [
      | index_out_of_bounds index len ↦ (set_error trap_bit_unmapped >>= λ u. pure (bytes [])) m
      | other ↦ (err (machine other), m)
    ]
    | panic ↦ (panic, m)
  ]

  unfoldable pub write_indexed_dest : Operand → Value F → ℕ → ExecM F (Unit {0})
  write_indexed_dest op value len m = elim (write_indexed m op value len) [
    | ok m' ↦ (ok tt, m')
    | err e ↦ elim e [
      | index_out_of_bounds index n ↦ set_error trap_bit_unmapped m
      | other ↦ (err (machine other), m)
    ]
    | panic ↦ (panic, m)
  ]

  -- What `read_int` makes of the value it has read.
  unfoldable pub int_of : String → ℕ → Value F → ExecM F ℕ
  unfolding number_of
  int_of mnemonic len (int v) = pure (as_u32 v)
  int_of mnemonic len (bytes b) = pure (number_of b len)
  int_of mnemonic len (float x) = lift (err (invalid_operand mnemonic))

  unfoldable pub read_int : String → Operand → ℕ → ExecM F ℕ
  unfolding read_source int_of
  read_int mnemonic op len = read_source op >>= int_of mnemonic len
