-- ===== src/Best/Moves.antt =====
-- crates/best/src/exec.rs: the instructions that move, clear, reverse and shift. A `u32` is a number
-- below `2 ^ 32`, and an `i32` is the number of its bits.
pub mod Shifts
pub mod Keeps
use Prim.Native.String.{String}
use klartext.Prelude.{
  ℕ, ◌+◌, ◌-◌, ◌*◌, ◌/◌, ◌%◌, ◌^◌, Bool, true, false, not, Option, none, some, List, [], length,
  overwrite, grow, leb, ltb, ◌==◌, if◌then◌else◌, bit_and, ok, err, panic, Result,
}
use klartext.Best.Decode.{
  RegBank, bank_b, bank_i, bank_l, bank_s, bank_f, Operand, IndexArg, RegId, reg, indexed, Op,
}
use klartext.Best.Machine.{
  Flags, Value, int, float, bytes, MachineError, Machine, resolve_index, swap_s_slice,
  array_max_size,
}
use klartext.Best.Exec.{
  ExecError, machine, invalid_operand, Flow, next, ExecM, ◌>>=◌, lift, pure, set_error,
  trap_bit_unmapped, arg_width, sign_mask, update_zs, as_u32, read_source, read_int,
  write_indexed_dest, write_to, set_flags,
}

-- What a shift makes of the carry and of the value.
abbrev pub Shift : Type 0
Shift = (value shift len : ℕ) → Bool → Bool × ℕ

-- `shift < 0` of the `i32` with these bits.
abbrev pub negative : ℕ → Bool
negative shift = leb (2 ^ 31) shift

-- `value & (1 << bit) != 0`
abbrev pub bit_of : ℕ → ℕ → Bool
bit_of value bit = not (bit_and value (2 ^ bit) == 0)

unfoldable pub shift_left : Shift
shift_left value shift len carry =
    if negative shift then (carry, value) else if shift == 0 then (false, value) else (
      if ltb (len * 8) shift then false else bit_of value (len * 8 - shift),
      if leb (len * 8) shift then 0 else as_u32 (value * 2 ^ shift),
    )

unfoldable pub shift_right : Shift
shift_right value shift len carry =
    if negative shift then (carry, value) else if shift == 0 then (false, value) else (
      if ltb (len * 8) shift then false else bit_of value (shift - 1),
      if leb (len * 8) shift then 0 else value / 2 ^ shift,
    )

-- The signed number in the low `bits` bits of a value, shifted to the right, as a `u32`: the places
-- above are copies of the sign.
unfoldable pub arithmetic_right : (value shift bits : ℕ) → ℕ
arithmetic_right value shift bits =
    let low = value % 2 ^ bits in
    if leb (2 ^ (bits - 1)) low
    then low / 2 ^ shift + (2 ^ 32 - 2 ^ (bits - shift))
    else low / 2 ^ shift

unfoldable pub shift_sign : Shift
unfolding arithmetic_right sign_mask
shift_sign value shift len carry =
    let sign = not (bit_and value (sign_mask len) == 0) in
    if negative shift then (carry, value) else if shift == 0 then (false, value) else (
      if ltb (len * 8) shift then sign else bit_of value (shift - 1),
      if leb (len * 8) shift
          then (if sign then 0xffffffff else 0)
          else arithmetic_right value shift (len * 8),
    )

abbrev cleared_flags : Flags → Flags
cleared_flags flags = record flags { c = false; z = false; s = false; v = false }

-- The source at the start of a buffer, which is made longer where it is too short.
abbrev over : List ℕ → List ℕ → List ℕ
over dest source =
    overwrite (if ltb (length dest) (length source) then grow dest (length source) 0 else dest) 0
      source

module _ {F : Type 0} where
  -- The body that the shifts share.
  unfoldable pub op_shift : String → Shift → Op → ExecM F Flow
  unfolding read_int update_zs
  op_shift mnemonic shifted op = do
    len ← lift (arg_width mnemonic op.arg0)
    value ← read_int mnemonic op.arg0 len
    shift ← read_int mnemonic op.arg1 len
    carried ← set_flags (λ flags. record flags { c = (shifted value shift len flags.c).0 })
    written ← write_to op.arg0 (int (shifted value shift len false).1)
    set ←
        set_flags
          (λ flags. update_zs (record flags { v = false }) (shifted value shift len false).1 len)
    pure next

  unfoldable pub op_shift_left : String → Op → ExecM F Flow
  unfolding op_shift shift_left
  op_shift_left mnemonic op = op_shift mnemonic shift_left op

  unfoldable pub op_lsr : Op → ExecM F Flow
  unfolding op_shift shift_right
  op_lsr op = op_shift "lsr" shift_right op

  unfoldable pub op_asr : Op → ExecM F Flow
  unfolding op_shift shift_sign
  op_asr op = op_shift "asr" shift_sign op

  unfoldable pub read_bytes : String → Operand → ExecM F (List ℕ)
  unfolding read_source
  read_bytes mnemonic op = read_source op >>= λ value. elim value [
    | bytes b ↦ pure b
    | _ ↦ lift (err (invalid_operand mnemonic))
  ]

  -- The value that clears a register, with the float `0.0`.
  unfoldable pub zero_of : F → Operand → Result ExecError (Value F)
  zero_of zero_float (reg bank_s idx) = ok (bytes [])
  zero_of zero_float (reg bank_f idx) = ok (float zero_float)
  zero_of zero_float (reg _ idx) = ok (int 0)
  zero_of zero_float _ = err (invalid_operand "clear")

  unfoldable pub op_clear : F → Op → ExecM F Flow
  unfolding zero_of
  op_clear zero_float op = do
    zero ← lift (zero_of zero_float op.arg0)
    written ← write_to op.arg0 zero
    set ← set_flags (λ flags. record flags { c = false; z = true; s = false; v = false })
    pure next

  unfoldable pub swap_at : RegId → (start len : ℕ) → ExecM F Flow
  swap_at base start len m =
      if ltb array_max_size (start + len)
      then (set_error trap_bit_unmapped >>= λ u. pure next) m
      else elim (swap_s_slice m base start len) [
        | ok m' ↦ (ok next, m')
        | err e ↦ (err (machine e), m)
        | panic ↦ (panic, m)
      ]

  -- `m.resolve_index(…)?`
  abbrev pub resolve : IndexArg → ExecM F ℕ
  resolve index m = elim (resolve_index m index) [
    | ok n ↦ (ok n, m)
    | err e ↦ (err (machine e), m)
    | panic ↦ (panic, m)
  ]

  unfoldable pub swap_operand : Operand → ExecM F Flow
  unfolding swap_at
  swap_operand (indexed base index (some len_arg)) = do
    start ← resolve index
    len ← resolve len_arg
    swap_at base start len
  swap_operand _ = lift (err (invalid_operand "swap"))

  unfoldable pub op_swap : Op → ExecM F Flow
  unfolding swap_operand
  op_swap op = swap_operand op.arg0

  -- The store of `move` at an index of a buffer.
  unfoldable pub move_indexed : Operand → Value F → ExecM F Flow
  unfolding write_indexed_dest update_zs
  move_indexed arg0 (int v) = do
    written ← write_indexed_dest arg0 (int v) 1
    set ← set_flags (λ flags. update_zs (record flags { c = false; v = false }) (as_u32 v) 1)
    pure next
  move_indexed arg0 (bytes b) = do
    written ← write_indexed_dest arg0 (bytes b) 1
    set ← set_flags cleared_flags
    pure next
  move_indexed arg0 (float x) = lift (err (invalid_operand "move"))

  -- The store of `move` to a float register.
  unfoldable pub move_float : Operand → Value F → ExecM F Flow
  move_float arg0 (float x) = do
    written ← write_to arg0 (float x)
    set ← set_flags cleared_flags
    pure next
  move_float arg0 _ = lift (err (invalid_operand "move"))

  unfoldable pub move_to : Operand → Operand → ExecM F Flow
  unfolding read_bytes read_source move_indexed move_float arg_width read_int update_zs
  move_to (reg bank_s idx) arg1 = do
    source ← read_bytes "move" arg1
    dest ← read_bytes "move" (reg bank_s idx)
    written ← write_to (reg bank_s idx) (bytes (over dest source))
    set ← set_flags cleared_flags
    pure next
  move_to (indexed base index len) arg1 = read_source arg1 >>= move_indexed (indexed base index len)
  move_to (reg bank_f idx) arg1 = read_source arg1 >>= move_float (reg bank_f idx)
  move_to arg0 arg1 = do
    len ← lift (arg_width "move" arg0)
    value ← read_int "move" arg1 len
    written ← write_to arg0 (int value)
    set ← set_flags (λ flags. update_zs (record flags { c = false; v = false }) value len)
    pure next

  unfoldable pub op_move : Op → ExecM F Flow
  unfolding move_to
  op_move op = move_to op.arg0 op.arg1
