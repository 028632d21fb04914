-- ===== src/Best/Products.antt =====
-- crates/best/src/exec.rs: the instructions that multiply and divide. An `i32` is the number of its bits
-- as a `u32`.
use klartext.Prelude.{
  ℕ, ◌+◌, ◌-◌, ◌*◌, ◌/◌, ◌%◌, ◌^◌, Bool, true, false, not, ◌&&◌, ◌||◌, leb, ◌==◌, if◌then◌else◌, ok,
  err, Result,
}
use klartext.Best.Decode.{Operand, reg, indexed, Op}
use klartext.Best.Machine.{int}
use klartext.Best.Exec.{
  ExecError, divide_by_zero, Flow, next, ExecM, ◌>>=◌, lift, pure, arg_width, update_zs, as_u32,
  read_int, write_indexed_dest, write_to, set_flags,
}

-- The signed number in the low `bits` bits, as an `i32`.
unfoldable pub extend : (value bits : ℕ) → ℕ
extend value bits =
    let low = value % 2 ^ bits in
    if leb (2 ^ (bits - 1)) low then low + (2 ^ 32 - 2 ^ bits) else low

unfoldable pub product : (v0 v1 len : ℕ) → ℕ
unfolding extend
product v0 v1 len = as_u32 (extend v0 (len * 8) * extend v1 (len * 8))

-- The negation and the magnitude of an `i32`, and whether it is below zero.
abbrev negated : ℕ → ℕ
negated v = (2 ^ 32 - v) % 2 ^ 32

abbrev below_zero : ℕ → Bool
below_zero v = leb (2 ^ 31) v

-- Whether just one of two numbers is below zero.
abbrev opposite : Bool → Bool → Bool
opposite true b = not b
opposite false b = b

abbrev magnitude : ℕ → ℕ
magnitude v = if below_zero v then negated v else v

-- `checked_div` and `checked_rem`: no quotient by zero, nor of the least number by minus one.
abbrev pub undivided : (dividend divisor : ℕ) → Bool
undivided dividend divisor = divisor == 0 || dividend == 2 ^ 31 && divisor == 2 ^ 32 - 1

unfoldable pub quotient : (dividend divisor : ℕ) → Result ExecError ℕ
quotient dividend divisor =
    let size = magnitude dividend / magnitude divisor in
    if undivided dividend divisor
    then err divide_by_zero
    else ok (if opposite (below_zero dividend) (below_zero divisor) then negated size else size)

unfoldable pub remainder : (dividend divisor : ℕ) → Result ExecError ℕ
remainder dividend divisor =
    let size = magnitude dividend % magnitude divisor in
    if undivided dividend divisor
    then err divide_by_zero
    else ok (if below_zero dividend then negated size else size)

module _ {F : Type 0} where
  -- The second result of an instruction goes into its second operand where that is a register.
  unfoldable pub store_second : Operand → (value len : ℕ) → ExecM F (Unit {0})
  unfolding write_indexed_dest
  store_second (reg bank idx) value len = write_to (reg bank idx) (int value)
  store_second (indexed base index n) value len =
      write_indexed_dest (indexed base index n) (int value) len
  store_second _ value len = pure tt

  unfoldable pub op_mult : Op → ExecM F Flow
  unfolding read_int update_zs product store_second
  op_mult op = do
    len ← lift (arg_width "mult" op.arg0)
    v0 ← read_int "mult" op.arg0 len
    v1 ← read_int "mult" op.arg1 len
    written ← write_to op.arg0 (int (product v0 v1 len))
    set ← set_flags (λ flags. update_zs (record flags { v = false }) (product v0 v1 len) len)
    stored ← store_second op.arg1 (product v0 v1 len / 2 ^ (len * 8)) len
    pure next

  unfoldable pub op_divs : Op → ExecM F Flow
  unfolding read_int update_zs quotient remainder store_second
  op_divs op = do
    len ← lift (arg_width "divs" op.arg0)
    v0 ← read_int "divs" op.arg0 len
    v1 ← read_int "divs" op.arg1 len
    result ← lift (quotient v0 v1)
    rest ← lift (remainder v0 v1)
    written ← write_to op.arg0 (int result)
    set ← set_flags (λ flags. update_zs (record flags { v = false }) result len)
    stored ← store_second op.arg1 rest len
    pure next
