-- ===== src/Best/Floats.antt =====
-- crates/best/src/exec.rs: the instructions on floats. `f64` is a parameter: a type with the operations
-- that the code calls.
pub mod Keeps
use Prim.Native.String.{String}
use klartext.Prelude.{
  ℕ, zero, suc, ◌+◌, ◌*◌, ◌%◌, ◌^◌, Bool, true, false, not, ◌&&◌, ◌||◌, List, [], ◌∷◌, ◌++◌, map,
  Option, none, some, length, take, leb, ltb, ◌==◌, if◌then◌else◌, Result, ok, err, panic,
}
use klartext.Sgbd.Cp1252.{Text}
use klartext.Sgbd.Program.{is_empty}
use klartext.Best.Decode.{Operand, Op}
use klartext.Best.Machine.{Flags, Value, int, float, bytes, MachineError, Machine, read}
use klartext.Best.Exec.{
  ExecError, machine, invalid_operand, non_finite, bad_float_string, Flow, next, ExecM, ◌>>=◌, lift,
  pure, arg_width, update_zs, as_u32, read_source, read_int, write_to, set_flags,
}
use klartext.Best.Moves.{read_bytes}
use klartext.Best.Products.{extend}
use klartext.Best.Texts.{trim, is_digit}
use klartext.Best.Strings.{read_plain, read_string, write_string}

-- `f64`: the literals, the arithmetic and the comparisons, `abs`, `log10`, `floor`, `powf`, `powi`,
-- `round`, the casts, the two `from_le_bytes`, `parse` and `Display`. An `i32` and an `i64` are the
-- numbers of their bits.
pub record F64 : Type 1 where
  pub F : Type 0
  pub zero_float : F
  pub one : F
  pub ten : F
  pub add : F → F → F
  pub sub : F → F → F
  pub mul : F → F → F
  pub div : F → F → F
  pub powf : F → F → F
  pub powi : F → ℕ → F
  pub abs : F → F
  pub log10 : F → F
  pub floor : F → F
  pub round : F → F
  pub equal : F → F → Bool
  pub less : F → F → Bool
  pub is_finite : F → Bool
  pub of_i32 : ℕ → F
  pub to_i64 : F → ℕ
  pub of_f32_bytes : List ℕ → F
  pub of_f64_bytes : List ℕ → F
  pub parse_float : Text → Option F
  pub display : F → Text

abbrev pub as_float : {F : Type 0} → String → Value F → Result ExecError F
as_float mnemonic (float x) = ok x
as_float mnemonic (int v) = err (invalid_operand mnemonic)
as_float mnemonic (bytes b) = err (invalid_operand mnemonic)

unfoldable pub read_float : {F : Type 0} → String → Operand → ExecM F F
unfolding read_plain
read_float mnemonic op = read_plain op (as_float mnemonic)

-- `replace(',', ".")`
abbrev pub pointed : Text → Text
pointed text = map (λ c. if c == 0x2c then 0x2e else c) text

-- How much of a formatted number its first four digits take.
unfoldable pub cut_at : (digits : ℕ) → Text → ℕ
cut_at digits [] = 0
cut_at digits (c ∷ text) =
    let rest = cut_at (if is_digit c then digits + 1 else digits) text in
    if is_digit c && leb 4 (digits + 1) then 1 else rest + 1

module _ (f64 : F64) where
  unfoldable pub op_float_arith : String → (f64.F → f64.F → f64.F) → Op → ExecM f64.F Flow
  unfolding read_float
  op_float_arith mnemonic f op = do
    v0 ← read_float mnemonic op.arg0
    v1 ← read_float mnemonic op.arg1
    result ← lift (if f64.is_finite (f v0 v1) then ok (f v0 v1) else err (non_finite mnemonic))
    written ← write_to op.arg0 (float result)
    pure next

  unfoldable pub compared : Flags → f64.F → f64.F → Flags
  compared flags v0 v1 = record {
    z = f64.equal v0 v1;
    s = f64.less v0 v1;
    c = if f64.is_finite (f64.sub v0 v1) then flags.c else true;
    v = false;
  }

  unfoldable pub op_fcomp : Op → ExecM f64.F Flow
  unfolding read_float compared
  op_fcomp op = do
    v0 ← read_float "fcomp" op.arg0
    v1 ← read_float "fcomp" op.arg1
    set ← set_flags (λ flags. compared flags v0 v1)
    pure next

  -- A text that spells a finite float.
  unfoldable pub finite_of : Text → Result ExecError f64.F
  finite_of text = elim (f64.parse_float (trim (pointed text))) [
    | none ↦ err (bad_float_string text)
    | some x ↦ if f64.is_finite x then ok x else err (bad_float_string text)
  ]

  unfoldable pub op_a2flt : Op → ExecM f64.F Flow
  unfolding read_string finite_of
  op_a2flt op = do
    text ← read_string "a2flt" op.arg1
    value ← lift (finite_of text)
    written ← write_to op.arg0 (float value)
    pure next

  unfoldable pub op_fix2flt : Op → ExecM f64.F Flow
  unfolding read_int extend
  op_fix2flt op = do
    len ← lift (arg_width "fix2flt" op.arg1)
    raw ← read_int "fix2flt" op.arg1 len
    written ← write_to op.arg0 (float (f64.of_i32 (extend raw (len * 8))))
    pure next

  unfoldable pub op_flt2fix : Op → ExecM f64.F Flow
  unfolding read_float update_zs
  op_flt2fix op = do
    value ← read_float "flt2fix" op.arg1
    result ←
        lift (
          if f64.is_finite value
          then ok (as_u32 (f64.to_i64 value))
          else err (non_finite "flt2fix"))
    written ← write_to op.arg0 (int result)
    set ← set_flags (λ flags. update_zs (record flags { v = false }) result 4)
    pure next

  unfoldable pub round_to_significant_digits : f64.F → ℕ → f64.F
  round_to_significant_digits value digits =
      let scale = f64.powf f64.ten (f64.add (f64.floor (f64.log10 (f64.abs value))) f64.one) in
      let factor = f64.powi f64.ten digits in
      if f64.equal value f64.zero_float
      then f64.zero_float
      else f64.div (f64.mul scale (f64.round (f64.mul (f64.div value scale) factor))) factor

  -- `FLOAT_PRECISION` is 4.
  unfoldable pub formatted : f64.F → Text
  unfolding round_to_significant_digits cut_at
  formatted value =
      let text = f64.display (round_to_significant_digits value 4) in take (cut_at 0 text) text

  unfoldable pub op_flt2a : Op → ExecM f64.F Flow
  unfolding read_float write_string formatted
  op_flt2a op = do
    value ← read_float "flt2a" op.arg1
    text ← lift (if f64.is_finite value then ok (formatted value) else err (non_finite "flt2a"))
    written ← write_string op.arg0 text
    pure next

  unfoldable pub float_of_bytes : String → (width : ℕ) → List ℕ → Result ExecError f64.F
  float_of_bytes mnemonic width b =
      if ltb (length b) width
      then err (invalid_operand mnemonic)
      else ok (if width == 4 then f64.of_f32_bytes (take 4 b) else f64.of_f64_bytes (take 8 b))

  unfoldable pub op_y_to_flt : String → Op → (width : ℕ) → ExecM f64.F Flow
  unfolding read_bytes float_of_bytes
  op_y_to_flt mnemonic op width = do
    b ← read_bytes mnemonic op.arg1
    value ← lift (float_of_bytes mnemonic width b)
    written ← write_to op.arg0 (float value)
    pure next
