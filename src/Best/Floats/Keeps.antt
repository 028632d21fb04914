-- ===== src/Best/Floats/Keeps.antt =====
-- crates/best/src/exec.rs: the instructions on floats on a machine with its sizes.
use Prim.Native.String.{String}
use klartext.Prelude.{
  ℕ, Bool, true, false, Option, none, some, List, length, ltb, if◌then◌else◌, ok, err,
}
use klartext.Sgbd.Cp1252.{Text}
use klartext.Best.Decode.{Operand, Op}
use klartext.Best.Decode.Reads.{OperandInRange}
use klartext.Best.Machine.{Value, int, float, bytes}
use klartext.Best.Machine.Bounds.{Any}
use klartext.Best.Exec.{lift, non_finite, bad_float_string, invalid_operand}
use klartext.Best.Exec.Keeps.{Keeps, FlowInRange, Post, Keeps-lift}
use klartext.Best.Strings.Keeps.{text_rules, Keeps-read_plain}
use klartext.Best.Texts.{trim}
use klartext.Best.Floats.{
  F64, as_float, read_float, pointed, finite_of, float_of_bytes, op_float_arith, op_fcomp, op_a2flt,
  op_fix2flt, op_flt2fix, op_flt2a, op_y_to_flt,
}

module _ {F : Type 0} where
  as_float-Post : (mnemonic : String) (value : Value F) → Post Any (as_float mnemonic value)
  as_float-Post mnemonic (int v) = tt
  as_float-Post mnemonic (float x) = tt
  as_float-Post mnemonic (bytes b) = tt

  pub Keeps-read_float :
      (mnemonic : String) (op : Operand)
      → OperandInRange op
      → Keeps {F = F} Any (read_float mnemonic op)
  unfolding read_float
  Keeps-read_float mnemonic op h =
      Keeps-read_plain op (as_float mnemonic) h (as_float-Post mnemonic)

  Keeps-finite :
      {A : Type 0} (b : Bool) (a : A) (mnemonic : String)
      → Keeps {F = F} Any (lift (if b then ok a else err (non_finite mnemonic)))
  Keeps-finite true a mnemonic = Keeps-lift _ tt
  Keeps-finite false a mnemonic = Keeps-lift _ tt

module _ (f64 : F64) where
  Keeps-finite_of : (text : Text) → Keeps {F = f64.F} Any (lift (finite_of f64 text))
  unfolding finite_of
  Keeps-finite_of text =
      Keeps-lift (finite_of f64 text) (go (f64.parse_float (trim (pointed text))))
    where
      either :
          (b : Bool) (x : f64.F)
          → Post {A = f64.F} Any (if b then ok x else err (bad_float_string text))
      either true x = tt
      either false x = tt

      go :
          (o : Option f64.F)
          → Post {A = f64.F} Any (elim o [
            | none ↦ err (bad_float_string text)
            | some x ↦ if f64.is_finite x then ok x else err (bad_float_string text)
          ])
      go none = tt
      go (some x) = either (f64.is_finite x) x

  Keeps-float_of_bytes :
      (mnemonic : String) (width : ℕ) (b : List ℕ)
      → Keeps {F = f64.F} Any (lift (float_of_bytes f64 mnemonic width b))
  unfolding float_of_bytes
  Keeps-float_of_bytes mnemonic width b =
      Keeps-lift (float_of_bytes f64 mnemonic width b) (either (ltb (length b) width) _)
    where
      either :
          (c : Bool) (x : f64.F)
          → Post {A = f64.F} Any (if c then err (invalid_operand mnemonic) else ok x)
      either true x = tt
      either false x = tt

ruleset float_rules =
    (text_rules, Keeps-read_float, Keeps-finite, Keeps-finite_of, Keeps-float_of_bytes)

module _ (f64 : F64) (op : Op) (h : OperandInRange op.arg0) (k : OperandInRange op.arg1) where
  pub op_fcomp-Keeps : Keeps {F = f64.F} FlowInRange (op_fcomp f64 op)
  unfolding op_fcomp
  op_fcomp-Keeps = search float_rules depth 12

  pub op_a2flt-Keeps : Keeps {F = f64.F} FlowInRange (op_a2flt f64 op)
  unfolding op_a2flt
  op_a2flt-Keeps = search float_rules depth 12

  pub op_fix2flt-Keeps : Keeps {F = f64.F} FlowInRange (op_fix2flt f64 op)
  unfolding op_fix2flt
  op_fix2flt-Keeps = search float_rules depth 12

  pub op_flt2fix-Keeps : Keeps {F = f64.F} FlowInRange (op_flt2fix f64 op)
  unfolding op_flt2fix
  op_flt2fix-Keeps = search float_rules depth 12

  pub op_flt2a-Keeps : Keeps {F = f64.F} FlowInRange (op_flt2a f64 op)
  unfolding op_flt2a
  op_flt2a-Keeps = search float_rules depth 12

  pub op_float_arith-Keeps :
      (mnemonic : String) (f : f64.F → f64.F → f64.F)
      → Keeps {F = f64.F} FlowInRange (op_float_arith f64 mnemonic f op)
  unfolding op_float_arith
  op_float_arith-Keeps mnemonic f = search float_rules depth 12

  pub op_y_to_flt-Keeps :
      (mnemonic : String) (width : ℕ)
      → Keeps {F = f64.F} FlowInRange (op_y_to_flt f64 mnemonic op width)
  unfolding op_y_to_flt
  op_y_to_flt-Keeps mnemonic width = search float_rules depth 12
