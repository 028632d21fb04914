-- ===== src/Best/Context.antt =====
-- crates/best/src/exec.rs: the state beside the machine, the instructions that store results and those
-- that read the arguments of the job.
pub mod Keeps
use Prim.Native.String.{String}
use klartext.Prelude.{
  ℕ, ◌+◌, ◌-◌, ◌%◌, ◌^◌, Bool, true, false, not, List, [], ◌∷◌, Option, none, some, length,
  get_elem?, ltb, if◌then◌else◌, Result, ok, err, panic,
}
use klartext.Sgbd.Cp1252.{Text}
use klartext.Sgbd.Program.{Table, is_empty}
use klartext.Best.Decode.{Operand, Op}
use klartext.Best.Machine.{Flags, Value, int, float, bytes, Machine}
use klartext.Best.Exec.{
  ExecError, Flow, next, ExecM, arg_width, update_zs, as_u32, read_int, write_to, set_flags,
}
use klartext.Best.Branches.{sign_extended}
use klartext.Best.Moves.{read_bytes}
use klartext.Best.Products.{extend}
use klartext.Best.Texts.{string_to_value, arg_strings, trim}
use klartext.Best.Results.{
  ResultData, byte, word, dword, integer, real, text, binary, ResultSet, current, push_named,
  new_set,
}
use klartext.Best.Floats.{F64, read_float, pointed}
use klartext.Best.Strings.{read_string, write_string, read_value_data}

pub record ExecCtx (F : Type 0) : Type 0 where
  pub results : ResultSet F
  pub args : List ℕ
  pub tables : List Table
  pub current_table : Option ℕ
  pub current_row : Option ℕ

-- An action on `&mut Machine` and `&mut ExecCtx`.
abbrev pub State : Type 0 → Type 0
State F = Machine F × ExecCtx F

abbrev pub CtxM : Type 0 → Type 0 → Type 0
CtxM F A = State F → Result ExecError A × State F

infixl 5 ◌>>=◌
abbrev pub ◌>>=◌ : {F A B : Type 0} → CtxM F A → (A → CtxM F B) → CtxM F B
◌>>=◌ act f s =
    let first = act s in
    elim first.0 [ ok a ↦ f a first.1 | err e ↦ (err e, first.1) | panic ↦ (panic, first.1) ]

abbrev pub lift : {F A : Type 0} → Result ExecError A → CtxM F A
lift result s = (result, s)

abbrev pub pure : {F A : Type 0} → A → CtxM F A
pure a = lift (ok a)

abbrev pub on_machine : {F A : Type 0} → ExecM F A → CtxM F A
on_machine act s = let done = act s.0 in (done.0, (done.1, s.1))

abbrev pub asks : {F A : Type 0} → (ExecCtx F → A) → CtxM F A
asks f s = (ok (f s.1), s)

abbrev pub set_cursor : {F : Type 0} → (table row : Option ℕ) → CtxM F (Unit {0})
set_cursor table row s = (ok tt, (s.0, record s.1 { current_table = table; current_row = row }))

module _ {F : Type 0} where
  -- `ctx.results.push_named(…)`
  unfoldable pub push_result : Text → ResultData F → CtxM F Flow
  unfolding push_named
  push_result name value s = elim (push_named {E = ExecError} s.1.results name value) [
    | ok results ↦ (ok next, (s.0, record s.1 { results = results }))
    | err e ↦ (err e, s)
    | panic ↦ (panic, s)
  ]

  -- The instructions that store the value of an integer: its mnemonic, its width and its cast.
  unfoldable pub op_erg_int : String → (len : ℕ) → (ℕ → ResultData F) → Op → CtxM F Flow
  unfolding read_string read_int push_result
  op_erg_int mnemonic len cast op = do
    name ← on_machine (read_string mnemonic op.arg0)
    value ← on_machine (read_int mnemonic op.arg1 len)
    push_result name (cast value)

  unfoldable pub op_ergb : Op → CtxM F Flow
  unfolding op_erg_int
  op_ergb = op_erg_int "ergb" 1 (λ v. byte (v % 2 ^ 8))

  unfoldable pub op_ergw : Op → CtxM F Flow
  unfolding op_erg_int
  op_ergw = op_erg_int "ergw" 2 (λ v. word (v % 2 ^ 16))

  unfoldable pub op_ergd : Op → CtxM F Flow
  unfolding op_erg_int
  op_ergd = op_erg_int "ergd" 4 dword

  -- `as u16 as i16`, `as u8 as i8` and `as i32`, extended to 64 bits.
  unfoldable pub op_ergi : Op → CtxM F Flow
  unfolding op_erg_int extend sign_extended
  op_ergi = op_erg_int "ergi" 2 (λ v. integer (sign_extended (extend v 16)))

  unfoldable pub op_ergc : Op → CtxM F Flow
  unfolding op_erg_int extend sign_extended
  op_ergc = op_erg_int "ergc" 1 (λ v. integer (sign_extended (extend v 8)))

  unfoldable pub op_ergl : Op → CtxM F Flow
  unfolding op_erg_int sign_extended
  op_ergl = op_erg_int "ergl" 4 (λ v. integer (sign_extended v))

  unfoldable pub op_ergr : Op → CtxM F Flow
  unfolding read_string read_float push_result
  op_ergr op = do
    name ← on_machine (read_string "ergr" op.arg0)
    value ← on_machine (read_float "ergr" op.arg1)
    push_result name (real value)

  unfoldable pub op_ergs : Op → CtxM F Flow
  unfolding read_string push_result
  op_ergs op = do
    name ← on_machine (read_string "ergs" op.arg0)
    value ← on_machine (read_string "ergs" op.arg1)
    push_result name (text value)

  unfoldable pub op_ergy : Op → CtxM F Flow
  unfolding read_string read_bytes push_result
  op_ergy op = do
    name ← on_machine (read_string "ergy" op.arg0)
    value ← on_machine (read_bytes "ergy" op.arg1)
    push_result name (binary value)

  unfoldable pub op_enewset : CtxM F Flow
  unfolding current new_set
  op_enewset s = elim (current {E = ExecError} s.1.results) [
    | ok set ↦
        (ok next, (s.0, if is_empty set then s.1 else record s.1 { results = new_set s.1.results }))
    | err e ↦ (err e, s)
    | panic ↦ (panic, s)
  ]

-- The field at a position counted from one, unless it is empty.
unfoldable pub field_at : List ℕ → (pos : ℕ) → Option Text
unfolding arg_strings
field_at args pos = elim (get_elem? (arg_strings args) ((pos + (2 ^ 32 - 1)) % 2 ^ 32)) [
  | none ↦ none
  | some field ↦ if is_empty field then none else some field
]

abbrev is_none : {A : Type 0} → Option A → Bool
is_none none = true
is_none (some a) = false

abbrev or_default : {A B : Type 0} → B → (A → B) → Option A → B
or_default b f none = b
or_default b f (some a) = f a

abbrev absent_flags : Bool → Flags → Flags
absent_flags absent flags = record flags { z = absent; c = false; s = false; v = false }

-- Whether all the characters are ASCII.
abbrev is_ascii : Text → Bool
is_ascii [] = true
is_ascii (c ∷ rest) = if ltb c 128 then is_ascii rest else false

module _ {F : Type 0} where
  unfoldable pub op_parl : Op → CtxM F Flow
  unfolding read_value_data field_at string_to_value
  op_parl op = do
    pos ← on_machine (read_value_data "parl" op.arg1)
    args ← asks (λ ctx. ctx.args)
    written ← on_machine (
        write_to op.arg0
          (int (or_default 0 (λ field. as_u32 (string_to_value field)) (field_at args pos))))
    set ← on_machine (set_flags (absent_flags (is_none (field_at args pos))))
    pure next

  unfoldable pub op_pars : Op → CtxM F Flow
  unfolding read_value_data write_string field_at
  op_pars op = do
    pos ← on_machine (read_value_data "pars" op.arg1)
    args ← asks (λ ctx. ctx.args)
    written ← on_machine (write_string op.arg0 (or_default [] (λ field. field) (field_at args pos)))
    set ← on_machine (set_flags (λ flags. record flags { z = is_none (field_at args pos) }))
    pure next

  unfoldable pub op_pary : Op → CtxM F Flow
  op_pary op = do
    args ← asks (λ ctx. ctx.args)
    written ← on_machine (write_to op.arg0 (bytes args))
    set ← on_machine (set_flags (λ flags. record flags { z = is_empty args }))
    pure next

  unfoldable pub op_parn : Op → CtxM F Flow
  unfolding arg_strings update_zs
  op_parn op = do
    width ← lift (arg_width "parn" op.arg0)
    count ← asks (λ ctx. as_u32 (length (arg_strings ctx.args)))
    written ← on_machine (write_to op.arg0 (int count))
    set ← on_machine (set_flags (λ flags. update_zs (record flags { v = false }) count width))
    pure next

module _ (f64 : F64) where
  unfoldable pub string_to_float : Text → f64.F
  string_to_float number =
      if is_ascii number
      then or_default f64.zero_float (λ x. x) (f64.parse_float (trim (pointed number)))
      else f64.zero_float

  unfoldable pub op_parr : Op → CtxM f64.F Flow
  unfolding read_value_data field_at string_to_float
  op_parr op = do
    pos ← on_machine (read_value_data "parr" op.arg1)
    args ← asks (λ ctx. ctx.args)
    written ←
        on_machine
          (write_to op.arg0 (float (or_default f64.zero_float string_to_float (field_at args pos))))
    set ← on_machine (set_flags (absent_flags (is_none (field_at args pos))))
    pure next
