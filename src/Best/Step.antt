-- ===== src/Best/Step.antt =====
-- crates/best/src/exec.rs: one step, from the opcode to its instruction.
pub mod Keeps
pub mod Parts
use Prim.Native.String.{String}
use Prim.Native.Nat.{bit_xor}
use klartext.Prelude.{
  ℕ, ◌+◌, ◌/◌, ◌%◌, Bool, true, false, not, List, [], ◌∷◌, Option, none, some, ◌==◌, if◌then◌else◌,
  bit_and, bit_or, Result, ok, err, panic,
}
use klartext.Best.Opcode.{OpInfo, info}
use klartext.Best.Decode.{IndexArg, imm_index, Operand, indexed, Op}
use klartext.Best.Machine.{Flags, MachineError, Machine, resolve_index}
use klartext.Best.Exec.{ExecError, machine, unimplemented, Flow, next, end_of_job, ExecM, set_flags}
use klartext.Best.Integers.{op_comp, op_subb, op_adds, op_bitwise, op_not, op_push, op_pop}
use klartext.Best.Branches.{taken, branch}
use klartext.Best.Moves.{op_move, op_clear, op_asr, op_lsr, op_shift_left, op_swap}
use klartext.Best.Products.{op_mult, op_divs}
use klartext.Best.Convert.{
  op_a2fix, op_a2y, op_atsp, op_break, op_clrt, op_fix2, op_gettmr, op_hex2y, op_settmr, op_wait,
  op_y2bcd, op_y2hex,
}
use klartext.Best.Strings.{
  op_scmp, op_scat, op_scut, op_slen, op_spaste, op_serase, op_strcat, op_strcmp, op_strlen,
  op_xsend,
}
use klartext.Best.Tables.{
  op_tabcols, op_tabget, op_tabline, op_tabrows, op_tabseek, op_tabseeku, op_tabset,
}
use klartext.Best.Floats.{
  F64, op_a2flt, op_fcomp, op_fix2flt, op_float_arith, op_flt2a, op_flt2fix, op_y_to_flt,
}
use klartext.Best.Convert.{trap_detected}
use klartext.Best.Context.{
  ExecCtx, State, CtxM, ◌>>=◌, lift, pure, on_machine, op_enewset, op_ergb, op_ergc, op_ergd,
  op_ergi, op_ergl, op_ergr, op_ergs, op_ergw, op_ergy, op_parl, op_parn, op_parr, op_pars, op_pary,
}

abbrev idx_reg_imm_nibble : ℕ
idx_reg_imm_nibble = 11

module _ {F : Type 0} where
  -- `m.resolve_index(…)?`
  abbrev pub resolved : Machine F → IndexArg → Result ExecError ℕ
  resolved m index = elim (resolve_index m index) [
    | ok n ↦ ok n
    | err e ↦ err (machine e)
    | panic ↦ panic
  ]

  unfoldable pub fold_increment : Machine F → Operand → Result ExecError Operand
  fold_increment m (indexed base index (some increment)) = elim (resolved m index) [
    | ok i ↦ elim (resolved m increment) [
      | ok n ↦ ok (indexed base (imm_index (i + n)) none)
      | err e ↦ err e
      | panic ↦ panic
    ]
    | err e ↦ err e
    | panic ↦ panic
  ]
  fold_increment m operand = ok operand

  -- The fold of an operand whose addressing mode has the nibble.
  unfoldable pub folded : (nibble : ℕ) → Operand → CtxM F Operand
  unfolding fold_increment
  folded nibble operand s =
      if nibble == idx_reg_imm_nibble then (fold_increment s.0 operand, s) else (ok operand, s)

  -- Without such an operand the instruction is itself.
  unfoldable pub fold_index_increments : Op → CtxM F Op
  unfolding folded
  fold_index_increments op = do
    arg0 ← folded (op.mode_byte / 16) op.arg0
    arg1 ← folded (op.mode_byte % 16) op.arg1
    pure record op { arg0 = arg0; arg1 = arg1 }

  unfoldable pub flag_branch : String → Op → ExecM F Flow
  unfolding taken branch
  flag_branch mnemonic op m = branch mnemonic op (taken op.byte m.flags) m

  unfoldable pub set_carry_to : Bool → ExecM F Flow
  set_carry_to c m = (ok next, record m { flags = record m.flags { c = c } })

  unfoldable pub trap_branch : String → Op → (Bool → Bool) → ExecM F Flow
  unfolding trap_detected branch
  trap_branch mnemonic op test m =
      let detected = trap_detected op m in
      elim detected.0 [
        | ok b ↦ branch mnemonic op (test b) detected.1
        | err e ↦ (err e, detected.1)
        | panic ↦ (panic, detected.1)
      ]

-- The name of an instruction without a handler.
abbrev pub unhandled : ℕ → ExecError
unhandled byte = unimplemented (elim (info byte) [ none ↦ "<unknown>" | some i ↦ i.mnemonic ])

-- The arm of a `match` on the opcode.
abbrev pub arm {ℓ} : {A : Type ℓ} → List (ℕ × A) → A → ℕ → A
arm [] other byte = other
arm ((b, a) ∷ arms) other byte = if b == byte then a else arm arms other byte

module _ (f64 : F64) where
  abbrev pub Arms : Type 0
  Arms = List (ℕ × CtxM f64.F Flow)

  -- The arms of `step`'s `match`, in groups.
  unfoldable pub integer_arms : Op → Arms
  unfolding branch flag_branch op_adds op_asr op_bitwise op_clear op_comp op_divs op_lsr op_move
      op_mult op_not op_shift_left op_subb set_carry_to
  integer_arms op =
      (0x00, on_machine (op_move op))
      ∷ (0x01, on_machine (op_clear f64.zero_float op))
      ∷ (0x02, on_machine (op_comp op))
      ∷ (0x03, on_machine (op_subb op))
      ∷ (0x04, on_machine (op_adds op))
      ∷ (0x05, on_machine (op_mult op))
      ∷ (0x06, on_machine (op_divs op))
      ∷ (0x07, on_machine (op_bitwise "and" bit_and op))
      ∷ (0x08, on_machine (op_bitwise "or" bit_or op))
      ∷ (0x09, on_machine (op_bitwise "xor" bit_xor op))
      ∷ (0x0a, on_machine (op_not op))
      ∷ (0x0b, on_machine (branch "jump" op true))
      ∷ (0x0e, on_machine (flag_branch "jc" op))
      ∷ (0x0f, on_machine (flag_branch "jae" op))
      ∷ (0x10, on_machine (flag_branch "jz" op))
      ∷ (0x11, on_machine (flag_branch "jnz" op))
      ∷ (0x12, on_machine (flag_branch "jv" op))
      ∷ (0x13, on_machine (flag_branch "jnv" op))
      ∷ (0x14, on_machine (flag_branch "jmi" op))
      ∷ (0x15, on_machine (flag_branch "jpl" op))
      ∷ (0x16, on_machine (set_carry_to false))
      ∷ (0x17, on_machine (set_carry_to true))
      ∷ (0x18, on_machine (op_asr op))
      ∷ (0x19, on_machine (op_shift_left "lsl" op))
      ∷ (0x1a, on_machine (op_lsr op))
      ∷ []

  unfoldable pub transfer_arms : Op → Arms
  unfolding flag_branch op_a2fix op_a2flt op_break op_clrt op_fix2flt op_float_arith op_flt2a
      op_gettmr op_pop op_push op_settmr op_shift_left trap_branch
  transfer_arms op =
      (0x1b, on_machine (op_shift_left "asl" op))
      ∷ (0x1c, pure next)
      ∷ (0x1d, pure end_of_job)
      ∷ (0x1e, on_machine (op_push op))
      ∷ (0x1f, on_machine (op_pop op))
      ∷ (0x43, on_machine (op_gettmr op))
      ∷ (0x44, on_machine (op_settmr op))
      ∷ (0x46, on_machine (op_clrt))
      ∷ (0x47, on_machine (trap_branch "jt" op (λ b. b)))
      ∷ (0x48, on_machine (trap_branch "jnt" op not))
      ∷ (0x4b, on_machine (op_break))
      ∷ (0x5a, on_machine (flag_branch "jg" op))
      ∷ (0x5b, on_machine (flag_branch "jge" op))
      ∷ (0x5c, on_machine (flag_branch "jl" op))
      ∷ (0x5d, on_machine (flag_branch "jle" op))
      ∷ (0x5e, on_machine (flag_branch "ja" op))
      ∷ (0x5f, on_machine (flag_branch "jbe" op))
      ∷ (0x3a, on_machine (op_a2flt f64 op))
      ∷ (0x3b, on_machine (op_float_arith f64 "fadd" f64.add op))
      ∷ (0x3c, on_machine (op_float_arith f64 "fsub" f64.sub op))
      ∷ (0x3d, on_machine (op_float_arith f64 "fmul" f64.mul op))
      ∷ (0x3e, on_machine (op_float_arith f64 "fdiv" f64.div op))
      ∷ (0x67, on_machine (op_a2fix op))
      ∷ (0x68, on_machine (op_fix2flt f64 op))
      ∷ (0x87, on_machine (op_flt2a f64 op))
      ∷ []

  unfoldable pub text_arms : Op → Arms
  unfolding op_a2y op_ergb op_ergd op_ergi op_ergw op_fcomp op_fix2 op_flt2fix op_hex2y op_scat
      op_scmp op_scut op_serase op_slen op_spaste op_strcat op_strcmp op_strlen op_swap op_wait
      op_y2bcd op_y2hex op_y_to_flt
  text_arms op =
      (0x8c, on_machine (op_a2y op))
      ∷ (0x8e, on_machine (op_hex2y op))
      ∷ (0x91, on_machine (op_y2bcd op))
      ∷ (0x92, on_machine (op_y2hex op))
      ∷ (0x96, on_machine (op_flt2fix f64 op))
      ∷ (0x9d, on_machine (op_y_to_flt f64 "y42flt" op 4))
      ∷ (0x9e, on_machine (op_y_to_flt f64 "y82flt" op 8))
      ∷ (0xa1, on_machine (op_fcomp f64 op))
      ∷ (0x6b, on_machine (op_wait op))
      ∷ (0x79, on_machine (op_fix2 "fix2hex" false op))
      ∷ (0x7a, on_machine (op_fix2 "fix2dez" true op))
      ∷ (0x20, on_machine (op_scmp op))
      ∷ (0x21, on_machine (op_scat op))
      ∷ (0x22, on_machine (op_scut op))
      ∷ (0x23, on_machine (op_slen op))
      ∷ (0x24, on_machine (op_spaste op))
      ∷ (0x25, on_machine (op_serase op))
      ∷ (0x7e, on_machine (op_strcat op))
      ∷ (0x8f, on_machine (op_strcmp op))
      ∷ (0x90, on_machine (op_strlen op))
      ∷ (0x51, on_machine (op_swap op))
      ∷ (0x34, op_ergb op)
      ∷ (0x35, op_ergw op)
      ∷ (0x36, op_ergd op)
      ∷ (0x37, op_ergi op)
      ∷ []

  unfoldable pub context_arms : Op → Arms
  unfolding op_atsp op_enewset op_ergc op_ergl op_ergr op_ergs op_ergy op_parl op_parn op_parr
      op_pars op_pary op_tabcols op_tabget op_tabline op_tabrows op_tabseek op_tabseeku op_tabset
      op_xsend
  context_arms op =
      (0x38, op_ergr op)
      ∷ (0x39, op_ergs op)
      ∷ (0x3f, op_ergy op)
      ∷ (0x81, op_ergc op)
      ∷ (0x82, op_ergl op)
      ∷ (0x40, op_enewset)
      ∷ (0x41, pure next)
      ∷ (0x55, op_parl op)
      ∷ (0x56, op_parl op)
      ∷ (0x57, op_parl op)
      ∷ (0x58, op_pars op)
      ∷ (0x69, op_parr f64 op)
      ∷ (0x7f, op_pary op)
      ∷ (0x80, op_parn op)
      ∷ (0x50, on_machine (op_atsp op))
      ∷ (0x7b, op_tabset op)
      ∷ (0x7c, op_tabseek op)
      ∷ (0x7d, op_tabget op)
      ∷ (0x83, op_tabline op)
      ∷ (0x9a, op_tabseeku op)
      ∷ (0xb6, op_tabcols op)
      ∷ (0xb7, op_tabrows op)
      ∷ (0x2a, on_machine (op_xsend op))
      ∷ (0x2c, lift (err (unimplemented "xrequf")))
      ∷ []

  unfoldable pub dispatch : Op → CtxM f64.F Flow
  unfolding integer_arms transfer_arms text_arms context_arms
  dispatch op =
      arm (integer_arms op)
        (arm (transfer_arms op)
          (arm (text_arms op) (arm (context_arms op) (lift (err (unhandled op.byte))) op.byte)
            op.byte)
          op.byte)
        op.byte

  -- The program counter goes past the instruction first.
  unfoldable pub step : Op → CtxM f64.F Flow
  unfolding fold_index_increments dispatch
  step op s = (fold_index_increments op >>= dispatch) (record s.0 { pc = op.offset + op.len }, s.1)
