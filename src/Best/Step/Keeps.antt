-- ===== src/Best/Step/Keeps.antt =====
-- crates/best/src/exec.rs: a step and the invariant of a run.
use Prim.Native.Nat.{bit_xor}
use klartext.Prelude.{
  ℕ, ◌+◌, ◌==◌, Bool, true, false, not, List, [], ◌∷◌, if◌then◌else◌, err, refl, All, bit_and,
  bit_or,
}
use klartext.Best.Decode.{Op}
use klartext.Best.Decode.Reads.{OperandInRange}
use klartext.Best.Decode.Operands.{OpInRange}
use klartext.Best.Machine.{}
use klartext.Best.Exec.{Flow}
use klartext.Best.Exec.Keeps.{FlowInRange, Post, sizes}
use klartext.Best.Integers.Keeps.{
  branch-Keeps, op_comp-Keeps, op_subb-Keeps, op_adds-Keeps, op_bitwise-Keeps, op_not-Keeps,
  op_push-Keeps, op_pop-Keeps,
}
use klartext.Best.Moves.Keeps.{
  op_move-Keeps, op_clear-Keeps, op_asr-Keeps, op_lsr-Keeps, op_shift_left-Keeps, op_swap-Keeps,
  op_mult-Keeps, op_divs-Keeps,
}
use klartext.Best.Strings.Keeps.{
  op_scmp-Keeps, op_scat-Keeps, op_scut-Keeps, op_slen-Keeps, op_spaste-Keeps, op_serase-Keeps,
  op_strcat-Keeps, op_strcmp-Keeps, op_strlen-Keeps, op_xsend-Keeps,
}
use klartext.Best.Convert.Keeps.{
  op_a2fix-Keeps, op_a2y-Keeps, op_atsp-Keeps, op_break-Keeps, op_clrt-Keeps, op_fix2-Keeps,
  op_gettmr-Keeps, op_hex2y-Keeps, op_settmr-Keeps, op_wait-Keeps, op_y2bcd-Keeps, op_y2hex-Keeps,
}
use klartext.Best.Floats.{F64}
use klartext.Best.Floats.Keeps.{
  op_a2flt-Keeps, op_fcomp-Keeps, op_fix2flt-Keeps, op_float_arith-Keeps, op_flt2a-Keeps,
  op_flt2fix-Keeps, op_y_to_flt-Keeps,
}
use klartext.Best.Context.{State, CtxM}
use klartext.Best.Context.Keeps.{
  IsState, KeepsState, KeepsState-lift, KeepsState-bind-with, KeepsState-next, op_enewset-Keeps,
  op_ergb-Keeps, op_ergc-Keeps, op_ergd-Keeps, op_ergi-Keeps, op_ergl-Keeps, op_ergr-Keeps,
  op_ergs-Keeps, op_ergw-Keeps, op_ergy-Keeps, op_parl-Keeps, op_parn-Keeps, op_parr-Keeps,
  op_pars-Keeps, op_pary-Keeps,
}
use klartext.Best.Tables.Keeps.{
  op_tabcols-Keeps, op_tabget-Keeps, op_tabline-Keeps, op_tabrows-Keeps, op_tabseek-Keeps,
  op_tabseeku-Keeps, op_tabset-Keeps,
}
use klartext.Best.Step.{
  fold_index_increments, unhandled, arm, integer_arms, transfer_arms, text_arms, context_arms,
  dispatch, step,
}
use klartext.Best.Step.Parts.{
  on_machine-Keeps, flag_branch-Keeps, set_carry_to-Keeps, trap_branch-Keeps,
  fold_index_increments-Keeps,
}

abbrev ArmKeeps : {F : Type 0} → ℕ × CtxM F Flow → Type 0
ArmKeeps pair = KeepsState FlowInRange pair.1

arm-Keeps :
    {F : Type 0} (arms : List (ℕ × CtxM F Flow)) (other : CtxM F Flow) (byte : ℕ)
    → All ArmKeeps arms
    → KeepsState FlowInRange other
    → KeepsState FlowInRange (arm arms other byte)
arm-Keeps [] other byte h k = k
arm-Keeps ((b, act) ∷ arms) other byte h k = either (b == byte) (arm-Keeps arms other byte h.1 k)
  where
    either :
        (c : Bool)
        → KeepsState FlowInRange (arm arms other byte)
        → KeepsState FlowInRange (if c then act else arm arms other byte)
    either true rest = h.0
    either false rest = rest

-- The arms one after the other.
infixr 5 ◌&◌
abbrev ◌&◌ : {A B : Type 0} → A → B → A × B
a & b = (a, b)

module _ (f64 : F64) (op : Op) (h : OperandInRange op.arg0 × OperandInRange op.arg1) where
  integer_arms-Keeps : All ArmKeeps (integer_arms f64 op)
  unfolding integer_arms
  integer_arms-Keeps =
      on_machine-Keeps _ (op_move-Keeps op h.0 h.1)
      & on_machine-Keeps _ (op_clear-Keeps op h.0 h.1 f64.zero_float)
      & on_machine-Keeps _ (op_comp-Keeps op h.0 h.1)
      & on_machine-Keeps _ (op_subb-Keeps op h.0 h.1)
      & on_machine-Keeps _ (op_adds-Keeps op h.0 h.1)
      & on_machine-Keeps _ (op_mult-Keeps op h.0 h.1)
      & on_machine-Keeps _ (op_divs-Keeps op h.0 h.1)
      & on_machine-Keeps _ (op_bitwise-Keeps op h.0 h.1 "and" bit_and)
      & on_machine-Keeps _ (op_bitwise-Keeps op h.0 h.1 "or" bit_or)
      & on_machine-Keeps _ (op_bitwise-Keeps op h.0 h.1 "xor" bit_xor)
      & on_machine-Keeps _ (op_not-Keeps op h.0 h.1)
      & on_machine-Keeps _ (branch-Keeps "jump" op true)
      & on_machine-Keeps _ (flag_branch-Keeps "jc" op)
      & on_machine-Keeps _ (flag_branch-Keeps "jae" op)
      & on_machine-Keeps _ (flag_branch-Keeps "jz" op)
      & on_machine-Keeps _ (flag_branch-Keeps "jnz" op)
      & on_machine-Keeps _ (flag_branch-Keeps "jv" op)
      & on_machine-Keeps _ (flag_branch-Keeps "jnv" op)
      & on_machine-Keeps _ (flag_branch-Keeps "jmi" op)
      & on_machine-Keeps _ (flag_branch-Keeps "jpl" op)
      & on_machine-Keeps _ (set_carry_to-Keeps false)
      & on_machine-Keeps _ (set_carry_to-Keeps true)
      & on_machine-Keeps _ (op_asr-Keeps op h.0 h.1)
      & on_machine-Keeps _ (op_shift_left-Keeps op h.0 h.1 "lsl")
      & on_machine-Keeps _ (op_lsr-Keeps op h.0 h.1)
      & tt

  transfer_arms-Keeps : All ArmKeeps (transfer_arms f64 op)
  unfolding transfer_arms
  transfer_arms-Keeps =
      on_machine-Keeps _ (op_shift_left-Keeps op h.0 h.1 "asl")
      & KeepsState-next
      & KeepsState-lift _ tt
      & on_machine-Keeps _ (op_push-Keeps op h.0 h.1)
      & on_machine-Keeps _ (op_pop-Keeps op h.0 h.1)
      & on_machine-Keeps _ (op_gettmr-Keeps op h.0 h.1)
      & on_machine-Keeps _ (op_settmr-Keeps op h.0 h.1)
      & on_machine-Keeps _ (op_clrt-Keeps)
      & on_machine-Keeps _ (trap_branch-Keeps op h.0 h.1 "jt" (λ b. b))
      & on_machine-Keeps _ (trap_branch-Keeps op h.0 h.1 "jnt" not)
      & on_machine-Keeps _ (op_break-Keeps)
      & on_machine-Keeps _ (flag_branch-Keeps "jg" op)
      & on_machine-Keeps _ (flag_branch-Keeps "jge" op)
      & on_machine-Keeps _ (flag_branch-Keeps "jl" op)
      & on_machine-Keeps _ (flag_branch-Keeps "jle" op)
      & on_machine-Keeps _ (flag_branch-Keeps "ja" op)
      & on_machine-Keeps _ (flag_branch-Keeps "jbe" op)
      & on_machine-Keeps _ (op_a2flt-Keeps f64 op h.0 h.1)
      & on_machine-Keeps _ (op_float_arith-Keeps f64 op h.0 h.1 "fadd" f64.add)
      & on_machine-Keeps _ (op_float_arith-Keeps f64 op h.0 h.1 "fsub" f64.sub)
      & on_machine-Keeps _ (op_float_arith-Keeps f64 op h.0 h.1 "fmul" f64.mul)
      & on_machine-Keeps _ (op_float_arith-Keeps f64 op h.0 h.1 "fdiv" f64.div)
      & on_machine-Keeps _ (op_a2fix-Keeps op h.0 h.1)
      & on_machine-Keeps _ (op_fix2flt-Keeps f64 op h.0 h.1)
      & on_machine-Keeps _ (op_flt2a-Keeps f64 op h.0 h.1)
      & tt

  text_arms-Keeps : All ArmKeeps (text_arms f64 op)
  unfolding text_arms
  text_arms-Keeps =
      on_machine-Keeps _ (op_a2y-Keeps op h.0 h.1)
      & on_machine-Keeps _ (op_hex2y-Keeps op h.0 h.1)
      & on_machine-Keeps _ (op_y2bcd-Keeps op h.0 h.1)
      & on_machine-Keeps _ (op_y2hex-Keeps op h.0 h.1)
      & on_machine-Keeps _ (op_flt2fix-Keeps f64 op h.0 h.1)
      & on_machine-Keeps _ (op_y_to_flt-Keeps f64 op h.0 h.1 "y42flt" 4)
      & on_machine-Keeps _ (op_y_to_flt-Keeps f64 op h.0 h.1 "y82flt" 8)
      & on_machine-Keeps _ (op_fcomp-Keeps f64 op h.0 h.1)
      & on_machine-Keeps _ (op_wait-Keeps op h.0 h.1)
      & on_machine-Keeps _ (op_fix2-Keeps op h.0 h.1 "fix2hex" false)
      & on_machine-Keeps _ (op_fix2-Keeps op h.0 h.1 "fix2dez" true)
      & on_machine-Keeps _ (op_scmp-Keeps op h.0 h.1)
      & on_machine-Keeps _ (op_scat-Keeps op h.0 h.1)
      & on_machine-Keeps _ (op_scut-Keeps op h.0 h.1)
      & on_machine-Keeps _ (op_slen-Keeps op h.0 h.1)
      & on_machine-Keeps _ (op_spaste-Keeps op h.0 h.1)
      & on_machine-Keeps _ (op_serase-Keeps op h.0 h.1)
      & on_machine-Keeps _ (op_strcat-Keeps op h.0 h.1)
      & on_machine-Keeps _ (op_strcmp-Keeps op h.0 h.1)
      & on_machine-Keeps _ (op_strlen-Keeps op h.0 h.1)
      & on_machine-Keeps _ (op_swap-Keeps op h.0 h.1)
      & op_ergb-Keeps op h.0 h.1
      & op_ergw-Keeps op h.0 h.1
      & op_ergd-Keeps op h.0 h.1
      & op_ergi-Keeps op h.0 h.1
      & tt

  context_arms-Keeps : All ArmKeeps (context_arms f64 op)
  unfolding context_arms
  context_arms-Keeps =
      op_ergr-Keeps op h.0 h.1
      & op_ergs-Keeps op h.0 h.1
      & op_ergy-Keeps op h.0 h.1
      & op_ergc-Keeps op h.0 h.1
      & op_ergl-Keeps op h.0 h.1
      & op_enewset-Keeps
      & KeepsState-next
      & op_parl-Keeps op h.0 h.1
      & op_parl-Keeps op h.0 h.1
      & op_parl-Keeps op h.0 h.1
      & op_pars-Keeps op h.0 h.1
      & op_parr-Keeps f64 op h.0 h.1
      & op_pary-Keeps op h.0 h.1
      & op_parn-Keeps op h.0 h.1
      & on_machine-Keeps _ (op_atsp-Keeps op h.0 h.1)
      & op_tabset-Keeps op h.0 h.1
      & op_tabseek-Keeps op h.0 h.1
      & op_tabget-Keeps op h.0 h.1
      & op_tabline-Keeps op h.0 h.1
      & op_tabseeku-Keeps op h.0 h.1
      & op_tabcols-Keeps op h.0 h.1
      & op_tabrows-Keeps op h.0 h.1
      & on_machine-Keeps _ (op_xsend-Keeps op h.0 h.1)
      & KeepsState-lift _ tt
      & tt

  dispatch-Keeps : KeepsState FlowInRange (dispatch f64 op)
  unfolding dispatch
  dispatch-Keeps = arm-Keeps (integer_arms f64 op) _ op.byte integer_arms-Keeps (
      arm-Keeps (transfer_arms f64 op) _ op.byte transfer_arms-Keeps (
        arm-Keeps (text_arms f64 op) _ op.byte text_arms-Keeps (
          arm-Keeps (context_arms f64 op) _ op.byte context_arms-Keeps
            (KeepsState-lift (err (unhandled op.byte)) tt))))

-- An instruction whose registers exist leaves the machine with its sizes, a current result set, and a
-- cursor that selects no table and no row, or a table of the file with no row or one of its rows, on
-- every outcome. It yields a flow whose destination exists or an error other than a register out of
-- range, and does not abort.
pub step-IsState :
    (f64 : F64) (op : Op) (s : State f64.F)
    → OpInRange op
    → IsState s
    → IsState (step f64 op s).1 × Post FlowInRange (step f64 op s).0
unfolding step OpInRange
step-IsState f64 op s h w =
    (KeepsState-bind-with OpInRange (fold_index_increments op) (dispatch f64)
        (fold_index_increments-Keeps op h) λ folded p. dispatch-Keeps f64 folded (both folded p)).at
      (record s.0 { pc = op.offset + op.len }, s.1)
      record {
        machine_sizes = sizes refl refl refl w.machine_sizes;
        some_set = w.some_set;
        cursor = w.cursor;
      }
  where
    both : (o : Op) → OpInRange o → OperandInRange o.arg0 × OperandInRange o.arg1
    both o p = p
