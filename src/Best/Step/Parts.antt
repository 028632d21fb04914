-- ===== src/Best/Step/Parts.antt =====
-- crates/best/src/exec.rs: the fold of index increments and the arms that `step` writes out, for the
-- invariant of a run.
use Prim.Native.String.{String}
use klartext.Prelude.{
  ℕ, ◌+◌, ◌/◌, ◌%◌, ◌==◌, Bool, true, false, none, some, if◌then◌else◌, Result, ok, err, panic,
  refl,
}
use klartext.Best.Decode.{IndexArg, imm_index, Operand, no_operand, imm, str, reg, indexed, Op}
use klartext.Best.Decode.Reads.{OperandInRange, IndexInRange}
use klartext.Best.Decode.Operands.{OpInRange}
use klartext.Best.Machine.{
  MachineError, out_of_range, index_out_of_bounds, unsupported, Machine, resolve_index,
}
use klartext.Best.Machine.Bytes.{IsMachine}
use klartext.Best.Machine.Bounds.{Found, Any, resolve_index-Found}
use klartext.Best.Exec.{ExecError, machine, Flow, ExecM}
use klartext.Best.Branches.{branch, taken}
use klartext.Best.Exec.Keeps.{Keeps, FlowInRange, Post, sizes}
use klartext.Best.Integers.Keeps.{branch-Keeps}
use klartext.Best.Moves.Keeps.{}
use klartext.Best.Strings.Keeps.{}
use klartext.Best.Convert.{trap_detected}
use klartext.Best.Convert.Keeps.{trap_detected-Keeps}
use klartext.Best.Floats.Keeps.{}
use klartext.Best.Context.{State, on_machine}
use klartext.Best.Context.Keeps.{
  IsState, KeepsState, KeepsState-lift, KeepsState-on_machine, KeepsState-bind-with,
}
use klartext.Best.Tables.Keeps.{}
use klartext.Best.Step.{
  resolved, fold_increment, folded, fold_index_increments, flag_branch, set_carry_to, trap_branch,
}

module _ {F : Type 0} where
  pub on_machine-Keeps :
      (act : ExecM F Flow) → Keeps FlowInRange act → KeepsState FlowInRange (on_machine act)
  on_machine-Keeps = KeepsState-on_machine

  pub flag_branch-Keeps :
      (mnemonic : String) (op : Op) → Keeps {F = F} FlowInRange (flag_branch mnemonic op)
  unfolding flag_branch
  flag_branch-Keeps mnemonic op = record {
    at = λ m w. (branch-Keeps mnemonic op (taken op.byte m.flags)).at m w;
  }

  pub set_carry_to-Keeps : (c : Bool) → Keeps {F = F} FlowInRange (set_carry_to c)
  unfolding set_carry_to
  set_carry_to-Keeps c = record { at = λ m w. (sizes refl refl refl w, tt) }

  pub trap_branch-Keeps :
      (op : Op)
      → OperandInRange op.arg0
      → OperandInRange op.arg1
      → (mnemonic : String) (test : Bool → Bool)
      → Keeps {F = F} FlowInRange (trap_branch mnemonic op test)
  unfolding trap_branch
  trap_branch-Keeps op h k mnemonic test = record {
    at = λ m w. go (trap_detected op m) ((trap_detected-Keeps op h k).at m w);
  }
    where
      go :
          (detected : Result ExecError Bool × Machine F)
          → IsMachine detected.1 × Post Any detected.0
          → let out : Result ExecError Flow × Machine F = elim detected.0 [
            | ok b ↦ branch mnemonic op (test b) detected.1
            | err e ↦ (err e, detected.1)
            | panic ↦ (panic, detected.1)
          ] in
            IsMachine out.1 × Post FlowInRange out.0
      go (ok b, m) (w, p) = (branch-Keeps mnemonic op (test b)).at m w
      go (err e, m) (w, p) = (w, p)
      go (panic, m) (w, p) = absurd p

  resolved-Post :
      (m : Machine F)
      → IsMachine m
      → (index : IndexArg) → IndexInRange index
      → Post Any (resolved m index)
  resolved-Post m w index h = go (resolve_index m index) (resolve_index-Found m w index h)
    where
      go :
          (r : Result MachineError ℕ)
          → Found Any r
          → Post {A = ℕ} Any (elim r [ ok n ↦ ok n | err e ↦ err (machine e) | panic ↦ panic ])
      go (ok n) p = tt
      go (err (index_out_of_bounds i n)) p = tt
      go (err (unsupported u)) p = tt
      go (err (out_of_range bank idx)) p = absurd p
      go panic p = absurd p

  fold_increment-Post :
      (m : Machine F)
      → IsMachine m
      → (op : Operand) → OperandInRange op
      → Post OperandInRange (fold_increment m op)
  unfolding fold_increment
  fold_increment-Post m w no_operand h = h
  fold_increment-Post m w (imm v) h = h
  fold_increment-Post m w (str b) h = h
  fold_increment-Post m w (reg bank idx) h = h
  fold_increment-Post m w (indexed base index none) h = h
  fold_increment-Post m w (indexed base index (some increment)) (h, k, j) =
      first (resolved m index) (resolved-Post m w index k)
    where
      second :
          (i : ℕ) (r : Result ExecError ℕ)
          → Post Any r
          → Post OperandInRange (elim r [
            | ok n ↦ ok (indexed base (imm_index (i + n)) none)
            | err e ↦ err e
            | panic ↦ panic
          ])
      second i (ok n) p = (h, tt, tt)
      second i (err e) p = p
      second i panic p = absurd p

      first :
          (r : Result ExecError ℕ)
          → Post Any r
          → Post OperandInRange (elim r [
            | ok i ↦ elim (resolved m increment) [
              | ok n ↦ ok (indexed base (imm_index (i + n)) none)
              | err e ↦ err e
              | panic ↦ panic
            ]
            | err e ↦ err e
            | panic ↦ panic
          ])
      first (ok i) p = second i (resolved m increment) (resolved-Post m w increment j)
      first (err e) p = p
      first panic p = absurd p

  folded-Keeps :
      (nibble : ℕ) (op : Operand)
      → OperandInRange op
      → KeepsState {F = F} OperandInRange (folded nibble op)
  unfolding folded
  folded-Keeps nibble op h = record { at = λ s w. either s w (nibble == 11) }
    where
      either :
          (s : State F)
          → IsState s
          → (b : Bool)
          → let out : Result ExecError Operand × State F =
              if b then (fold_increment s.0 op, s) else (ok op, s) in
            IsState out.1 × Post OperandInRange out.0
      either s w true = (w, fold_increment-Post s.0 w.machine_sizes op h)
      either s w false = (w, h)

  pub fold_index_increments-Keeps :
      (op : Op) → OpInRange op → KeepsState {F = F} OpInRange (fold_index_increments op)
  unfolding fold_index_increments OpInRange
  fold_index_increments-Keeps op h =
      KeepsState-bind-with OperandInRange _ _ (folded-Keeps (op.mode_byte / 16) op.arg0 h.0)
        λ arg0 p.
          KeepsState-bind-with OperandInRange _ _ (folded-Keeps (op.mode_byte % 16) op.arg1 h.1)
            λ arg1 q. KeepsState-lift (ok record op { arg0 = arg0; arg1 = arg1 }) (p, q)
