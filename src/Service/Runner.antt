-- ===== src/Service/Runner.antt =====
-- crates/service/src/runner.rs: the phase cycle of a service function, guarded by preconditions.
pub mod Cycle
pub mod Trace
pub mod Safety
pub mod Guarded
pub mod Picks
use klartext.Prelude.{
  ℕ, Bool, true, false, not, ◌&&◌, ◌||◌, List, [], ◌∷◌, ◌++◌, Option, none, some, ◌==◌,
  if◌then◌else◌,
}
use klartext.Service.Phase.{Text, Phase, preset, main, reset, phase_eq, Invocation, arg_buffer}
use klartext.Service.Precondition.{
  Float, Category, MeasurementReader, PreconditionOutcome, defaults_for, evaluate, blocks,
}

-- `JobRunner::run`, with the state behind it; `Result<(), String>` is its error, if any.
abbrev pub JobRunner : Type 0 → Type 0
JobRunner S = S → Text → ℕ → Text → Option Text × S

pub data Teardown : Type 0 where
  not_defined ran : Teardown
  teardown_failed : Text → Teardown

pub record PhaseOutcome : Type 0 where
  pub phase : Phase
  pub args : Text
  pub error : Option Text

pub record ServiceReport (F : Type 0) : Type 0 where
  pub job : Text
  pub title : Option Text
  pub phases : List PhaseOutcome
  pub teardown : Teardown
  pub succeeded : Bool
  pub preconditions : List (PreconditionOutcome F)
  pub blocked : Bool

abbrev pub is_some {ℓ} : {A : Type ℓ} → Option A → Bool
is_some none = false
is_some (some a) = true

abbrev pub is_empty {ℓ} : {A : Type ℓ} → List A → Bool
is_empty [] = true
is_empty (x ∷ xs) = false

abbrev pub teardown_of : Option Text → Teardown
teardown_of none = ran
teardown_of (some e) = teardown_failed e

abbrev pub did_fail : Teardown → Bool
did_fail not_defined = false
did_fail ran = false
did_fail (teardown_failed e) = true

-- The closure `pick` of `run_cycle`.
unfoldable pub pick : ℕ → List Invocation → Phase → Option Invocation
pick function_id [] phase = none
pick function_id (i ∷ is) phase =
    let rest = pick function_id is phase in
    if (i.function_id == function_id) && phase_eq i.phase phase then some i else rest

-- `find_map` over the invocations of the function.
unfoldable pub chosen_title : ℕ → List Invocation → Option Text
chosen_title function_id [] = none
chosen_title function_id (i ∷ is) =
    let rest = chosen_title function_id is in
    if i.function_id == function_id then elim i.title [ none ↦ rest | some t ↦ some t ] else rest

module _ {S : Type 0} (runner : JobRunner S) (job : Text) (target function_id : ℕ)
    (invocations : List Invocation) where
  -- The loop over the phases before the teardown: the outcomes, `failed` and the state.
  unfoldable pub attempt : List Phase → List PhaseOutcome → Bool → S → List PhaseOutcome × Bool × S
  attempt [] phases failed s = (phases, failed, s)
  attempt (phase ∷ rest) phases failed s = elim (pick function_id invocations phase) [
    | none ↦ attempt rest phases failed s
    | some inv ↦
        let args = arg_buffer inv in
        let done = runner s job target args in
        let next =
          attempt rest (phases ++ record { phase = phase; args = args; error = done.0 } ∷ [])
            (failed || is_some done.0) done.1 in
        if failed then (phases, failed, s) else next
  ]

  -- The `match` on the Reset phase.
  unfoldable pub tear_down : List PhaseOutcome → S → List PhaseOutcome × Teardown × S
  tear_down phases s = elim (pick function_id invocations reset) [
    | none ↦ (phases, not_defined, s)
    | some inv ↦
        let args = arg_buffer inv in
        let done = runner s job target args in
        (
          phases ++ record { phase = reset; args = args; error = done.0 } ∷ [],
          teardown_of done.0,
          done.1,
        )
  ]

  unfoldable pub run_cycle : {F : Type 0} → S → ServiceReport F × S
  unfolding attempt tear_down
  run_cycle s =
      let before = attempt (preset ∷ main ∷ []) [] false s in
      let end = tear_down before.0 before.2 in
      (
        record {
          job = job;
          title = chosen_title function_id invocations;
          phases = end.0;
          teardown = end.1;
          succeeded = not (is_empty end.0) && not before.1 && not (did_fail end.1);
          preconditions = [];
          blocked = false;
        },
        end.2,
      )

  -- `run_service`, on one state for the reader and the runner.
  unfoldable pub run_service :
      {F : Type 0} → Float F → MeasurementReader F S → Category → S → ServiceReport F × S
  unfolding run_cycle
  run_service float reader category s =
      let checked = evaluate float reader (defaults_for float category) s in
      let done = run_cycle checked.1 in
      if blocks checked.0
      then (
        record {
          job = job;
          title = chosen_title function_id invocations;
          phases = [];
          teardown = not_defined;
          succeeded = false;
          preconditions = checked.0;
          blocked = true;
        },
        checked.1,
      )
      else (record done.0 { preconditions = checked.0 }, done.1)
