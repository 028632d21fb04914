-- ===== src/Service/Runner/Guarded.antt =====
-- crates/service/src/runner.rs and precondition.rs: the run guarded by its preconditions.
use klartext.Prelude.{ℕ, List}
use klartext.Service.Phase.{Text, Invocation}
use klartext.Service.Precondition.{Float, Precondition, Category, MeasurementReader}
use klartext.Service.Runner.{JobRunner, ServiceReport, run_cycle, run_service}
use klartext.Service.Runner.Trace.{Job, logged}

-- A reader of measurements beside a runner that is logged: it leaves the log alone.
abbrev pub beside : {F S : Type 0} → MeasurementReader F S → MeasurementReader F (S × List Job)
beside reader (s, log) q = let seen = reader s q in (seen.0, (seen.1, log))

module _ {F S : Type 0} (float : Float F) (reader : MeasurementReader F S) (runner : JobRunner S)
    (job : Text) (target function_id : ℕ) (category : Category)
    (invocations : List Invocation) where
  abbrev guarded : S × List Job → ServiceReport F × (S × List Job)
  guarded s =
      run_service (logged runner) job target function_id invocations float (beside reader) category
        s

  -- The cycle without the guard.
  abbrev cycle : S × List Job → ServiceReport F × (S × List Job)
  cycle = run_cycle (logged runner) job target function_id invocations
