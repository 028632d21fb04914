-- ===== src/Examples/Functions.antt =====
-- crates/service: a service function with three phases.
use klartext.Prelude.{
  Bool, ◌&&◌, if◌then◌else◌, ℕ, ◌+◌, ◌≡◌, ◌≢◌, refl, ◌⊎◌, true, not, List, [], ◌∷◌, ◌++◌, Option,
  none, some, All, ltb, leb, ◌==◌, inl, inr, arith,
}
use mathlib.Core.List.{map, Perm}
use klartext.Best.Exchange.{bytes_eq}
use klartext.Service.Grouping.{
  JobParameterEntry, preset_text, reset_text, value_of, from_catalog, key_le, insert_row, sort_rows,
  title_of, invocation_of, push_row, group,
}
use klartext.Service.Grouping.Order.{all_args, Sorted, group-args}
use klartext.Service.Phase.{Phase, Text, preset, main, reset, Invocation, arg_buffer}
use klartext.Service.Precondition.{Float, actuator_control, MeasurementReader}
use klartext.Service.Runner.{
  JobRunner, PhaseOutcome, is_some, is_empty, ServiceReport, run_cycle, run_service,
}
use klartext.Service.Runner.Cycle.{Lifecycle, run_cycle-Lifecycle}
use klartext.Service.Runner.Trace.{Job, logged, sent, Requested, Ascending}
use klartext.Service.Runner.Safety.{run_cycle-order, run_cycle_resets}
use klartext.Service.Runner.Guarded.{beside}

abbrev fan_reset : Invocation
fan_reset = record { function_id = 7; title = none; phase = reset; args = (0x30 ∷ []) ∷ [] }

-- The phases of the function 7, and before them one of the function 8.
abbrev other : Invocation
other = record { function_id = 8; title = none; phase = reset; args = (0x39 ∷ []) ∷ [] }

abbrev rest_of_fan : List Invocation
rest_of_fan =
    record { function_id = 7; title = none; phase = preset; args = (0x31 ∷ []) ∷ (0x32 ∷ []) ∷ [] }
    ∷ record { function_id = 7; title = none; phase = main; args = (0x33 ∷ []) ∷ [] }
    ∷ []

abbrev fan : List Invocation
fan = other ∷ fan_reset ∷ rest_of_fan

-- An ECU that refuses its second job, and counts the jobs.
abbrev moody : JobRunner ℕ
moody n job target args = (if n == 1 then some (0x21 ∷ []) else none, n + 1)

-- Whole numbers in the place of `f64`.
abbrev whole : Float ℕ
whole = record {
  is_finite = λ x. true;
  abs = λ x. x;
  lt = ltb;
  ge = λ x y. leb y x;
  ne = λ x y. not (x == y);
  literal = λ n. n;
}

-- A car whose battery is low, and whose other quantities read 1.
abbrev low_battery : MeasurementReader ℕ ℕ
low_battery n quantity = (inr 1, n)

abbrev fan_report : ServiceReport ℕ
fan_report = (run_cycle moody (0x4a ∷ []) 0x12 7 fan {F = ℕ} 0).0

run_cycle-Lifecycle_example :
    (before : List PhaseOutcome) × (broke : Bool) × (torn : List PhaseOutcome) × (error : Option
      Text)
    × Lifecycle moody
        (0x4a ∷ [])
        0x12
        7
        fan
        0
        before
        broke
        torn
        error
        (run_cycle moody (0x4a ∷ []) 0x12 7 fan {F = ℕ} 0).1
    × (fan_report.phases ≡ before ++ torn)
    × (fan_report.succeeded ≡ (not (is_empty (before ++ torn)) && not broke && not (is_some error)))
run_cycle-Lifecycle_example = run_cycle-Lifecycle moody (0x4a ∷ []) 0x12 7 fan ℕ 0

abbrev logged_fan : ServiceReport ℕ × (ℕ × List Job)
logged_fan = run_cycle (logged moody) (0x4a ∷ []) 0x12 7 fan {F = ℕ} (0, [])

run_cycle-order_example :
    (logged_fan.1.1 ≡ [] ++ sent (0x4a ∷ []) 0x12 logged_fan.0.phases)
    × All (Requested moody (0x4a ∷ []) 0x12 7 fan) logged_fan.0.phases
    × Ascending logged_fan.0.phases
    × (All (λ o. (o.error ≡ none) ⊎ (o.phase ≢ preset)) logged_fan.0.phases
        ⊎ All (λ o. o.phase ≢ main) logged_fan.0.phases)
run_cycle-order_example = run_cycle-order moody (0x4a ∷ []) 0x12 7 fan ℕ (0, [])

run_cycle_resets_example :
    (before : List PhaseOutcome) × (error : Option Text) × (logged_fan.0.phases
      ≡ before ++ record { phase = reset; args = arg_buffer fan_reset; error = error } ∷ [])
    × (logged_fan.1.1
        ≡ []
          ++ (sent (0x4a ∷ []) 0x12 before ++ (0x4a ∷ [], 0x12, arg_buffer fan_reset, error) ∷ []))
run_cycle_resets_example =
    run_cycle_resets moody (0x4a ∷ []) 0x12 7 fan ℕ (0, []) (other ∷ []) rest_of_fan fan_reset refl
      refl refl (inl (λ e. absurd (omega (arith, e))), tt)

abbrev guarded_run : ServiceReport ℕ × (ℕ × List Job)
guarded_run =
    run_service (logged moody) (0x4a ∷ []) 0x12 7 fan whole (beside low_battery) actuator_control
      (0, [])

-- Rows of two functions out of order; the ids and the positions are those of the catalog.
abbrev row : ℕ → Option Text → ℕ → ℕ → JobParameterEntry
row id phase position c = record {
  function_id = id;
  function_en = some (0x66 ∷ []);
  function_de = none;
  phase = phase;
  position = position;
  value = some (c ∷ []);
  label = none;
}

abbrev rows : List JobParameterEntry
rows =
    row 9 (some reset_text) 1 0x30
    ∷ row 9 none 2 0x32
    ∷ row 8 (some preset_text) 1 0x35
    ∷ row 9 none 1 0x31
    ∷ []

group_run :
    map {B = ℕ × Phase × List Text} (λ i. (i.function_id, i.phase, i.args)) (group (λ t. t) rows)
    ≡ (8, preset, (0x35 ∷ []) ∷ [])
      ∷ (9, main, (0x31 ∷ []) ∷ (0x32 ∷ []) ∷ [])
      ∷ (9, reset, (0x30 ∷ []) ∷ [])
      ∷ []
unfolding group push_row sort_rows insert_row key_le invocation_of title_of from_catalog bytes_eq
group_run = refl

group-args_example :
    (all_args (group (λ t. t) rows) ≡ map value_of (sort_rows rows))
    × Perm rows (sort_rows rows)
    × Sorted (sort_rows rows)
group-args_example = group-args (λ t. t) rows
