-- ===== src/Service/Precondition.antt =====
-- crates/service/src/precondition.rs: the checks before a service write. The arithmetic of `f64`
-- is a parameter, and a message is the list of the values it shows.
pub mod Checks
use klartext.Prelude.{
  ℕ, Bool, true, false, not, ◌||◌, List, [], ◌∷◌, Option, none, some, if◌then◌else◌, ◌⊎◌, inl, inr,
}
use klartext.Service.Phase.{Text}

-- What the source uses of `f64`: the tests, the absolute value, and whole literals.
pub record Float (F : Type 0) : Type 0 where
  pub is_finite : F → Bool
  pub abs : F → F
  pub lt : F → F → Bool
  pub ge : F → F → Bool
  pub ne : F → F → Bool
  pub literal : ℕ → F

-- `Category` of crates/semantic/src/service_function.rs.
pub data Category : Type 0 where
  cbs_reset learned_value_reset statistic_reset actuator_control calibration : Category

pub data Quantity : Type 0 where
  engine_speed battery_voltage coolant_temp road_speed terminal_status : Quantity

pub data Precondition (F : Type 0) : Type 0 where
  engine_running engine_off terminal_on vehicle_stationary : Precondition F
  battery_above coolant_below : F → Precondition F

pub data Verdict : Type 0 where
  passed failed unverified : Verdict

-- The texts of `detail`, each with the values that it shows.
pub data Detail (F : Type 0) : Type 0 where
  non_finite measured_value : F → Detail F
  unreadable : Text → Detail F

pub record PreconditionOutcome (F : Type 0) : Type 0 where
  pub precondition : Precondition F
  pub verdict : Verdict
  pub measured : Option F
  pub detail : Option (Detail F)

-- `MeasurementReader::read`, with the state behind it; `Result<f64, String>` is a sum.
abbrev pub MeasurementReader : Type 0 → Type 0 → Type 0
MeasurementReader F S = S → Quantity → (Text ⊎ F) × S

abbrev pub quantity : {F : Type 0} → Precondition F → Quantity
quantity engine_running = engine_speed
quantity engine_off = engine_speed
quantity terminal_on = terminal_status
quantity (battery_above v) = battery_voltage
quantity (coolant_below v) = coolant_temp
quantity vehicle_stationary = road_speed

module _ {F : Type 0} (float : Float F) where
  unfoldable pub satisfied_by : Precondition F → F → Bool
  satisfied_by engine_running value = float.ge value (float.literal 300)
  satisfied_by engine_off value = float.lt value (float.literal 300)
  satisfied_by terminal_on value = float.ne value (float.literal 0)
  satisfied_by (battery_above v) value = float.lt v value
  satisfied_by (coolant_below v) value = float.lt value v
  satisfied_by vehicle_stationary value = float.lt (float.abs value) (float.literal 1)

  abbrev pub defaults_for : Category → List (Precondition F)
  defaults_for actuator_control =
      terminal_on ∷ battery_above (float.literal 12) ∷ vehicle_stationary ∷ []
  defaults_for calibration = terminal_on ∷ battery_above (float.literal 12) ∷ []
  defaults_for cbs_reset = terminal_on ∷ []
  defaults_for learned_value_reset = terminal_on ∷ []
  defaults_for statistic_reset = terminal_on ∷ []

  -- The outcome that `evaluate` pushes for a condition and what was read for it.
  unfoldable pub outcome_of : Precondition F → Text ⊎ F → PreconditionOutcome F
  unfolding satisfied_by
  outcome_of p (inl why) = record {
    precondition = p;
    verdict = unverified;
    measured = none;
    detail = some (unreadable why);
  }
  outcome_of p (inr value) =
      if not (float.is_finite value)
      then record {
        precondition = p;
        verdict = unverified;
        measured = some value;
        detail = some (non_finite value);
      }
      else if satisfied_by p value
      then record { precondition = p; verdict = passed; measured = some value; detail = none }
      else record {
        precondition = p;
        verdict = failed;
        measured = some value;
        detail = some (measured_value value);
      }

  -- The loop of `evaluate`: one read for each condition, in order.
  unfoldable pub evaluate :
      {S : Type 0}
      → MeasurementReader F S
      → List (Precondition F)
      → S
      → List (PreconditionOutcome F) × S
  evaluate reader [] s = ([], s)
  evaluate reader (p ∷ ps) s =
      let seen = reader s (quantity p) in
      let rest = evaluate reader ps seen.1 in (outcome_of p seen.0 ∷ rest.0, rest.1)

abbrev pub is_failed : Verdict → Bool
is_failed passed = false
is_failed failed = true
is_failed unverified = false

unfoldable pub blocks : {F : Type 0} → List (PreconditionOutcome F) → Bool
blocks [] = false
blocks (o ∷ os) = is_failed o.verdict || blocks os
