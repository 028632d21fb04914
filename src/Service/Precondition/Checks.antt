-- ===== src/Service/Precondition/Checks.antt =====
-- crates/service/src/precondition.rs: the checks of a category as a relation, from what was read to the
-- verdict.
use klartext.Prelude.{
  ◌≡◌, refl, ◌⊎◌, inl, inr, true, false, List, [], ◌∷◌, ◌++◌, some, none, Bool-cases,
}
use klartext.Service.Phase.{Text}
use klartext.Service.Precondition.{
  Category, cbs_reset, learned_value_reset, statistic_reset, actuator_control, calibration,
  defaults_for, Float, Precondition, engine_running, engine_off, terminal_on, vehicle_stationary,
  battery_above, coolant_below, passed, failed, unverified, non_finite, measured_value, unreadable,
  PreconditionOutcome, MeasurementReader, quantity, satisfied_by, outcome_of, evaluate,
}

module _ {F : Type 0} (float : Float F) where
  -- When a value meets a condition: an engine runs from 300 turns on, and a car stands below 1 km/h.
  abbrev pub Holds : Precondition F → F → Type 0
  Holds engine_running v = float.ge v (float.literal 300) ≡ true
  Holds engine_off v = float.lt v (float.literal 300) ≡ true
  Holds terminal_on v = float.ne v (float.literal 0) ≡ true
  Holds (battery_above bound) v = float.lt bound v ≡ true
  Holds (coolant_below bound) v = float.lt v bound ≡ true
  Holds vehicle_stationary v = float.lt (float.abs v) (float.literal 1) ≡ true

  -- The outcome of a condition for what was read: a finite value decides it, and nothing else does.
  pub data Judged (p : Precondition F) : Text ⊎ F → PreconditionOutcome F → Type 0 where
    unread :
        (why : Text)
        → Judged p (inl why) (record {
          precondition = p;
          verdict = unverified;
          measured = none;
          detail = some (unreadable why);
        })
    undecided :
        (v : F)
        → float.is_finite v ≡ false
        → Judged p (inr v) (record {
          precondition = p;
          verdict = unverified;
          measured = some v;
          detail = some (non_finite v);
        })
    held :
        (v : F)
        → float.is_finite v ≡ true
        → Holds p v
        → Judged p
            (inr v)
            (record { precondition = p; verdict = passed; measured = some v; detail = none })
    broken :
        (v : F)
        → float.is_finite v ≡ true
        → ¬ Holds p v
        → Judged p (inr v) (record {
          precondition = p;
          verdict = failed;
          measured = some v;
          detail = some (measured_value v);
        })

  -- The conditions are judged in order, each on one reading of its quantity.
  pub data Checked {S : Type 0} (reader : MeasurementReader F S)
      : S → List (Precondition F) → List (PreconditionOutcome F) → S → Type 0 where
    all_done : {s : S} → Checked reader s [] [] s
    then_next :
        {s s₁ s' : S} {p : Precondition F} {ps : List (Precondition F)} {o : PreconditionOutcome F}
        {os : List (PreconditionOutcome F)} {seen : Text ⊎ F}
        → reader s (quantity p) ≡ (seen, s₁)
        → Judged p seen o
        → Checked reader s₁ ps os s'
        → Checked reader s (p ∷ ps) (o ∷ os) s'

  satisfied_by-Holds : (p : Precondition F) (v : F) → satisfied_by float p v ≡ true → Holds p v
  unfolding satisfied_by
  satisfied_by-Holds engine_running v e = e
  satisfied_by-Holds engine_off v e = e
  satisfied_by-Holds terminal_on v e = e
  satisfied_by-Holds (battery_above bound) v e = e
  satisfied_by-Holds (coolant_below bound) v e = e
  satisfied_by-Holds vehicle_stationary v e = e

  Holds-satisfied_by : (p : Precondition F) (v : F) → Holds p v → satisfied_by float p v ≡ true
  unfolding satisfied_by
  Holds-satisfied_by engine_running v e = e
  Holds-satisfied_by engine_off v e = e
  Holds-satisfied_by terminal_on v e = e
  Holds-satisfied_by (battery_above bound) v e = e
  Holds-satisfied_by (coolant_below bound) v e = e
  Holds-satisfied_by vehicle_stationary v e = e

  outcome_of-Judged :
      (p : Precondition F) (seen : Text ⊎ F) → Judged p seen (outcome_of float p seen)
  unfolding outcome_of
  outcome_of-Judged p (inl why) = unread why
  outcome_of-Judged p (inr v) = elim (Bool-cases (float.is_finite v)) [
    | inr e ↦ rw (e, outcome_of) (undecided v e)
    | inl e ↦ elim (Bool-cases (satisfied_by float p v)) [
      | inl yes_held ↦ rw (e, yes_held, outcome_of) (held v e (satisfied_by-Holds p v yes_held))
      | inr no_held ↦
          rw (e, no_held, outcome_of)
            (broken v e (λ h. absurd (cc (no_held, Holds-satisfied_by p v h))))
    ]
  ]

  -- What a category demands: power on the terminals always, a battery above 12 V to move or to calibrate
  -- something, and to move something a standing car.
  abbrev for_power : Category → List (Precondition F)
  for_power actuator_control = battery_above (float.literal 12) ∷ []
  for_power calibration = battery_above (float.literal 12) ∷ []
  for_power _ = []

  abbrev for_motion : Category → List (Precondition F)
  for_motion actuator_control = vehicle_stationary ∷ []
  for_motion _ = []

  abbrev pub demanded : Category → List (Precondition F)
  demanded category = terminal_on ∷ for_power category ++ for_motion category

  pub defaults_for-demanded :
      (category : Category) → defaults_for float category ≡ demanded category
  defaults_for-demanded cbs_reset = refl
  defaults_for-demanded learned_value_reset = refl
  defaults_for-demanded statistic_reset = refl
  defaults_for-demanded actuator_control = refl
  defaults_for-demanded calibration = refl

  pub evaluate-Checked :
      {S : Type 0} (reader : MeasurementReader F S) (ps : List (Precondition F)) (s : S)
      → Checked reader s ps (evaluate float reader ps s).0 (evaluate float reader ps s).1
  unfolding evaluate
  evaluate-Checked reader [] s = all_done
  evaluate-Checked reader (p ∷ ps) s =
      let seen = reader s (quantity p) in
      then_next refl (outcome_of-Judged p seen.0) (evaluate-Checked reader ps seen.1)
