-- ===== src/Service/Runner/Cycle.antt =====
-- crates/service/src/runner.rs: `run_cycle` against the lifecycle that its comment describes.
use klartext.Prelude.{
  ℕ, ◌≡◌, refl, sym, ap, ◌∙◌, ◌⊎◌, inl, inr, Bool, true, false, not, ◌&&◌, List, [], ◌∷◌, ◌++◌,
  append-nil, Option, none, some, Option-cases,
}
use klartext.Service.Phase.{Text, Phase, preset, main, reset, Invocation, arg_buffer}
use klartext.Service.Runner.{
  JobRunner, did_fail, is_some, is_empty, PhaseOutcome, pick, attempt, tear_down, run_cycle,
}

module _ {S : Type 0} (runner : JobRunner S) (job : Text) (target function_id : ℕ)
    (invocations : List Invocation) where
  -- One phase of the function: nothing when the function has no such phase, else one job with the
  -- phase's argument buffer, and what it answered.
  pub data Ran (phase : Phase) (s : S) : List PhaseOutcome → Option Text → S → Type 0 where
    absent : pick function_id invocations phase ≡ none → Ran phase s [] none s
    done :
        (inv : Invocation)
        → pick function_id invocations phase ≡ some inv
        → {error : Option Text} {s' : S} → runner s job target (arg_buffer inv) ≡ (error, s')
        → Ran phase s (record { phase = phase; args = arg_buffer inv; error = error } ∷ []) error s'

  -- The lifecycle: the preset, the main phase unless the preset failed, and the teardown in either
  -- case. The indices are the outcomes before the teardown, whether one of them failed, the
  -- teardown's outcomes and error, and the state at the end.
  pub data Lifecycle (s : S)
      : List PhaseOutcome → Bool → List PhaseOutcome → Option Text → S → Type 0 where
    complete :
        {prepared acted : List PhaseOutcome} {error : Option Text} {s₁ s₂ : S}
        → Ran preset s prepared none s₁
        → Ran main s₁ acted error s₂
        → {torn : List PhaseOutcome} {torn_error : Option Text} {s' : S}
        → Ran reset s₂ torn torn_error s'
        → Lifecycle s (prepared ++ acted) (is_some error) torn torn_error s'
    unprepared :
        {prepared : List PhaseOutcome} {why : Text} {s₁ : S}
        → Ran preset s prepared (some why) s₁
        → {torn : List PhaseOutcome} {torn_error : Option Text} {s' : S}
        → Ran reset s₁ torn torn_error s'
        → Lifecycle s prepared true torn torn_error s'

  abbrev Attempted : S → List PhaseOutcome × Bool × S → Type 0
  Attempted s (phases, failed, s') =
      ((prepared : List PhaseOutcome) × (acted : List PhaseOutcome) × (error : Option Text)
        × (s₁ : S) × Ran preset s prepared none s₁
        × Ran main s₁ acted error s'
        × (phases ≡ prepared ++ acted)
        × (failed ≡ is_some error))
      ⊎ ((why : Text) × Ran preset s phases (some why) s' × (failed ≡ true))

  attempt-Attempted :
      (s : S)
      → Attempted s
          (attempt runner job target function_id invocations (preset ∷ main ∷ []) [] false s)
  unfolding attempt
  attempt-Attempted s = elim (Option-cases (pick function_id invocations preset)) [
    | inl no_preset ↦ elim (Option-cases (pick function_id invocations main)) [
      | inl no_main ↦
          rw (no_preset, no_main, attempt)
            (inl ([], [], none, s, absent no_preset, absent no_main, refl, refl))
      | inr (inv, e) ↦
          rw (no_preset, e, attempt)
            (inl ([], _, _, s, absent no_preset, done inv e refl, refl, refl))
    ]
    | inr (inv, e) ↦ elim (Option-cases (runner s job target (arg_buffer inv)).0) [
      | inl fine ↦
          let first : Ran preset s
              (record { phase = preset; args = arg_buffer inv; error = none } ∷ []) none
              (runner s job target (arg_buffer inv)).1 =
            done inv e (ap (λ o. (o, (runner s job target (arg_buffer inv)).1)) fine) in
          elim (Option-cases (pick function_id invocations main)) [
            | inl no_main ↦
                rw (e, no_main, fine, attempt)
                  (inl (_, [], none, _, first, absent no_main, refl, refl))
            | inr (inv', e') ↦
                rw (e, e', fine, attempt) (inl (_, _, _, _, first, done inv' e' refl, refl, refl))
          ]
      | inr (why, broke) ↦
          let first : Ran preset s
              (record { phase = preset; args = arg_buffer inv; error = (some why) } ∷ []) (some why)
              (runner s job target (arg_buffer inv)).1 =
            done inv e (ap (λ o. (o, (runner s job target (arg_buffer inv)).1)) broke) in
          elim (Option-cases (pick function_id invocations main)) [
            | inl no_main ↦ rw (e, no_main, broke, attempt) (inr (why, first, refl))
            | inr (inv', e') ↦ rw (e, e', broke, attempt) (inr (why, first, refl))
          ]
    ]
  ]

  torn-Ran :
      (phases : List PhaseOutcome) (s : S)
      → (torn : List PhaseOutcome) × (error : Option Text) × Ran reset s torn error
          (tear_down runner job target function_id invocations phases s).2
        × ((tear_down runner job target function_id invocations phases s).0 ≡ phases ++ torn)
        × (did_fail (tear_down runner job target function_id invocations phases s).1
            ≡ is_some error)
  unfolding tear_down
  torn-Ran phases s = elim (Option-cases (pick function_id invocations reset)) [
    | inl no_reset ↦
        rw (no_reset, tear_down) ([], none, absent no_reset, sym (append-nil phases), refl)
    | inr (inv, e) ↦ elim (Option-cases (runner s job target (arg_buffer inv)).0) [
      | inl fine ↦
          rw (e, fine, tear_down)
            (
              _,
              none,
              done inv e (ap (λ o. (o, (runner s job target (arg_buffer inv)).1)) fine),
              refl,
              refl,
            )
      | inr (why, broke) ↦
          rw (e, broke, tear_down)
            (
              _,
              some why,
              done inv e (ap (λ o. (o, (runner s job target (arg_buffer inv)).1)) broke),
              refl,
              refl,
            )
    ]
  ]

  -- `run_cycle` follows the lifecycle: its report lists the phases that ran, in order, it
  -- succeeded exactly when something ran and neither a phase nor the teardown failed, and the
  -- state at the end is the one that the lifecycle leaves.
  pub run_cycle-Lifecycle :
      (F : Type 0) (s : S)
      → (before : List PhaseOutcome) × (failed : Bool) × (torn : List PhaseOutcome)
        × (error : Option Text) × Lifecycle s before failed torn error
            (run_cycle runner job target function_id invocations {F = F} s).1
        × ((run_cycle runner job target function_id invocations {F = F} s).0.phases
            ≡ before ++ torn)
        × ((run_cycle runner job target function_id invocations {F = F} s).0.succeeded
            ≡ (not (is_empty (before ++ torn)) && not failed && not (is_some error)))
  unfolding run_cycle
  run_cycle-Lifecycle F s =
      let before =
        attempt runner job target function_id invocations (preset ∷ main ∷ []) [] false s in
      let (torn, error, tail, phases, failure) = torn-Ran before.0 before.2 in
      elim (attempt-Attempted s) [
        | inl (prepared, acted, err, s₁, first, second, outs, failed) ↦ (
          prepared ++ acted,
          is_some err,
          torn,
          error,
          complete first second tail,
          phases ∙ ap (λ o. o ++ torn) outs,
          rw (failure, phases, failed, outs) refl,
        )
        | inr (why, first, failed) ↦ (
          before.0,
          true,
          torn,
          error,
          unprepared first tail,
          phases,
          rw (failure, phases, failed) refl,
        )
      ]
