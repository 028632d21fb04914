-- ===== src/Service/Runner/Safety.antt =====
-- crates/service/src/runner.rs: what the cycle and the guarded run promise.
use klartext.Prelude.{
  some-injective, All-append, All-split, ℕ, ◌≡◌, ◌≢◌, refl, sym, ap, ◌∙◌, ◌↔◌, ◌⊎◌, inl, inr, Bool,
  true, false, not, ◌&&◌, List, [], ◌∷◌, ◌++◌, Option, none, some, All,
}
use klartext.Service.Phase.{Text, Phase, preset, main, reset, Invocation, arg_buffer}
use klartext.Service.Runner.{
  JobRunner, is_some, is_empty, PhaseOutcome, ServiceReport, pick, run_cycle,
}
use klartext.Service.Runner.Cycle.{
  Ran, absent, done, Lifecycle, complete, unprepared, run_cycle-Lifecycle,
}
use klartext.Service.Runner.Picks.{pick-first}
use klartext.Service.Runner.Trace.{
  Job, logged, sent, sent-append, Ascending, Requested, Lifecycle-Requested, Lifecycle-log,
  Ascending-Lifecycle,
}

success_iff :
    (outs : List PhaseOutcome) (failed torn : Bool)
    → ((not (is_empty outs) && not failed && not torn) ≡ true)
      ↔ ((outs ≢ []) × (failed ≡ false) × (torn ≡ false))
success_iff [] f t = ((λ h. absurd (cc h)), λ h. absurd (h.0 refl))
success_iff (o ∷ os) true t = ((λ h. absurd (cc h)), λ h. absurd (cc h.1))
success_iff (o ∷ os) false true = ((λ h. absurd (cc h)), λ h. absurd (cc h.2))
success_iff (o ∷ os) false false = ((λ h. ((λ e. cc e), refl, refl)), λ h. refl)

module _ {S : Type 0} (runner : JobRunner S) (job : Text) (target function_id : ℕ)
    (invocations : List Invocation) where
  -- No outcome of a phase that ran carries an error exactly when the phase answered none.
  Clean : List PhaseOutcome → Type 0
  Clean outs = All (λ o. o.error ≡ none) outs

  Ran-Clean :
      {phase : Phase} {s s' : S} {outs : List PhaseOutcome} {error : Option Text}
      → Ran runner job target function_id invocations phase s outs error s'
      → Clean outs ↔ (is_some error ≡ false)
  unfolding Clean
  Ran-Clean (absent e) = ((λ h. refl), λ h. tt)
  Ran-Clean (done inv e {error = none} r) = ((λ h. refl), λ h. (refl, tt))
  Ran-Clean (done inv e {error = some why} r) = ((λ h. absurd (cc h.0)), λ h. absurd (cc h))

  Lifecycle-Clean :
      {s s' : S} {before torn : List PhaseOutcome} {failed : Bool} {error : Option Text}
      → Lifecycle runner job target function_id invocations s before failed torn error s'
      → Clean (before ++ torn) ↔ ((failed ≡ false) × (is_some error ≡ false))
  unfolding Clean
  Lifecycle-Clean (complete {prepared = p} {acted = a} first second {torn = t} third) = (
    (λ h.
        let (left, last) = All-split _ (p ++ a) t h in
        let (start, act) = All-split _ p a left in
        ((Ran-Clean second).0 act, (Ran-Clean third).0 last)),
    λ h.
        All-append _ (p ++ a) t
          (All-append _ p a ((Ran-Clean first).1 refl) ((Ran-Clean second).1 h.0))
          ((Ran-Clean third).1 h.1),
  )
  Lifecycle-Clean (unprepared {prepared = p} first {torn = t} third) =
      ((λ h. absurd (cc ((Ran-Clean first).0 (All-split _ p t h).0))), λ h. absurd (cc h.0))

  Ran-reset :
      {s s' : S} {outs : List PhaseOutcome} {error : Option Text}
      → Ran runner job target function_id invocations reset s outs error s'
      → (inv : Invocation) → pick function_id invocations reset ≡ some inv
      → outs ≡ record { phase = reset; args = arg_buffer inv; error = error } ∷ []
  Ran-reset (absent e) inv e' = absurd (cc (e, e'))
  Ran-reset (done inv' e {error = why} r) inv e' =
      ap (λ i. record { phase = reset; args = arg_buffer i; error = why } ∷ [])
        (some-injective _ _ (sym e ∙ e'))

  -- The outcome of the teardown, when the function has a Reset phase.
  Lifecycle-reset :
      {s s' : S} {before torn : List PhaseOutcome} {failed : Bool} {error : Option Text}
      → Lifecycle runner job target function_id invocations s before failed torn error s'
      → (inv : Invocation) → pick function_id invocations reset ≡ some inv
      → torn ≡ record { phase = reset; args = arg_buffer inv; error = error } ∷ []
  Lifecycle-reset (complete _ _ third) inv e = Ran-reset third inv e
  Lifecycle-reset (unprepared _ third) inv e = Ran-reset third inv e

  Ran-others :
      {phase : Phase} {s s' : S} {outs : List PhaseOutcome} {error : Option Text}
      → Ran runner job target function_id invocations phase s outs error s'
      → (error ≡ none) ⊎ (phase ≢ preset)
      → All (λ o. (o.error ≡ none) ⊎ (o.phase ≢ preset)) outs
  Ran-others (absent e) h = tt
  Ran-others (done inv e r) h = (h, tt)

  Ran-apart :
      {phase : Phase} {s s' : S} {outs : List PhaseOutcome} {error : Option Text}
      → Ran runner job target function_id invocations phase s outs error s'
      → phase ≢ main
      → All (λ o. o.phase ≢ main) outs
  Ran-apart (absent e) h = tt
  Ran-apart (done inv e r) h = (h, tt)

  -- A preset that failed leaves no outcome of the main phase.
  Lifecycle-unprepared :
      {s s' : S} {before torn : List PhaseOutcome} {failed : Bool} {error : Option Text}
      → Lifecycle runner job target function_id invocations s before failed torn error s'
      → All (λ o. (o.error ≡ none) ⊎ (o.phase ≢ preset)) (before ++ torn)
        ⊎ All (λ o. o.phase ≢ main) (before ++ torn)
  Lifecycle-unprepared (complete {prepared = p} {acted = a} first second {torn = t} third) = inl (
      All-append _ (p ++ a) t
        (All-append _ p a (Ran-others first (inl refl))
          (Ran-others second (inr (λ h. absurd (cc h)))))
        (Ran-others third (inr (λ h. absurd (cc h)))))
  Lifecycle-unprepared (unprepared {prepared = p} first {torn = t} third) =
      inr (All-append _ p t (Ran-apart first (λ h. cc h)) (Ran-apart third (λ h. cc h)))

  abbrev report : (F : Type 0) → S → ServiceReport F
  report F s = (run_cycle runner job target function_id invocations {F = F} s).0

  -- A cycle reports success exactly when it attempted something and no attempted phase, the
  -- teardown included, answered an error.
  pub run_cycle_succeeded_iff :
      (F : Type 0) (s : S)
      → ((report F s).succeeded ≡ true)
        ↔ (((report F s).phases ≢ []) × All (λ o. o.error ≡ none) (report F s).phases)
  unfolding Clean
  run_cycle_succeeded_iff F s =
      let (before, failed, torn, error, life, phases, result) =
        run_cycle-Lifecycle runner job target function_id invocations F s in
      rw (result, phases)
        (
          (λ h.
              let (some_phase, fine, torn_fine) = (success_iff _ _ _).0 h in
              (some_phase, (Lifecycle-Clean life).1 (fine, torn_fine))),
          λ h.
              let (fine, torn_fine) = (Lifecycle-Clean life).0 h.1 in
              (success_iff _ _ _).1 (h.0, fine, torn_fine),
        )

module _ {S : Type 0} (runner : JobRunner S) (job : Text) (target function_id : ℕ)
    (invocations : List Invocation) where
  abbrev log_end : (F : Type 0) → S × List Job → List Job
  log_end F s = (run_cycle (logged runner) job target function_id invocations {F = F} s).1.1

  abbrev logged_report : (F : Type 0) → S × List Job → ServiceReport F
  logged_report F s = (run_cycle (logged runner) job target function_id invocations {F = F} s).0

  -- The jobs that a cycle hands to the runner, with the runner's answers, are exactly those of the
  -- outcomes in its report, in their order. They are phases of the requested function, each with the
  -- argument buffer of one of its invocations, in the order preset, main, reset and each at most once;
  -- when the preset failed, the main phase is not among them.
  pub run_cycle-order :
      (F : Type 0) (s : S × List Job)
      → (log_end F s ≡ s.1 ++ sent job target (logged_report F s).phases)
        × All (Requested runner job target function_id invocations) (logged_report F s).phases
        × Ascending (logged_report F s).phases
        × (All (λ o. (o.error ≡ none) ⊎ (o.phase ≢ preset)) (logged_report F s).phases
            ⊎ All (λ o. o.phase ≢ main) (logged_report F s).phases)
  run_cycle-order F s =
      let (before, failed, torn, error, life, phases, _) =
        run_cycle-Lifecycle (logged runner) job target function_id invocations F s in
      rw phases (
        Lifecycle-log runner job target function_id invocations life,
        Lifecycle-Requested (logged runner) job target function_id invocations life,
        Ascending-Lifecycle (logged runner) job target function_id invocations life,
        Lifecycle-unprepared (logged runner) job target function_id invocations life,
      )

  -- An invocation that is not the phase of the function.
  abbrev pub NotOf : Phase → Invocation → Type 0
  NotOf phase i = (i.function_id ≢ function_id) ⊎ (i.phase ≢ phase)

  -- When the function has a Reset phase, the last job that a cycle hands to the runner is that phase
  -- with the argument buffer of its first invocation, whatever failed before, and the last outcome of
  -- the report is that phase with the runner's answer.
  pub run_cycle_resets :
      (F : Type 0) (s : S × List Job) (front back : List Invocation) (inv : Invocation)
      → invocations ≡ front ++ inv ∷ back
      → inv.function_id ≡ function_id
      → inv.phase ≡ reset
      → All (NotOf reset) front
      → (before : List PhaseOutcome) × (error : Option Text) × ((logged_report F s).phases
          ≡ before ++ record { phase = reset; args = arg_buffer inv; error = error } ∷ [])
        × (log_end F s
            ≡ s.1 ++ (sent job target before ++ (job, target, arg_buffer inv, error) ∷ []))
  run_cycle_resets F s front back inv split own kind others =
      let (before, failed, torn, error, life, phases, _) =
        run_cycle-Lifecycle (logged runner) job target function_id invocations F s in
      let picked =
        ap (λ is. pick function_id is reset) split
        ∙ pick-first function_id reset inv own kind front back others in
      let last =
        Lifecycle-reset (logged runner) job target function_id invocations life inv picked in
      (
        before,
        error,
        phases ∙ ap (λ t. before ++ t) last,
        Lifecycle-log runner job target function_id invocations life
            ∙ ap (λ t. s.1 ++ sent job target (before ++ t)) last
            ∙ ap (λ l. s.1 ++ l) (sent-append job target before _),
      )
