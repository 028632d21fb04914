-- ===== src/Service/Runner/Trace.antt =====
-- crates/service/src/runner.rs: the jobs that the lifecycle hands to the runner, and their answers.
use klartext.Prelude.{
  ◌<◌, subst, All-append, ℕ, ◌≡◌, refl, sym, ap, ◌∙◌, inl, inr, Bool, true, Bool-cases, ◌&&◌, List,
  [], ◌∷◌, ◌++◌, append_assoc, append-nil, map, Option, some, arith, ◌==◌, All,
}
use klartext.Service.Phase.{Text, Phase, phase_eq, Invocation, arg_buffer, rank}
use klartext.Service.Runner.{JobRunner, PhaseOutcome, pick}
use klartext.Service.Runner.Cycle.{Ran, absent, done, Lifecycle, complete, unprepared}

-- A job that was handed to a runner, and the error of its answer.
abbrev pub Job : Type 0
Job = Text × ℕ × Text × Option Text

-- A runner that also records every job it is given with its answer, beside its own state.
abbrev pub logged : {S : Type 0} → JobRunner S → JobRunner (S × List Job)
logged runner (s, log) job target args =
    let done = runner s job target args in
    (done.0, (done.1, log ++ (job, target, args, done.0) ∷ []))

abbrev pub sent : Text → ℕ → List PhaseOutcome → List Job
sent job target outs = map (λ o. (job, target, o.args, o.error)) outs

pub sent-append :
    (job : Text) (target : ℕ) (xs ys : List PhaseOutcome)
    → sent job target (xs ++ ys) ≡ sent job target xs ++ sent job target ys
sent-append job target [] ys = refl
sent-append job target (x ∷ xs) ys =
    ap (λ l. (job, target, x.args, x.error) ∷ l) (sent-append job target xs ys)

-- Whether an invocation stands in the list.
abbrev pub Listed : List Invocation → Invocation → Type 0
Listed is inv =
    (before : List Invocation) × (after : List Invocation) × (is ≡ before ++ inv ∷ after)

-- What `pick` yields is one of the invocations, of the function and the phase asked for.
pick_sound :
    (function_id : ℕ) (is : List Invocation) (phase : Phase) (inv : Invocation)
    → pick function_id is phase ≡ some inv
    → Listed is inv × (inv.function_id ≡ function_id) × (phase_eq inv.phase phase ≡ true)
unfolding pick
pick_sound id [] phase inv e = absurd (cc e)
pick_sound id (i ∷ is) phase inv e =
    elim (Bool-cases ((i.function_id == id) && phase_eq i.phase phase)) [
      | inl chosen ↦
          let same : i ≡ inv = cc (rw (chosen, pick) at e) in
          subst (λ j. Listed (i ∷ is) j × (j.function_id ≡ id) × (phase_eq j.phase phase ≡ true))
            same (([], is, refl), ground arith, ground arith)
      | inr other ↦
          let ((before, after, split), same, kind) =
            pick_sound id is phase inv (rw (other, pick) at e) in
          ((i ∷ before, after, ap (λ l. i ∷ l) split), same, kind)
    ]

-- Outcomes in the order of the lifecycle, each phase at most once.
abbrev pub Ascending : List PhaseOutcome → Type 0
Ascending [] = Unit
Ascending (o ∷ []) = Unit
Ascending (o ∷ p ∷ os) = (rank o.phase < rank p.phase) × Ascending (p ∷ os)

module _ {S : Type 0} (runner : JobRunner S) (job : Text) (target function_id : ℕ)
    (invocations : List Invocation) where
  -- What a phase that ran is: a phase of the function, with the buffer of an invocation of it.
  abbrev pub Requested : PhaseOutcome → Type 0
  Requested o =
      (inv : Invocation) × Listed invocations inv
      × (inv.function_id ≡ function_id)
      × (phase_eq inv.phase o.phase ≡ true)
      × (o.args ≡ arg_buffer inv)

  Ran-Requested :
      {phase : Phase} {s s' : S} {outs : List PhaseOutcome} {error : Option Text}
      → Ran runner job target function_id invocations phase s outs error s'
      → All Requested outs
  Ran-Requested (absent e) = tt
  Ran-Requested {phase = phase} (done inv e r) =
      let (listed, id, same) = pick_sound function_id invocations phase inv e in
      ((inv, listed, id, same, refl), tt)

  Ran-log :
      {phase : Phase} {s end : S × List Job} {outs : List PhaseOutcome} {error : Option Text}
      → Ran (logged runner) job target function_id invocations phase s outs error end
      → end.1 ≡ s.1 ++ sent job target outs
  Ran-log {s = s} (absent e) = sym (append-nil s.1)
  Ran-log {s = s} (done inv e r) =
      sym (ap (λ p. p.1.1) r)
      ∙ ap (λ x. s.1 ++ (job, target, arg_buffer inv, x) ∷ []) (ap (λ p. p.0) r)

  pub Lifecycle-Requested :
      {s s' : S} {before torn : List PhaseOutcome} {failed : Bool} {error : Option Text}
      → Lifecycle runner job target function_id invocations s before failed torn error s'
      → All Requested (before ++ torn)
  Lifecycle-Requested (complete {prepared = p} {acted = a} first second {torn = t} third) =
      All-append Requested (p ++ a) t
        (All-append Requested p a (Ran-Requested first) (Ran-Requested second))
        (Ran-Requested third)
  Lifecycle-Requested (unprepared {prepared = p} first {torn = t} third) =
      All-append Requested p t (Ran-Requested first) (Ran-Requested third)

  pub Lifecycle-log :
      {s end : S × List Job} {before torn : List PhaseOutcome} {failed : Bool} {error : Option Text}
      → Lifecycle (logged runner) job target function_id invocations s before failed torn error end
      → end.1 ≡ s.1 ++ sent job target (before ++ torn)
  Lifecycle-log (complete {prepared = p} {acted = a} first second {torn = t} third) =
      Ran-log third
      ∙ rw
          (
            Ran-log second,
            Ran-log first,
            sent-append,
            sent-append,
            append_assoc,
            append_assoc,
            append_assoc,
          )
          refl
  Lifecycle-log (unprepared {prepared = p} first {torn = t} third) =
      Ran-log third ∙ rw (Ran-log first, sent-append, append_assoc) refl

  pub Ascending-Lifecycle :
      {s s' : S} {before torn : List PhaseOutcome} {failed : Bool} {error : Option Text}
      → Lifecycle runner job target function_id invocations s before failed torn error s'
      → Ascending (before ++ torn)
  Ascending-Lifecycle (complete (absent _) (absent _) (absent _)) = tt
  Ascending-Lifecycle (complete (absent _) (absent _) (done _ _ _)) = tt
  Ascending-Lifecycle (complete (absent _) (done _ _ _) (absent _)) = tt
  Ascending-Lifecycle (complete (absent _) (done _ _ _) (done _ _ _)) = (omega arith, tt)
  Ascending-Lifecycle (complete (done _ _ _) (absent _) (absent _)) = tt
  Ascending-Lifecycle (complete (done _ _ _) (absent _) (done _ _ _)) = (omega arith, tt)
  Ascending-Lifecycle (complete (done _ _ _) (done _ _ _) (absent _)) = (omega arith, tt)
  Ascending-Lifecycle (complete (done _ _ _) (done _ _ _) (done _ _ _)) =
      (omega arith, (omega arith, tt))
  Ascending-Lifecycle (unprepared (done _ _ _) (absent _)) = tt
  Ascending-Lifecycle (unprepared (done _ _ _) (done _ _ _)) = (omega arith, tt)
