-- ===== src/Service/Runner/Picks.antt =====
-- crates/service/src/runner.rs: which invocation `run_cycle` picks for a phase.
use klartext.Prelude.{
  Bool-cases, ◌==◌, ==_iff, ==_refl, arith, ℕ, ◌≡◌, ◌≢◌, refl, ◌⊎◌, inl, inr, Bool, true, false,
  ◌&&◌, List, [], ◌∷◌, ◌++◌, some, All,
}
use klartext.Service.Phase.{Phase, preset, main, reset, phase_eq, Invocation}
use klartext.Service.Runner.{pick}
use klartext.Service.Runner.Cycle.{}

phase_eq_refl : (phase : Phase) → phase_eq phase phase ≡ true
phase_eq_refl preset = refl
phase_eq_refl main = refl
phase_eq_refl reset = refl

phase_eq_sound : (p q : Phase) → phase_eq p q ≡ true → p ≡ q
phase_eq_sound preset preset e = refl
phase_eq_sound main main e = refl
phase_eq_sound reset reset e = refl
phase_eq_sound preset main e = absurd (cc e)
phase_eq_sound preset reset e = absurd (cc e)
phase_eq_sound main preset e = absurd (cc e)
phase_eq_sound main reset e = absurd (cc e)
phase_eq_sound reset preset e = absurd (cc e)
phase_eq_sound reset main e = absurd (cc e)

both : {a b : Bool} → a ≡ true → b ≡ true → (a && b) ≡ true
both e f = rw (e, f) refl

passed_over :
    (id : ℕ) (phase : Phase) (i : Invocation)
    → (i.function_id ≢ id) ⊎ (i.phase ≢ phase)
    → ((i.function_id == id) && phase_eq i.phase phase) ≡ false
passed_over id phase i h = elim (Bool-cases ((i.function_id == id) && phase_eq i.phase phase)) [
  | inr e ↦ e
  | inl e ↦ elim h [
    | inl other ↦ absurd (other ((==_iff _ _).0 (ground arith)))
    | inr other ↦ absurd (other (phase_eq_sound i.phase phase (ground arith)))
  ]
]

-- The first invocation of a phase of the function is the one that is picked.
pub pick-first :
    (function_id : ℕ) (phase : Phase) (inv : Invocation)
    → inv.function_id ≡ function_id
    → inv.phase ≡ phase
    → (front back : List Invocation)
    → All (λ i. (i.function_id ≢ function_id) ⊎ (i.phase ≢ phase)) front
    → pick function_id (front ++ inv ∷ back) phase ≡ some inv
unfolding pick
pick-first id phase inv own kind [] back h =
    let chosen : ((inv.function_id == id) && phase_eq inv.phase phase) ≡ true =
      rw (own, kind) (both (==_refl id) (phase_eq_refl phase)) in
    rw chosen refl
pick-first id phase inv own kind (i ∷ front) back h =
    let other = passed_over id phase i h.0 in
    rw other (pick-first id phase inv own kind front back h.1)
