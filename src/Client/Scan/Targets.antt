-- ===== src/Client/Scan/Targets.antt =====
-- crates/client/src/scan.rs: the addresses that may be reset.
use klartext.Prelude.{
  ℕ, ◌≡◌, refl, sym, ap, subst, ◌∙◌, inl, inr, Bool, true, false, not, ◌&&◌, ◌||◌, List, [], ◌∷◌,
  ◌++◌, ◌==◌, arith, ==_iff, Bool-cases,
}
use klartext.Client.Operations.{zgw_address}
use klartext.Client.Scan.{contains, is_reset_target, reset_targets_loop, reset_targets}

-- No element stands in the list twice.
abbrev pub NoRepeats : List ℕ → Type 0
NoRepeats [] = Unit
NoRepeats (x ∷ xs) = (contains xs x ≡ false) × NoRepeats xs

contains-append :
    (xs ys : List ℕ) (t : ℕ) → contains (xs ++ ys) t ≡ (contains xs t || contains ys t)
contains-append [] ys t = refl
contains-append (x ∷ xs) ys t = elim (Bool-cases (x == t)) [
  | inl e ↦ rw e refl
  | inr e ↦ rw e (contains-append xs ys t)
]

NoRepeats-push :
    (xs : List ℕ) (x : ℕ) → contains xs x ≡ false → NoRepeats xs → NoRepeats (xs ++ x ∷ [])
NoRepeats-push [] x h n = (refl, tt)
NoRepeats-push (y ∷ ys) x h n = elim (Bool-cases (y == x)) [
  | inl e ↦ absurd (cc (rw e at h))
  | inr e ↦ let rest : contains ys x ≡ false = rw e at h in (fresh e, NoRepeats-push ys x rest n.1)
]
  where
    fresh : (y == x) ≡ false → contains (ys ++ x ∷ []) y ≡ false
    fresh e =
        let other : (x == y) ≡ false = ground (arith, e) in
        contains-append ys (x ∷ []) y ∙ rw (n.0, other) refl

and_right : (a b : Bool) → (a && not b) ≡ true → b ≡ false
and_right true false h = refl
and_right true true h = absurd (cc)
and_right false b h = absurd (cc)

pushed : (o r c : Bool) → (r && not o) ≡ true → ((o || true) || (r && c)) ≡ (o || (r && true))
pushed true r c h = refl
pushed false true c h = refl
pushed false false c h = absurd (cc)

passed_over : (o r c : Bool) → (r && not o) ≡ false → (o || (r && c)) ≡ (o || (r && true))
passed_over true r c h = refl
passed_over false true c h = absurd (cc)
passed_over false false c h = refl

or_false : (o : Bool) → o ≡ (o || false)
or_false true = refl
or_false false = refl

or_and_false : (o r : Bool) → o ≡ (o || (r && false))
or_and_false true r = refl
or_and_false false true = refl
or_and_false false false = refl

reset_targets_loop-NoRepeats :
    (out addrs : List ℕ) → NoRepeats out → NoRepeats (reset_targets_loop out addrs)
unfolding reset_targets_loop
reset_targets_loop-NoRepeats out [] n = n
reset_targets_loop-NoRepeats out (a ∷ addrs) n =
    elim (Bool-cases (is_reset_target a && not (contains out a))) [
      | inl e ↦ rw e (
          reset_targets_loop-NoRepeats (out ++ a ∷ []) addrs
            (NoRepeats-push out a (and_right (is_reset_target a) (contains out a) e) n))
      | inr e ↦ rw e (reset_targets_loop-NoRepeats out addrs n)
    ]

reset_targets_loop-contains :
    (out addrs : List ℕ) (t : ℕ)
    → contains (reset_targets_loop out addrs) t
      ≡ (contains out t || (is_reset_target t && contains addrs t))
unfolding reset_targets_loop
reset_targets_loop-contains out [] t = or_and_false (contains out t) (is_reset_target t)
reset_targets_loop-contains out (a ∷ addrs) t =
    elim (Bool-cases (is_reset_target a && not (contains out a))) [
      | inl e ↦ rw e (
          reset_targets_loop-contains (out ++ a ∷ []) addrs t
          ∙ ap (λ b. b || (is_reset_target t && contains addrs t)) (contains-append out (a ∷ []) t)
          ∙ kept e)
      | inr e ↦ rw e (reset_targets_loop-contains out addrs t ∙ left e)
    ]
  where
    kept :
        (is_reset_target a && not (contains out a)) ≡ true
        → ((contains out t || contains (a ∷ []) t) || (is_reset_target t && contains addrs t))
          ≡ (contains out t || (is_reset_target t && contains (a ∷ addrs) t))
    kept e = elim (Bool-cases (a == t)) [
      | inl q ↦ rw q (
          pushed (contains out t) (is_reset_target t) (contains addrs t)
            (subst (λ x. (is_reset_target x && not (contains out x)) ≡ true) ((==_iff a t).0 q) e))
      | inr q ↦
          rw q (
            ap (λ b. b || (is_reset_target t && contains addrs t))
              (sym (or_false (contains out t))))
    ]

    left :
        (is_reset_target a && not (contains out a)) ≡ false
        → (contains out t || (is_reset_target t && contains addrs t))
          ≡ (contains out t || (is_reset_target t && contains (a ∷ addrs) t))
    left e = elim (Bool-cases (a == t)) [
      | inl q ↦ rw q (
          passed_over (contains out t) (is_reset_target t) (contains addrs t)
            (subst (λ x. (is_reset_target x && not (contains out x)) ≡ false) ((==_iff a t).0 q) e))
      | inr q ↦ rw q refl
    ]

-- An address is a target of a reset just when it is among those given and is not the gateway, and
-- it is a target once.
pub reset_targets-NoRepeats :
    (addrs : List ℕ) (t : ℕ)
    → NoRepeats (reset_targets addrs)
      × (contains (reset_targets addrs) t ≡ (not (t == zgw_address) && contains addrs t))
unfolding reset_targets is_reset_target
reset_targets-NoRepeats addrs t =
    (reset_targets_loop-NoRepeats [] addrs tt, reset_targets_loop-contains [] addrs t)
