-- ===== src/Client/Scan/Resets.antt =====
-- crates/client/src/scan.rs: which ECUs are reset after a clear.
use klartext.Prelude.{
  ℕ, zero, suc, ◌≡◌, ◌<◌, refl, sym, ap, ap₂, subst, ◌∙◌, ◌⊎◌, inl, inr, Bool, ◌≢◌, ◌&&◌, not, All,
  ==_refl, ==_iff, true, false, List, [], ◌∷◌, ◌++◌, map, append_assoc, append-nil, Option, none,
  some, Result, ok, err, panic, take, get_elem?, if◌then◌else◌, arith, Bool-cases, ◌==◌,
}
use klartext.Uds.Sid
use klartext.Uds.Service
use klartext.Client.Session.{ClientError, is_byte}
use klartext.Client.Scan.Targets.{NoRepeats, reset_targets-NoRepeats}
use klartext.Client.Operations.{zgw_address, Seam, ecu_reset, hard}
use klartext.Client.Scan.{
  ClearReport, ClearFailure, contains, is_none, reset_targets, cleared, mark, clear_faults_verified,
  clear_each, reset_each, clear_faults_all_with_reset,
}
use klartext.Client.Scan.Clearing.{
  script, clear_faults_verified-Clears, Extended, extended_request-asked,
}

-- The addresses of the requests that reset an ECU, in order.
abbrev pub resets : List (ℕ × List ℕ) → List ℕ
resets [] = []
resets (r ∷ rs) = if is_byte (get_elem? r.1 0) Sid.ecu_reset then r.0 ∷ resets rs else resets rs

-- A list with some of the elements of another, in its order.
pub data Subsequence : List ℕ → List ℕ → Type 0 where
  done : Subsequence [] []
  keep : (x : ℕ) {xs ys : List ℕ} → Subsequence xs ys → Subsequence (x ∷ xs) (x ∷ ys)
  skip : (y : ℕ) {xs ys : List ℕ} → Subsequence xs ys → Subsequence xs (y ∷ ys)

-- A report without an error is among the reports of an address.
pub data Clean {Io : Type 0} : List (ClearReport Io) → ℕ → Type 0 where
  here :
      (r : ClearReport Io) (rs : List (ClearReport Io)) → r.error ≡ none → Clean (r ∷ rs) r.address
  there : (r : ClearReport Io) (rs : List (ClearReport Io)) (a : ℕ) → Clean rs a → Clean (r ∷ rs) a

Subsequence-All : (P : ℕ → Type 0) {xs ys : List ℕ} → Subsequence xs ys → All P ys → All P xs
Subsequence-All P done all = tt
Subsequence-All P (keep x sub) all = (all.0, Subsequence-All P sub all.1)
Subsequence-All P (skip y sub) all = Subsequence-All P sub all.1

Subsequence-absent :
    {xs ys : List ℕ} (t : ℕ) → Subsequence xs ys → contains ys t ≡ false → contains xs t ≡ false
Subsequence-absent t done h = refl
Subsequence-absent t (keep x sub) h = elim (Bool-cases (x == t)) [
  | inl e ↦ absurd (cc (rw e at h))
  | inr e ↦ let rest = rw e at h in rw e (Subsequence-absent t sub rest)
]
Subsequence-absent t (skip y sub) h = elim (Bool-cases (y == t)) [
  | inl e ↦ absurd (cc (rw e at h))
  | inr e ↦ let rest = rw e at h in Subsequence-absent t sub rest
]

Subsequence-NoRepeats : {xs ys : List ℕ} → Subsequence xs ys → NoRepeats ys → NoRepeats xs
Subsequence-NoRepeats done n = tt
Subsequence-NoRepeats (keep x sub) n = (Subsequence-absent x sub n.0, Subsequence-NoRepeats sub n.1)
Subsequence-NoRepeats (skip y sub) n = Subsequence-NoRepeats sub n.1

-- What holds of every element that a list contains holds of all its elements.
contains-All : (P : ℕ → Type 0) (xs : List ℕ) → ((t : ℕ) → contains xs t ≡ true → P t) → All P xs
contains-All P [] h = tt
contains-All P (x ∷ xs) h = (h x first, contains-All P xs λ t e. h t (later t e))
  where
    first : contains (x ∷ xs) x ≡ true
    first = rw (==_refl x)

    later : (t : ℕ) → contains xs t ≡ true → contains (x ∷ xs) t ≡ true
    later t e = elim (Bool-cases (x == t)) [ inl q ↦ rw q refl | inr q ↦ rw q e ]

nothing : (xs : List ℕ) → Subsequence [] xs
nothing [] = done
nothing (x ∷ xs) = skip x (nothing xs)

resets-append : (xs ys : List (ℕ × List ℕ)) → resets (xs ++ ys) ≡ resets xs ++ resets ys
resets-append [] ys = refl
resets-append (x ∷ xs) ys = elim (Bool-cases (is_byte (get_elem? x.1 0) Sid.ecu_reset)) [
  | inl e ↦ rw e (ap (λ t. x.0 ∷ t) (resets-append xs ys))
  | inr e ↦ rw e (resets-append xs ys)
]

resets-script : (target k : ℕ) → k < 4 → resets (take k (script target)) ≡ []
unfolding Service.read_dtc_by_status_mask Service.diagnostic_session_control
    Service.clear_diagnostic_information
resets-script target zero h = refl
resets-script target (suc zero) h = refl
resets-script target (suc (suc zero)) h = refl
resets-script target (suc (suc (suc zero))) h = refl
resets-script target (suc (suc (suc (suc k)))) h = absurd (omega arith)

resets-whole : (target : ℕ) → resets (script target) ≡ []
unfolding Service.read_dtc_by_status_mask Service.diagnostic_session_control
    Service.clear_diagnostic_information
resets-whole target = refl

and_left : (a b : Bool) → (a && b) ≡ true → a ≡ true
and_left true b h = refl
and_left false b h = absurd (cc)

and_right : (a b : Bool) → (a && b) ≡ true → b ≡ true
and_right true b h = h
and_right false b h = absurd (cc)

not_gateway : (t : ℕ) → not (t == zgw_address) ≡ true → t ≢ zgw_address
not_gateway t h e = absurd (cc (rw e at h))

module _ {Io : Type 0} where
  mark-kept :
      (address : ℕ) (outcome : Result (ClientError Io) (Unit {0})) (r : ClearReport Io)
      → ((mark address outcome r).address ≡ r.address) × ((mark address outcome r).error ≡ r.error)
  unfolding mark
  mark-kept address (ok u) r = elim (Bool-cases (r.address == address)) [
    | inl e ↦ (rw (e, mark) refl, rw (e, mark) refl)
    | inr e ↦ (rw (e, mark) refl, rw (e, mark) refl)
  ]
  mark-kept address (err x) r = elim (Bool-cases (r.address == address)) [
    | inl e ↦ (rw (e, mark) refl, rw (e, mark) refl)
    | inr e ↦ (rw (e, mark) refl, rw (e, mark) refl)
  ]
  mark-kept address panic r = elim (Bool-cases (r.address == address)) [
    | inl e ↦ (rw (e, mark) refl, rw (e, mark) refl)
    | inr e ↦ (rw (e, mark) refl, rw (e, mark) refl)
  ]

  cleared-cons :
      (r : ClearReport Io) (rs : List (ClearReport Io))
      → cleared (r ∷ rs) ≡ (if is_none r.error then r.address ∷ cleared rs else cleared rs)
  unfolding cleared
  cleared-cons r rs = elim (Bool-cases (is_none r.error)) [ inl e ↦ rw e refl | inr e ↦ rw e refl ]

  cleared-Clean :
      (reports : List (ClearReport Io)) (t : ℕ)
      → contains (cleared reports) t ≡ true
      → Clean reports t
  unfolding cleared
  cleared-Clean [] t h = absurd (cc)
  cleared-Clean (r ∷ reports) t h =
      go (cleared-Clean reports t) r.error refl
        (ap (λ xs. contains xs t) (sym (cleared-cons r reports)) ∙ h)
    where
      go :
          (contains (cleared reports) t ≡ true → Clean reports t)
          → (e : Option (ClearFailure Io)) → r.error ≡ e
          → contains (if is_none r.error then r.address ∷ cleared reports else cleared reports) t
            ≡ true
          → Clean (r ∷ reports) t
      go deeper none e k = elim (Bool-cases (r.address == t)) [
        | inl q ↦ subst (Clean (r ∷ reports)) ((==_iff r.address t).0 q) (here r reports e)
        | inr q ↦ there r reports t (deeper (rw (e, q) at k))
      ]
      go deeper (some f) e k = there r reports t (deeper (rw e at k))

  targets-Clean :
      (reports : List (ClearReport Io))
      → All (λ a. Clean reports a × (a ≢ zgw_address)) (reset_targets (cleared reports))
  targets-Clean reports = contains-All _ (reset_targets (cleared reports)) λ t e.
      let both : (not (t == zgw_address) && contains (cleared reports) t) ≡ true =
        sym (reset_targets-NoRepeats (cleared reports) t).1 ∙ e in
      (
        cleared-Clean reports t (and_right (not (t == zgw_address)) _ both),
        not_gateway t (and_left (not (t == zgw_address)) _ both),
      )

  mark-cleared :
      (address : ℕ) (outcome : Result (ClientError Io) (Unit {0})) (reports : List (ClearReport Io))
      → (cleared (map (mark address outcome) reports) ≡ cleared reports)
        × (map (λ r. r.address) (map (mark address outcome) reports) ≡ map (λ r. r.address) reports)
  mark-cleared address outcome [] = (refl, refl)
  mark-cleared address outcome (r ∷ reports) =
      let (p, q) = mark-kept address outcome r in
      let (e, f) = mark-cleared address outcome reports in
      (
        cleared-cons (mark address outcome r) (map (mark address outcome) reports)
            ∙ rw (p, q, e) (sym (cleared-cons r reports)),
        ap₂ (λ x y. x ∷ y) p f,
      )

module _ {Io S : Type 0} (session : Seam Io S) where
  quiet :
      (target : ℕ) (s : S)
      → resets (session.asked (clear_faults_verified session target s).1) ≡ resets (session.asked s)
  quiet target s = elim (clear_faults_verified-Clears session target s).0.2 [
    | inl e ↦
        ap resets e
        ∙ resets-append (session.asked s) (script target)
        ∙ ap (λ t. resets (session.asked s) ++ t) (resets-whole target)
        ∙ append-nil _
    | inr (k, f, h, e, q) ↦
        ap resets e
        ∙ resets-append (session.asked s) (take k (script target))
        ∙ ap (λ t. resets (session.asked s) ++ t) (resets-script target k h)
        ∙ append-nil _
  ]

  clear_each-quiet :
      (addrs : List ℕ) (s : S)
      → (map (λ r. r.address) (clear_each session addrs s).0 ≡ addrs)
        × (resets (session.asked (clear_each session addrs s).1) ≡ resets (session.asked s))
  unfolding clear_each
  clear_each-quiet [] s = (refl, refl)
  clear_each-quiet (a ∷ addrs) s =
      let first = clear_faults_verified session a s in
      let (p, q) = clear_each-quiet addrs first.1 in
      (ap₂ (λ x y. x ∷ y) (clear_faults_verified-Clears session a s).0.0 p, q ∙ quiet a s)

  ecu_reset-resets :
      (target : ℕ) (s : S)
      → (resets (session.asked (ecu_reset session target hard s).1) ≡ resets (session.asked s))
        ⊎ (resets (session.asked (ecu_reset session target hard s).1)
            ≡ resets (session.asked s) ++ target ∷ [])
  unfolding ecu_reset Service.ecu_reset Service.diagnostic_session_control
  ecu_reset-resets target s =
      split (ecu_reset session target hard s)
        (extended_request-asked session target (Service.ecu_reset hard) (λ r. tt) s)
    where
      split :
          (t : Result (ClientError Io) (Unit {0}) × S)
          → Extended session s target (Service.ecu_reset hard) t
          → (resets (session.asked t.1) ≡ resets (session.asked s))
            ⊎ (resets (session.asked t.1) ≡ resets (session.asked s) ++ target ∷ [])
      split (ok u, s') e = inr (ap resets e ∙ resets-append (session.asked s) _)
      split (err x, s') (inl e) =
          inl (ap resets e ∙ resets-append (session.asked s) _ ∙ append-nil _)
      split (err x, s') (inr e) = inr (ap resets e ∙ resets-append (session.asked s) _)
      split (panic, s') (inl e) =
          inl (ap resets e ∙ resets-append (session.asked s) _ ∙ append-nil _)
      split (panic, s') (inr e) = inr (ap resets e ∙ resets-append (session.asked s) _)

  reset_each-resets :
      (targets : List ℕ) (reports : List (ClearReport Io)) (s : S)
      → (rs : List ℕ) × (resets (session.asked (reset_each session targets reports s).1)
          ≡ resets (session.asked s) ++ rs)
        × Subsequence rs targets
  unfolding reset_each
  reset_each-resets [] reports s = ([], sym (append-nil _), done)
  reset_each-resets (a ∷ targets) reports s =
      let outcome = ecu_reset session a hard s in
      let (rs, e, sub) = reset_each-resets targets (map (mark a outcome.0) reports) outcome.1 in
      elim (ecu_reset-resets a s) [
        | inl q ↦ (rs, e ∙ ap (λ t. t ++ rs) q, skip a sub)
        | inr q ↦ (
          a ∷ rs,
          e ∙ ap (λ t. t ++ rs) q ∙ append_assoc (resets (session.asked s)) (a ∷ []) rs,
          keep a sub,
        )
      ]

  reset_each-cleared :
      (targets : List ℕ) (reports : List (ClearReport Io)) (s : S)
      → (cleared (reset_each session targets reports s).0 ≡ cleared reports)
        × (map (λ r. r.address) (reset_each session targets reports s).0
            ≡ map (λ r. r.address) reports)
  unfolding reset_each
  reset_each-cleared [] reports s = (refl, refl)
  reset_each-cleared (a ∷ targets) reports s =
      let outcome = ecu_reset session a hard s in
      let (p, q) = reset_each-cleared targets (map (mark a outcome.0) reports) outcome.1 in
      let (e, f) = mark-cleared a outcome.0 reports in (p ∙ e, q ∙ f)

  clear_faults_all_with_reset_targets :
      (addrs : List ℕ) (reset : Bool) (s : S)
      → let final = clear_faults_all_with_reset session addrs reset s in
        (map (λ r. r.address) final.0 ≡ addrs)
        × ((rs : List ℕ) × (resets (session.asked final.1) ≡ resets (session.asked s) ++ rs)
            × Subsequence rs (reset_targets (cleared final.0))
            × ((reset ≡ true) ⊎ (rs ≡ [])))
  unfolding clear_faults_all_with_reset
  clear_faults_all_with_reset_targets addrs false s =
      let (p, q) = clear_each-quiet addrs s in
      (p, ([], q ∙ sym (append-nil _), nothing _, inr refl))
  clear_faults_all_with_reset_targets addrs true s =
      let reports = clear_each session addrs s in
      let targets = reset_targets (cleared reports.0) in
      let (p, q) = clear_each-quiet addrs s in
      let (rs, e, sub) = reset_each-resets targets reports.0 reports.1 in
      let (same, order) = reset_each-cleared targets reports.0 reports.1 in
      (
        order ∙ p,
        (
          rs,
          e ∙ ap (λ t. t ++ rs) q,
          subst (λ c. Subsequence rs (reset_targets c)) (sym same) sub,
          inl refl,
        ),
      )

  -- Every ECU gets its report, in the order of the addresses. Each ECU that is reset has a report
  -- without an error, is not the gateway and is reset once; none is reset when no reset was asked
  -- for.
  pub clear_faults_all_with_reset-resets :
      (addrs : List ℕ) (reset : Bool) (s : S)
      → let final = clear_faults_all_with_reset session addrs reset s in
        (map (λ r. r.address) final.0 ≡ addrs)
        × ((rs : List ℕ) × (resets (session.asked final.1) ≡ resets (session.asked s) ++ rs)
            × All (λ a. Clean final.0 a × (a ≢ zgw_address)) rs
            × NoRepeats rs
            × ((reset ≡ true) ⊎ (rs ≡ [])))
  clear_faults_all_with_reset-resets addrs reset s =
      let (order, (rs, e, sub, asked_for)) = clear_faults_all_with_reset_targets addrs reset s in
      let reports = (clear_faults_all_with_reset session addrs reset s).0 in
      (
        order,
        (
          rs,
          e,
          Subsequence-All _ sub (targets-Clean reports),
          Subsequence-NoRepeats sub (reset_targets-NoRepeats (cleared reports) 0).0,
          asked_for,
        ),
      )
