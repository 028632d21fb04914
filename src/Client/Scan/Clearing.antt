-- ===== src/Client/Scan/Clearing.antt =====
-- crates/client/src/scan.rs: the requests that a verified clear makes, in order.
use klartext.Prelude.{
  ℕ, ◌≡◌, refl, ap, ◌∙◌, ◌⊎◌, inl, inr, false, List, [], ◌∷◌, ◌++◌, append_assoc, none, some,
  Result, ok, err, panic, take, ◌<◌, arith,
}
use klartext.Uds.Service
use klartext.Uds.Dtc.{Dtc, is_relevant}
use klartext.Client.Session.{ClientError}
use klartext.Client.Operations.{
  Seam, ClientM, ◌>>=◌, lift, pure, extended, all_dtc_status_mask, request, enter_session,
  read_dtcs, read_all_dtcs, extended_request, clear_dtcs, clear_all_dtcs,
}
use klartext.Client.Scan.{
  ClearFailure, pre_read, clear, aborted, ClearReport, blank, filter, is_empty, verify, after_clear,
  after_read, clear_faults_verified,
}

-- The four requests of a clear: the codes are read, the session is extended, the codes are cleared
-- and read again.
abbrev pub script : ℕ → List (ℕ × List ℕ)
script target =
    (target, Service.read_dtc_by_status_mask all_dtc_status_mask)
    ∷ (target, Service.diagnostic_session_control extended)
    ∷ (target, Service.clear_diagnostic_information (0xff, 0xff, 0xff))
    ∷ (target, Service.read_dtc_by_status_mask all_dtc_status_mask)
    ∷ []

module _ {Io S : Type 0} (session : Seam Io S) where
  -- A step that only looks at the answer leaves the session as the answer did.
  look_state :
      {A B : Type 0} (m : ClientM Io S A) (g : A → Result (ClientError Io) B) (s : S)
      → ((m >>= λ a. lift (g a)) s).1 ≡ (m s).1
  look_state {A} {B} m g s = split (m s)
    where
      split :
          (t : Result (ClientError Io) A × S) → (◌>>=◌ (λ (x : S). t) (λ a. lift (g a)) s).1 ≡ t.1
      split (ok a, s₁) = refl
      split (err e, s₁) = refl
      split (panic, s₁) = refl

  pub read_all_dtcs-asked :
      (target : ℕ) (s : S)
      → session.asked (read_all_dtcs session target s).1
        ≡ session.asked s ++ (target, Service.read_dtc_by_status_mask all_dtc_status_mask) ∷ []
  unfolding read_all_dtcs read_dtcs request
  read_all_dtcs-asked target s =
      ap session.asked (
        look_state (request session target (Service.read_dtc_by_status_mask all_dtc_status_mask)) _
          s)
      ∙ session.request-asked s target (Service.read_dtc_by_status_mask all_dtc_status_mask)

  -- A request in an extended session: the session first, and the request only when it is granted.
  abbrev pub Extended :
      {A : Type 0} → S → (target : ℕ) → List ℕ → Result (ClientError Io) A × S → Type 0
  Extended s target payload (ok a, s') =
      session.asked s'
      ≡ session.asked s
        ++ (target, Service.diagnostic_session_control extended) ∷ (target, payload) ∷ []
  Extended s target payload (_, s') =
      (session.asked s'
        ≡ session.asked s ++ (target, Service.diagnostic_session_control extended) ∷ [])
      ⊎ (session.asked s'
          ≡ session.asked s
            ++ (target, Service.diagnostic_session_control extended) ∷ (target, payload) ∷ [])

  pub extended_request-asked :
      {A : Type 0} (target : ℕ) (payload : List ℕ) (g : List ℕ → A) (s : S)
      → Extended s target payload ((extended_request session target payload >>= λ r. pure (g r)) s)
  unfolding extended_request enter_session request
  extended_request-asked {A} target payload g s =
      first (session.request s target enter) (session.request-asked s target enter)
    where
      enter : List ℕ
      enter = Service.diagnostic_session_control extended

      joined :
          (s₁ s₂ : S)
          → session.asked s₁ ≡ session.asked s ++ (target, enter) ∷ []
          → session.asked s₂ ≡ session.asked s₁ ++ (target, payload) ∷ []
          → session.asked s₂ ≡ session.asked s ++ (target, enter) ∷ (target, payload) ∷ []
      joined s₁ s₂ e q =
          q
          ∙ ap (λ l. l ++ (target, payload) ∷ []) e
          ∙ append_assoc (session.asked s) ((target, enter) ∷ []) ((target, payload) ∷ [])

      second :
          (s₁ : S)
          → session.asked s₁ ≡ session.asked s ++ (target, enter) ∷ []
          → (t : Result (ClientError Io) (List ℕ) × S)
          → session.asked t.1 ≡ session.asked s₁ ++ (target, payload) ∷ []
          → Extended s target payload (◌>>=◌ (λ (x : S). t) (λ r. pure (g r)) s₁)
      second s₁ e (ok r, s₂) q = joined s₁ s₂ e q
      second s₁ e (err x, s₂) q = inr (joined s₁ s₂ e q)
      second s₁ e (panic, s₂) q = inr (joined s₁ s₂ e q)

      first :
          (t : Result (ClientError Io) (List ℕ) × S)
          → session.asked t.1 ≡ session.asked s ++ (target, enter) ∷ []
          → Extended s target payload (
              ◌>>=◌
                (◌>>=◌ (◌>>=◌ (λ (x : S). t) (λ r. pure tt)) (λ u. request session target payload))
                (λ r. pure (g r))
                s)
      first (ok r, s₁) e =
          second s₁ e (session.request s₁ target payload) (session.request-asked s₁ target payload)
      first (err x, s₁) e = inl e
      first (panic, s₁) e = inl e

  -- What a verified clear of `target` from the state `s` has done.
  abbrev pub Clears : S → ℕ → ClearReport Io × S → Type 0
  Clears s target (report, s') =
      (report.address ≡ target)
      × ((report.verified_clean ≡ false) ⊎ ((report.error ≡ none) × (report.after_relevant ≡ [])))
      × ((session.asked s' ≡ session.asked s ++ script target)
          ⊎ ((k : ℕ) × (f : ClearFailure Io) × (k < 4)
              × (session.asked s' ≡ session.asked s ++ take k (script target))
              × (report.error ≡ some f)))

  pub step_asked :
      (s s₁ s₂ : S) (front back : List (ℕ × List ℕ))
      → session.asked s₁ ≡ session.asked s ++ front
      → session.asked s₂ ≡ session.asked s₁ ++ back
      → session.asked s₂ ≡ session.asked s ++ (front ++ back)
  step_asked s s₁ s₂ front back e q =
      q ∙ ap (λ l. l ++ back) e ∙ append_assoc (session.asked s) front back

  verify-Clears :
      (s s₃ : S) (report : ClearReport Io)
      → report.error ≡ none
      → report.verified_clean ≡ false
      → session.asked s₃ ≡ session.asked s ++ take 3 (script report.address)
      → (t : Result (ClientError Io) (List Dtc) × S)
      → session.asked t.1
        ≡ session.asked s₃
          ++ (report.address, Service.read_dtc_by_status_mask all_dtc_status_mask) ∷ []
      → Clears s report.address (verify session report t.0, t.1)
  unfolding verify
  verify-Clears s s₃ report clean unset e (ok after, s₄) q = (
    refl,
    emptied (filter is_relevant after),
    inl (step_asked s s₃ s₄ (take 3 (script report.address)) _ e q),
  )
    where
      emptied :
          (relevant : List Dtc)
          → (is_empty relevant ≡ false) ⊎ ((report.error ≡ none) × (relevant ≡ []))
      emptied [] = inr (clean, refl)
      emptied (d ∷ ds) = inl refl
  verify-Clears s s₃ report clean unset e (err x, s₄) q =
      (refl, inl unset, inl (step_asked s s₃ s₄ (take 3 (script report.address)) _ e q))
  verify-Clears s s₃ report clean unset e (panic, s₄) q =
      (refl, inl unset, inl (step_asked s s₃ s₄ (take 3 (script report.address)) _ e q))

  after_clear-Clears :
      (s s₁ : S) (report : ClearReport Io)
      → report.error ≡ none
      → report.verified_clean ≡ false
      → session.asked s₁ ≡ session.asked s ++ take 1 (script report.address)
      → (t : Result (ClientError Io) (Unit {0}) × S)
      → Extended s₁ report.address (Service.clear_diagnostic_information (0xff, 0xff, 0xff)) t
      → Clears s report.address (after_clear session report t.0 t.1)
  unfolding after_clear
  after_clear-Clears s s₁ report clean unset e (ok u, s₂) q =
      verify-Clears s s₂ report clean unset
        (step_asked s s₁ s₂ (take 1 (script report.address)) _ e q)
        (read_all_dtcs session report.address s₂) (read_all_dtcs-asked report.address s₂)
  after_clear-Clears s s₁ report clean unset e (err x, s₂) (inl q) = (
    refl,
    inl unset,
    inr (2, clear x, omega arith, step_asked s s₁ s₂ (take 1 (script report.address)) _ e q, refl),
  )
  after_clear-Clears s s₁ report clean unset e (err x, s₂) (inr q) = (
    refl,
    inl unset,
    inr (3, clear x, omega arith, step_asked s s₁ s₂ (take 1 (script report.address)) _ e q, refl),
  )
  after_clear-Clears s s₁ report clean unset e (panic, s₂) (inl q) = (
    refl,
    inl unset,
    inr (2, aborted, omega arith, step_asked s s₁ s₂ (take 1 (script report.address)) _ e q, refl),
  )
  after_clear-Clears s s₁ report clean unset e (panic, s₂) (inr q) = (
    refl,
    inl unset,
    inr (3, aborted, omega arith, step_asked s s₁ s₂ (take 1 (script report.address)) _ e q, refl),
  )

  after_read-Clears :
      (s : S) (target : ℕ) (t : Result (ClientError Io) (List Dtc) × S)
      → session.asked t.1
        ≡ session.asked s ++ (target, Service.read_dtc_by_status_mask all_dtc_status_mask) ∷ []
      → Clears s target (after_read session (blank session target) t.0 t.1)
  unfolding after_read clear_all_dtcs clear_dtcs
  after_read-Clears s target (err x, s₁) e =
      (refl, inl refl, inr (1, pre_read x, omega arith, e, refl))
  after_read-Clears s target (panic, s₁) e =
      (refl, inl refl, inr (1, aborted, omega arith, e, refl))
  after_read-Clears s target (ok before, s₁) e =
      let report : ClearReport Io = record (blank session target) { before = before } in
      after_clear-Clears s s₁ report refl refl e (clear_all_dtcs session target s₁) (
        extended_request-asked target (Service.clear_diagnostic_information (0xff, 0xff, 0xff))
          (λ r. tt) s₁)

  -- The first read has succeeded, or nothing was asked after it.
  abbrev pub NotBlind : S → ℕ → S → Type 0
  NotBlind s target s' =
      ((before : List Dtc) × ((read_all_dtcs session target s).0 ≡ ok before))
      ⊎ (session.asked s' ≡ session.asked s ++ take 1 (script target))

  after_read-NotBlind :
      (s : S) (target : ℕ) (t : Result (ClientError Io) (List Dtc) × S)
      → session.asked t.1 ≡ session.asked s ++ take 1 (script target)
      → ((before : List Dtc) × (t.0 ≡ ok before))
        ⊎ (session.asked (after_read session (blank session target) t.0 t.1).1
            ≡ session.asked s ++ take 1 (script target))
  unfolding after_read
  after_read-NotBlind s target (ok before, s₁) e = inl (before, refl)
  after_read-NotBlind s target (err x, s₁) e = inr e
  after_read-NotBlind s target (panic, s₁) e = inr e

  -- A verified clear reads the codes of its ECU, extends the session, clears the codes and reads them
  -- again, and asks nothing else of any ECU. Nothing is asked after a first read that failed. It stops
  -- after a step that fails, which the report then names; without a failure before the second read it
  -- makes all four requests. It reports an ECU as clean only when no step failed and no relevant code
  -- is left.
  pub clear_faults_verified-Clears :
      (target : ℕ) (s : S)
      → Clears s target (clear_faults_verified session target s)
        × NotBlind s target (clear_faults_verified session target s).1
  unfolding clear_faults_verified
  clear_faults_verified-Clears target s =
      let asked = read_all_dtcs-asked target s in
      (
        after_read-Clears s target (read_all_dtcs session target s) asked,
        after_read-NotBlind s target (read_all_dtcs session target s) asked,
      )
