-- ===== src/Client/Scan/Course.antt =====
-- crates/client/src/scan.rs: the ways in which a verified clear can go, with its report.
use klartext.Prelude.{
  ℕ, ◌≡◌, refl, ◌↔◌, ◌⊎◌, inl, inr, Bool, true, false, List, [], ◌∷◌, ◌++◌, take, Option, none,
  some, All, Bool-cases, Result, ok, err, panic,
}
use klartext.Uds.Service
use klartext.Uds.Dtc.{Dtc, is_relevant}
use klartext.Client.Session.{ClientError}
use klartext.Client.Operations.{
  Seam, extended, all_dtc_status_mask, read_all_dtcs, clear_dtcs, clear_all_dtcs,
}
use klartext.Client.Scan.{
  ClearFailure, pre_read, clear, post_read, aborted, ClearReport, blank, filter, is_empty, verify,
  after_clear, after_read, clear_faults_verified,
}
use klartext.Client.Scan.Clearing.{
  script, step_asked, read_all_dtcs-asked, Extended, extended_request-asked,
}

-- A report of an ECU that was not reset.
abbrev pub told :
    {Io : Type 0}
    → ℕ
    → (before after_relevant : List Dtc) → (clean : Bool) → Option (ClearFailure Io)
    → ClearReport Io
told target before relevant clean error = record {
  address = target;
  before = before;
  after_relevant = relevant;
  verified_clean = clean;
  reset_performed = none;
  reset_error = none;
  error = error;
}

filter-empty :
    (after : List Dtc)
    → (is_empty (filter is_relevant after) ≡ true) ↔ All (λ d. is_relevant d ≡ false) after
filter-empty [] = ((λ h. tt), λ h. refl)
filter-empty (d ∷ after) = elim (Bool-cases (is_relevant d)) [
  | inl e ↦ rw e ((λ h. absurd (cc h)), λ h. absurd (cc h.0))
  | inr e ↦ rw e ((λ h. (refl, (filter-empty after).0 h)), λ h. (filter-empty after).1 h.1)
]

module _ {Io S : Type 0} (session : Seam Io S) where
  -- The session has been asked the first `k` requests of the script since the state `s`.
  abbrev pub AskedTo : ℕ → S → ℕ → S → Type 0
  AskedTo k s target s' = session.asked s' ≡ session.asked s ++ take k (script target)

  -- Each step starts where the one before it ended, and its answer decides how it goes on.
  pub data Course (s : S) (target : ℕ) : ClearReport Io × S → Type 0 where
    unread :
        {e : ClientError Io} {s₁ : S}
        → read_all_dtcs session target s ≡ (err e, s₁)
        → AskedTo 1 s target s₁
        → Course s target (told target [] [] false (some (pre_read e)), s₁)
    uncleared :
        {before : List Dtc} {e : ClientError Io} {s₁ s₂ : S}
        → read_all_dtcs session target s ≡ (ok before, s₁)
        → clear_all_dtcs session target s₁ ≡ (err e, s₂)
        → AskedTo 2 s target s₂ ⊎ AskedTo 3 s target s₂
        → Course s target (told target before [] false (some (clear e)), s₂)
    unverified :
        {before : List Dtc} {u : Unit {0}} {e : ClientError Io} {s₁ s₂ s₃ : S}
        → read_all_dtcs session target s ≡ (ok before, s₁)
        → clear_all_dtcs session target s₁ ≡ (ok u, s₂)
        → read_all_dtcs session target s₂ ≡ (err e, s₃)
        → AskedTo 4 s target s₃
        → Course s target (told target before [] false (some (post_read e)), s₃)
    verified :
        {before after : List Dtc} {u : Unit {0}} {clean : Bool} {s₁ s₂ s₃ : S}
        → read_all_dtcs session target s ≡ (ok before, s₁)
        → clear_all_dtcs session target s₁ ≡ (ok u, s₂)
        → read_all_dtcs session target s₂ ≡ (ok after, s₃)
        → AskedTo 4 s target s₃
        → (clean ≡ true) ↔ All (λ d. is_relevant d ≡ false) after
        → Course s target (told target before (filter is_relevant after) clean none, s₃)
    no_read :
        {s₁ : S}
        → read_all_dtcs session target s ≡ (panic, s₁)
        → AskedTo 1 s target s₁
        → Course s target (told target [] [] false (some aborted), s₁)
    no_clear :
        {before : List Dtc} {s₁ s₂ : S}
        → read_all_dtcs session target s ≡ (ok before, s₁)
        → clear_all_dtcs session target s₁ ≡ (panic, s₂)
        → AskedTo 2 s target s₂ ⊎ AskedTo 3 s target s₂
        → Course s target (told target before [] false (some aborted), s₂)
    no_verify :
        {before : List Dtc} {u : Unit {0}} {s₁ s₂ s₃ : S}
        → read_all_dtcs session target s ≡ (ok before, s₁)
        → clear_all_dtcs session target s₁ ≡ (ok u, s₂)
        → read_all_dtcs session target s₂ ≡ (panic, s₃)
        → AskedTo 4 s target s₃
        → Course s target (told target before [] false (some aborted), s₃)

  verify-Course :
      {before : List Dtc} {u : Unit {0}} (s s₁ s₂ : S) (target : ℕ)
      → read_all_dtcs session target s ≡ (ok before, s₁)
      → clear_all_dtcs session target s₁ ≡ (ok u, s₂)
      → AskedTo 3 s target s₂
      → (t : Result (ClientError Io) (List Dtc) × S) → read_all_dtcs session target s₂ ≡ t
      → session.asked t.1
        ≡ session.asked s₂ ++ (target, Service.read_dtc_by_status_mask all_dtc_status_mask) ∷ []
      → Course s target (verify session (told target before [] false none) t.0, t.1)
  unfolding verify
  verify-Course s s₁ s₂ target e f asked (ok after, s₃) g q =
      verified e f g (step_asked session s s₂ s₃ (take 3 (script target)) _ asked q)
        (filter-empty after)
  verify-Course s s₁ s₂ target e f asked (err x, s₃) g q =
      unverified e f g (step_asked session s s₂ s₃ (take 3 (script target)) _ asked q)
  verify-Course s s₁ s₂ target e f asked (panic, s₃) g q =
      no_verify e f g (step_asked session s s₂ s₃ (take 3 (script target)) _ asked q)

  abbrev clearing : ℕ → List (ℕ × List ℕ)
  clearing target =
      (target, Service.diagnostic_session_control extended)
      ∷ (target, Service.clear_diagnostic_information (0xff, 0xff, 0xff))
      ∷ []

  -- The session alone was asked for, or the clear as well.
  either_asked :
      (s s₁ s₂ : S) (target : ℕ)
      → AskedTo 1 s target s₁
      → (session.asked s₂ ≡ session.asked s₁ ++ take 1 (clearing target))
        ⊎ (session.asked s₂ ≡ session.asked s₁ ++ clearing target)
      → AskedTo 2 s target s₂ ⊎ AskedTo 3 s target s₂
  either_asked s s₁ s₂ target asked (inl q) =
      inl (step_asked session s s₁ s₂ (take 1 (script target)) _ asked q)
  either_asked s s₁ s₂ target asked (inr q) =
      inr (step_asked session s s₁ s₂ (take 1 (script target)) _ asked q)

  after_clear-Course :
      {before : List Dtc} (s s₁ : S) (target : ℕ)
      → read_all_dtcs session target s ≡ (ok before, s₁)
      → AskedTo 1 s target s₁
      → (t : Result (ClientError Io) (Unit {0}) × S) → clear_all_dtcs session target s₁ ≡ t
      → Extended session s₁ target (Service.clear_diagnostic_information (0xff, 0xff, 0xff)) t
      → Course s target (after_clear session (told target before [] false none) t.0 t.1)
  unfolding after_clear
  after_clear-Course s s₁ target e asked (ok u, s₂) f q =
      verify-Course s s₁ s₂ target e f
        (step_asked session s s₁ s₂ (take 1 (script target)) _ asked q)
        (read_all_dtcs session target s₂) refl (read_all_dtcs-asked session target s₂)
  after_clear-Course s s₁ target e asked (err x, s₂) f q =
      uncleared e f (either_asked s s₁ s₂ target asked q)
  after_clear-Course s s₁ target e asked (panic, s₂) f q =
      no_clear e f (either_asked s s₁ s₂ target asked q)

  after_read-Course :
      (s : S) (target : ℕ) (t : Result (ClientError Io) (List Dtc) × S)
      → read_all_dtcs session target s ≡ t
      → AskedTo 1 s target t.1
      → Course s target (after_read session (blank session target) t.0 t.1)
  unfolding after_read clear_all_dtcs clear_dtcs
  after_read-Course s target (err x, s₁) e asked = unread e asked
  after_read-Course s target (panic, s₁) e asked = no_read e asked
  after_read-Course s target (ok before, s₁) e asked =
      after_clear-Course s s₁ target e asked (clear_all_dtcs session target s₁) refl (
        extended_request-asked session target
          (Service.clear_diagnostic_information (0xff, 0xff, 0xff)) (λ r. tt) s₁)

  -- A verified clear reads the codes of its ECU, extends the session, clears the codes and reads
  -- them again, each step from where the one before it ended, and asks nothing else of any ECU. A
  -- read or a clear that fails ends it: the report has that step with its error, or that it
  -- aborted, and does not say clean. The codes of the first read are in the report, and the
  -- relevant ones of the second when it succeeds; then there is no error, and the report says
  -- clean exactly when no code of the second read is relevant.
  pub clear_faults_verified-Course :
      (target : ℕ) (s : S) → Course s target (clear_faults_verified session target s)
  unfolding clear_faults_verified
  clear_faults_verified-Course target s =
      after_read-Course s target (read_all_dtcs session target s) refl
        (read_all_dtcs-asked session target s)
