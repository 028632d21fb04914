-- ===== src/Client/Scan.antt =====
-- crates/client/src/scan.rs: fault codes cleared on several ECUs, each with a read before and after,
-- and the reset that can follow.
pub mod Targets
pub mod Clearing
pub mod Course
pub mod Resets
use klartext.Prelude.{
  ℕ, zero, suc, ◌≡◌, Bool, true, false, not, ◌&&◌, List, [], ◌∷◌, ◌++◌, map, Option, none, some,
  ◌==◌, if◌then◌else◌, Result, ok, err, panic,
}
use klartext.Uds.Dtc.{Dtc, is_relevant}
use klartext.Client.Session.{ClientError}
use klartext.Client.Operations.{
  Seam, ClientM, zgw_address, hard, read_all_dtcs, clear_all_dtcs, ecu_reset,
}

-- The step that failed, with the error whose text the source's message holds. `aborted` is no failure
-- of the source: it stands for a panic of an operation, which would end the program.
pub data ClearFailure (Io : Type 0) : Type 0 where
  pre_read clear post_read : ClientError Io → ClearFailure Io
  aborted : ClearFailure Io

pub record ClearReport (Io : Type 0) : Type 0 where
  pub address : ℕ
  pub before : List Dtc
  pub after_relevant : List Dtc
  pub verified_clean : Bool
  pub reset_performed : Option Bool
  pub reset_error : Option (ClientError Io)
  pub error : Option (ClearFailure Io)

-- `filter`, and `out.contains(&address)`.
abbrev pub filter {ℓ} : {A : Type ℓ} → (A → Bool) → List A → List A
filter test [] = []
filter test (x ∷ xs) = if test x then x ∷ filter test xs else filter test xs

abbrev pub contains : List ℕ → ℕ → Bool
contains [] x = false
contains (y ∷ ys) x = if y == x then true else contains ys x

abbrev pub is_empty {ℓ} : {A : Type ℓ} → List A → Bool
is_empty [] = true
is_empty (x ∷ xs) = false

unfoldable pub is_reset_target : ℕ → Bool
is_reset_target address = not (address == zgw_address)

-- The loop of `reset_targets`, with what has been pushed.
unfoldable pub reset_targets_loop : List ℕ → List ℕ → List ℕ
unfolding is_reset_target
reset_targets_loop out [] = out
reset_targets_loop out (address ∷ addrs) =
    if is_reset_target address && not (contains out address)
    then reset_targets_loop (out ++ address ∷ []) addrs
    else reset_targets_loop out addrs

unfoldable pub reset_targets : List ℕ → List ℕ
unfolding reset_targets_loop
reset_targets addrs = reset_targets_loop [] addrs

abbrev pub is_none {ℓ} : {A : Type ℓ} → Option A → Bool
is_none none = true
is_none (some a) = false

-- The addresses whose faults were cleared: those of the reports without an error.
unfoldable pub cleared : {Io : Type 0} → List (ClearReport Io) → List ℕ
cleared reports = map (λ r. r.address) (filter (λ r. is_none r.error) reports)

-- What a reset writes into the reports of its address.
unfoldable pub mark :
    {Io : Type 0} → ℕ → Result (ClientError Io) (Unit {0}) → ClearReport Io → ClearReport Io
mark address outcome r =
    if r.address == address
    then elim outcome [
      | ok u ↦ record r { reset_performed = some true }
      | err e ↦ record r { reset_performed = some false; reset_error = some e }
      | panic ↦ r
    ]
    else r

module _ {Io S : Type 0} (session : Seam Io S) where
  abbrev pub blank : ℕ → ClearReport Io
  blank target = record {
    address = target;
    before = [];
    after_relevant = [];
    verified_clean = false;
    reset_performed = none;
    reset_error = none;
    error = none;
  }

  -- The end of `clear_faults_verified`, from the outcome of each of its steps.
  unfoldable pub verify : ClearReport Io → Result (ClientError Io) (List Dtc) → ClearReport Io
  verify report (ok after) =
      let relevant = filter is_relevant after in
      record report { after_relevant = relevant; verified_clean = is_empty relevant }
  verify report (err e) = record report { error = some (post_read e) }
  verify report panic = record report { error = some aborted }

  unfoldable pub after_clear :
      ClearReport Io → Result (ClientError Io) (Unit {0}) → S → ClearReport Io × S
  unfolding verify
  after_clear report (err e) s = (record report { error = some (clear e) }, s)
  after_clear report panic s = (record report { error = some aborted }, s)
  after_clear report (ok u) s =
      let answer = read_all_dtcs session report.address s in (verify report answer.0, answer.1)

  unfoldable pub after_read :
      ClearReport Io → Result (ClientError Io) (List Dtc) → S → ClearReport Io × S
  unfolding after_clear
  after_read report (err e) s = (record report { error = some (pre_read e) }, s)
  after_read report panic s = (record report { error = some aborted }, s)
  after_read report (ok before) s =
      let answer = clear_all_dtcs session report.address s in
      after_clear (record report { before = before }) answer.0 answer.1

  unfoldable pub clear_faults_verified : ℕ → S → ClearReport Io × S
  unfolding after_read
  clear_faults_verified target s =
      let answer = read_all_dtcs session target s in after_read (blank target) answer.0 answer.1

  unfoldable pub clear_each : List ℕ → S → List (ClearReport Io) × S
  unfolding clear_faults_verified
  clear_each [] s = ([], s)
  clear_each (address ∷ addrs) s =
      let first = clear_faults_verified address s in
      let rest = clear_each addrs first.1 in (first.0 ∷ rest.0, rest.1)

  unfoldable pub reset_each : List ℕ → List (ClearReport Io) → S → List (ClearReport Io) × S
  unfolding mark
  reset_each [] reports s = (reports, s)
  reset_each (address ∷ targets) reports s =
      let outcome = ecu_reset session address hard s in
      reset_each targets (map (mark address outcome.0) reports) outcome.1

  unfoldable pub clear_faults_all_with_reset : List ℕ → Bool → S → List (ClearReport Io) × S
  unfolding clear_each reset_each cleared reset_targets
  clear_faults_all_with_reset addrs reset s =
      let reports = clear_each addrs s in
      elim reset [
        | false ↦ reports
        | true ↦ reset_each (reset_targets (cleared reports.0)) reports.0 reports.1
      ]

  unfoldable pub clear_faults_all : List ℕ → S → List (ClearReport Io) × S
  unfolding clear_faults_all_with_reset
  clear_faults_all addrs s = clear_faults_all_with_reset addrs false s
