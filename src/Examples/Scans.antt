-- ===== src/Examples/Scans.antt =====
-- crates/client/src/scan.rs: two ECUs, one of which refuses the clear.
use klartext.Prelude.{
  ℕ, ◌≢◌, All, ◌≡◌, refl, ◌⊎◌, true, ◌&&◌, List, [], ◌∷◌, ◌++◌, map, ◌==◌, if◌then◌else◌, ok, err,
  get_elem?,
}
use klartext.Uds.Nrc.{from}
use klartext.Client.Session.{Answer, negative, is_byte}
use klartext.Client.Operations.{Seam, zgw_address}
use klartext.Client.Scan.{clear_faults_verified, clear_faults_all_with_reset}
use klartext.Client.Scan.Targets.{NoRepeats}
use klartext.Client.Scan.Course.{Course, clear_faults_verified-Course}
use klartext.Client.Scan.Resets.{resets, Clean, clear_faults_all_with_reset-resets}

abbrev Io : Type 0
Io = Unit {0}

-- The ECU 0x29 refuses to clear; every other answer is positive, and no fault is stored.
abbrev answer : ℕ → List ℕ → Answer Io
answer target payload =
    if is_byte (get_elem? payload 0) 0x19
    then ok (0x59 ∷ 0x02 ∷ 0xff ∷ [])
    else if target == 0x29 && is_byte (get_elem? payload 0) 0x14
    then err (negative 0x14 (from 0x22))
    else ok payload

abbrev log_session : Seam Io (List (ℕ × List ℕ))
log_session = record {
  request = λ s target payload. (answer target payload, s ++ (target, payload) ∷ []);
  asked = λ s. s;
  request-asked = λ s target payload. refl;
}

clear_faults_verified-Course_example :
    Course log_session [] 0x12 (clear_faults_verified log_session 0x12 [])
clear_faults_verified-Course_example = clear_faults_verified-Course log_session 0x12 []

clear_faults_all_with_reset-resets_example :
    let final = clear_faults_all_with_reset log_session (0x12 ∷ 0x29 ∷ 0x10 ∷ []) true [] in
    (map (λ r. r.address) final.0 ≡ 0x12 ∷ 0x29 ∷ 0x10 ∷ [])
    × ((rs : List ℕ) × (resets final.1 ≡ resets [] ++ rs)
        × All (λ a. Clean final.0 a × (a ≢ zgw_address)) rs
        × NoRepeats rs
        × ((true ≡ true) ⊎ (rs ≡ [])))
clear_faults_all_with_reset-resets_example =
    clear_faults_all_with_reset-resets log_session (0x12 ∷ 0x29 ∷ 0x10 ∷ []) true []
