-- ===== src/Best/Gate/Safety.antt =====
-- crates/best/src/gate.rs: which telegrams the gate delegates and which it refuses.
use klartext.Prelude.{
  ℕ, ◌≤◌, ◌≡◌, ◌⊎◌, inl, inr, Bool-cases, List, none, some, arith, ◌==◌, leb, ◌&&◌, ◌||◌, err,
}
use klartext.Best.Telegram.{peek_sid}
use klartext.Best.Exchange.{unexpected, refused, UdsExchange}
use klartext.Best.Gate.{Policy, read_only, confirmed_write, classify, arm, gated_request}

-- The service bytes of the two policies: five read and session services under `read_only`, and
-- every service but the flashing ones, 0x34 to 0x37, under `confirmed_write`.
abbrev pub Permits : Policy → ℕ → Type 0
Permits read_only sid = (sid ≡ 0x10) ⊎ (sid ≡ 0x19) ⊎ (sid ≡ 0x22) ⊎ (sid ≡ 0x2c) ⊎ (sid ≡ 0x3e)
Permits confirmed_write sid = ¬ ((0x34 ≤ sid) × (sid ≤ 0x37))

pub data Admission {ℓ} {A : Type ℓ} (delegate refuse : A) (policy : Policy) (sid : ℕ)
    : A → Type ℓ where
  delegated : {a : A} → Permits policy sid → a ≡ delegate → Admission delegate refuse policy sid a
  rejected : {a : A} → ¬ Permits policy sid → a ≡ refuse → Admission delegate refuse policy sid a

pub Admission-arm {ℓ} :
    {A : Type ℓ} (delegate refuse : A) (policy : Policy) (sid : ℕ)
    → Admission delegate refuse policy sid (arm delegate refuse policy (classify sid))
unfolding arm classify
Admission-arm d r read_only sid =
    elim (Bool-cases (sid == 0x10 || sid == 0x3e || sid == 0x22 || sid == 0x2c || sid == 0x19)) [
      | inl yes_read ↦ delegated (ground arith) (rw yes_read)
      | inr no_read ↦ elim (Bool-cases (leb 0x34 sid && leb sid 0x37)) [
        | inl flash ↦ rejected (ground arith) (rw (no_read, flash))
        | inr other ↦ rejected (ground arith) (rw (no_read, other))
      ]
    ]
Admission-arm d r confirmed_write sid =
    elim (Bool-cases (sid == 0x10 || sid == 0x3e || sid == 0x22 || sid == 0x2c || sid == 0x19)) [
      | inl yes_read ↦ delegated (ground arith) (rw yes_read)
      | inr no_read ↦ elim (Bool-cases (leb 0x34 sid && leb sid 0x37)) [
        | inl flash ↦ rejected (ground arith) (rw (no_read, flash))
        | inr other ↦ delegated (ground arith) (rw (no_read, other))
      ]
    ]

pub Admission-delegate {ℓ} :
    {A : Type ℓ} {delegate refuse : A} {policy : Policy} {sid : ℕ} {a : A}
    → Admission delegate refuse policy sid a
    → Permits policy sid
    → a ≡ delegate
Admission-delegate (delegated _ e) permit = e
Admission-delegate (rejected no_permit _) permit = absurd (no_permit permit)

pub Admission-refuse {ℓ} :
    {A : Type ℓ} {delegate refuse : A} {policy : Policy} {sid : ℕ} {a : A}
    → Admission delegate refuse policy sid a
    → ¬ Permits policy sid
    → a ≡ refuse
Admission-refuse (delegated permit _) forbidden = absurd (forbidden permit)
Admission-refuse (rejected _ e) forbidden = e

module _ {S : Type 0} (inner : UdsExchange S) (policy : Policy) (s : S) (target : ℕ)
    (frame : List ℕ) where
  -- A telegram with the service byte `sid` goes to the inner exchange unchanged exactly when the
  -- policy permits `sid`; otherwise the answer is `refused` with that byte and the telegram, and
  -- the state behind the inner exchange is untouched.
  pub gated_request-Admission :
      (sid : ℕ)
      → peek_sid frame ≡ some sid
      → Admission
          (inner s target frame)
          (err (refused sid frame), s)
          policy
          sid
          (gated_request inner policy s target frame)
  unfolding gated_request
  gated_request-Admission sid e = rw (e, gated_request) (Admission-arm _ _ policy sid)

  -- A telegram without a service byte is refused as `unexpected`, under both policies, and the
  -- state behind the inner exchange is untouched.
  pub gated_request_blind :
      peek_sid frame ≡ none
      → gated_request inner policy s target frame ≡ (err (unexpected frame), s)
  unfolding gated_request
  gated_request_blind e = rw (e, gated_request)
