-- ===== src/Best/Bridge/Targets.antt =====
-- crates/best/src/gate.rs and bridge.rs: which ECU the live stack calls, and whether it aborts.
use klartext.Prelude.{
  ℕ, ◌≡◌, ◌≢◌, refl, inl, inr, List, [], ◌∷◌, map, All, All-append, Result, ok, err, panic, map_ok,
  Option-cases, Result-cases, Bool-cases, ◌==◌,
}
use klartext.Best.Telegram.{encode, decode_request, peek_sid}
use klartext.Best.Telegram.Safety.{decode_request-ne-panic}
use klartext.Best.Exchange.{ExchangeError, refused}
use klartext.Best.Gate.{Policy}
use klartext.Best.Gate.Safety.{
  Admission, delegated, rejected, gated_request_blind, gated_request-Admission,
}
use klartext.Best.Bridge.{BareUdsTransport, telegram_request}
use klartext.Best.Bridge.Safety.{
  Call, recorded, live, send_all, Forwarded, kept, called, telegram_request-Forwarded,
  telegram_request-ok, telegram_request-err,
}

-- The ECU of a call.
abbrev pub CallTo : ℕ → Call → Type 0
CallTo target c = c.0 ≡ target

module _ {S : Type 0} (call : BareUdsTransport S) (policy : Policy) (target : ℕ) where
  Forwarded-CallTo :
      (calls : List Call) (frame : List ℕ) (after : List Call)
      → Forwarded calls target frame after
      → All (CallTo target) calls
      → All (CallTo target) after
  Forwarded-CallTo calls frame after (kept e) h = rw e h
  Forwarded-CallTo calls frame after (called tel d t e) h =
      rw e (All-append (CallTo target) calls _ h (refl, tt))

  admitted-CallTo :
      (calls : List Call) (s : S) (frame : List ℕ) (sid : ℕ)
      (answer : Result ExchangeError (List ℕ) × (List Call × S))
      → Admission
          (telegram_request (recorded call) (calls, s) target frame)
          (err (refused sid frame), (calls, s))
          policy
          sid
          answer
      → All (CallTo target) calls
      → All (CallTo target) answer.1.0
  admitted-CallTo calls s frame sid answer (delegated permit e) h = rw e (
      Forwarded-CallTo calls frame _ (telegram_request-Forwarded call policy calls s target frame)
        h)
  admitted-CallTo calls s frame sid answer (rejected _ e) h = rw e h

  live-CallTo :
      (calls : List Call) (s : S) (frame : List ℕ)
      → All (CallTo target) calls
      → All (CallTo target) (live call policy (calls, s) target frame).1.0
  unfolding live
  live-CallTo calls s frame h = elim (Option-cases (peek_sid frame)) [
    | inl e ↦ rw (gated_request_blind {S = List Call × S} _ policy (calls, s) target frame e) h
    | inr (sid, e) ↦
        admitted-CallTo calls s frame sid _
          (gated_request-Admission {S = List Call × S} _ policy (calls, s) target frame sid e) h
  ]

  -- Telegrams for one ECU make calls of that ECU only.
  pub send_all-CallTo :
      (frames : List (List ℕ)) (calls : List Call) (s : S)
      → All (CallTo target) calls
      → All
          (CallTo target)
          (send_all (live call policy) (calls, s) (map (λ frame. (target, frame)) frames)).0
  unfolding send_all
  send_all-CallTo [] calls s h = h
  send_all-CallTo (frame ∷ rest) calls s h = send_all-CallTo rest _ _ (live-CallTo calls s frame h)

map_ok-ne-panic : {E A B : Type 0} (f : A → B) (r : Result E A) → r ≢ panic → map_ok f r ≢ panic
map_ok-ne-panic f (ok a) h e = cc
map_ok-ne-panic f (err x) h e = cc
map_ok-ne-panic f panic h e = h refl

module _ {S : Type 0} (call : BareUdsTransport S) (policy : Policy)
    (answers : (s : S) (target : ℕ) (uds : List ℕ) → (call s target uds).0 ≢ panic) where
  telegram_request-ne-panic :
      (calls : List Call) (s : S) (target : ℕ) (frame : List ℕ)
      → (telegram_request (recorded call) (calls, s) target frame).0 ≢ panic
  telegram_request-ne-panic calls s target frame e = elim (Result-cases (decode_request frame)) [
    | inl (tel, d) ↦ elim (Bool-cases (tel.target == target)) [
      | inl same ↦
          map_ok-ne-panic (encode 0xf1 target) (call s target tel.uds).0 (answers s target tel.uds)
            (rw (telegram_request-ok (recorded call) (calls, s) target frame tel d, same) at e)
      | inr other ↦
          absurd (
            cc (rw (telegram_request-ok (recorded call) (calls, s) target frame tel d, other) at e))
    ]
    | inr (inl (x, d)) ↦
        absurd (cc (rw (telegram_request-err (recorded call) (calls, s) target frame d) at e))
    | inr (inr d) ↦ decode_request-ne-panic frame d
  ]

  -- The live stack answers or fails when the transport does.
  pub live-ne-panic :
      (x : List Call × S) (target : ℕ) (frame : List ℕ)
      → (live call policy x target frame).0 ≢ panic
  unfolding live
  live-ne-panic (calls, s) target frame e = elim (Option-cases (peek_sid frame)) [
    | inl blind ↦ absurd (
        cc (
          rw (gated_request_blind {S = List Call × S} _ policy (calls, s) target frame blind) at e))
    | inr (sid, peek) ↦
        admitted sid _
          (gated_request-Admission {S = List Call × S} _ policy (calls, s) target frame sid peek) e
  ]
    where
      admitted :
          (sid : ℕ) (answer : Result ExchangeError (List ℕ) × (List Call × S))
          → Admission
              (telegram_request (recorded call) (calls, s) target frame)
              (err (refused sid frame), (calls, s))
              policy
              sid
              answer
          → answer.0 ≢ panic
      admitted sid answer (delegated permit d) e =
          telegram_request-ne-panic calls s target frame (rw d at e)
      admitted sid answer (rejected _ d) e = absurd (cc (rw d at e))
